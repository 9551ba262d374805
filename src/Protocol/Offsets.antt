-- ===== src/Protocol/Offsets.antt =====
-- protocol.h: where each member of a request stands, by its offset from the request's start. All but the
-- character arrays are of 4 bytes.
use uvfs.Base.{ℕ, ◌+◌, ◌%◌, ◌≡◌, List, [], ◌∷◌, get32, length, take, drop, word}
use uvfs.Protocol.{Fhandle, Request}

-- An unsigned or int member, or the four characters of `no_flags`: its offset and what it holds.
abbrev pub Word : Type 0
Word = ℕ × ℕ

-- `uvfs_fhandle_s` at an offset, with other members behind it in the list.
abbrev pub handle_at : ℕ → Fhandle → List Word → List Word
handle_at o h rest =
    (o, h.no_mntid)
    ∷ (o + 4, h.no_flags)
    ∷ (o + 8, h.na_ipaddr)
    ∷ (o + 12, h.na_aruid)
    ∷ (o + 16, h.no_sbxid)
    ∷ (o + 20, h.fs_sbxid)
    ∷ (o + 24, h.fs_sfuid)
    ∷ (o + 28, h.no_blank2)
    ∷ rest

-- The members behind the type, the serial and the size.
abbrev pub members : Request → List Word
members (Request.file_write r) =
    handle_at 20 r.fh ((12, r.uid) ∷ (16, r.gid) ∷ (52, r.count) ∷ (56, r.offset) ∷ [])
members (Request.file_read r) =
    handle_at 20 r.fh ((12, r.uid) ∷ (16, r.gid) ∷ (52, r.count) ∷ (56, r.offset) ∷ [])
members (Request.create r) =
    handle_at 20 r.fh ((12, r.uid) ∷ (16, r.gid) ∷ (52, r.mode) ∷ (56, r.namelen) ∷ [])
members (Request.lookup r) = handle_at 20 r.fh ((12, r.uid) ∷ (16, r.gid) ∷ (52, r.namelen) ∷ [])
members (Request.unlink r) = handle_at 20 r.fh ((12, r.uid) ∷ (16, r.gid) ∷ (52, r.namelen) ∷ [])
members (Request.symlink r) =
    handle_at 20 r.fh ((12, r.uid) ∷ (16, r.gid) ∷ (308, r.namelen) ∷ (1336, r.symlen) ∷ [])
members (Request.mkdir r) =
    handle_at 24 r.fh ((12, r.uid) ∷ (16, r.gid) ∷ (20, r.mode) ∷ (56, r.namelen) ∷ [])
members (Request.rmdir r) = handle_at 20 r.fh ((12, r.uid) ∷ (16, r.gid) ∷ (52, r.namelen) ∷ [])
members (Request.rename r) = handle_at 20 r.fh_old (
    handle_at 312 r.fh_new
      ((12, r.uid) ∷ (16, r.gid) ∷ (308, r.old_namelen) ∷ (600, r.new_namelen) ∷ []))
members (Request.getattr r) = handle_at 20 r.fh ((12, r.uid) ∷ (16, r.gid) ∷ [])
members (Request.readlink r) = handle_at 20 r.fh ((12, r.uid) ∷ (16, r.gid) ∷ [])
members (Request.readdir r) = handle_at 20 r.fh ((12, r.uid) ∷ (16, r.gid) ∷ (52, r.entry_no) ∷ [])
members (Request.setattr r) = handle_at 20 r.fh (
    (12, r.uid)
    ∷ (16, r.gid)
    ∷ (52, r.ia_valid)
    ∷ (56, r.ia_uid)
    ∷ (60, r.ia_gid)
    ∷ (64, r.ia_size)
    ∷ (68, r.ia_atime.tv_sec)
    ∷ (72, r.ia_atime.tv_nsec)
    ∷ (76, r.ia_mtime.tv_sec)
    ∷ (80, r.ia_mtime.tv_nsec)
    ∷ (84, r.ia_ctime.tv_sec)
    ∷ (88, r.ia_ctime.tv_nsec)
    ∷ (92, r.ia_mode)
    ∷ [])
members (Request.statfs r) = handle_at 12 r.fh ([])
members (Request.read_super r) = (12, r.uid) ∷ (16, r.gid) ∷ (20, r.arglength) ∷ []

-- The character arrays, with what was copied into them.
abbrev pub texts : Request → List (ℕ × List ℕ)
texts (Request.file_write r) = (60, r.buff) ∷ []
texts (Request.file_read r) = []
texts (Request.create r) = (60, r.name) ∷ []
texts (Request.lookup r) = (56, r.name) ∷ []
texts (Request.unlink r) = (56, r.name) ∷ []
texts (Request.symlink r) = (52, r.name) ∷ (312, r.sympath) ∷ []
texts (Request.mkdir r) = (60, r.name) ∷ []
texts (Request.rmdir r) = (56, r.name) ∷ []
texts (Request.rename r) = (52, r.old_name) ∷ (344, r.new_name) ∷ []
texts (Request.getattr r) = []
texts (Request.readlink r) = []
texts (Request.readdir r) = []
texts (Request.setattr r) = []
texts (Request.statfs r) = []
texts (Request.read_super r) = (24, r.buff) ∷ []

-- Each member is read at its offset, in 32 bits.
abbrev pub HoldsWords : List ℕ → List Word → Type 0
HoldsWords bytes [] = Unit
HoldsWords bytes ((o, v) ∷ l) = (get32 bytes o ≡ v % word) × HoldsWords bytes l

-- Each array begins with what was copied into it.
abbrev pub HoldsTexts : List ℕ → List (ℕ × List ℕ) → Type 0
HoldsTexts bytes [] = Unit
HoldsTexts bytes ((o, text) ∷ l) = (take (length text) (drop o bytes) ≡ text) × HoldsTexts bytes l
