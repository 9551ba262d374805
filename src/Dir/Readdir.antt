-- ===== src/Dir/Readdir.antt =====
-- dir.c: uvfs_readdir. The position `filp->f_pos` and offsets in memory have 64 bits, an offset counts
-- from the reply's data, which is aligned, and other memory than the data is the kernel's.
pub mod Entries
pub mod Delivery
pub mod Listing
pub mod Hazards
use uvfs.Base.{
  ℕ, zero, suc, ◌+◌, ◌*◌, ◌/◌, ◌%◌, ◌^◌, Bool, true, false, List, [], ◌∷◌, ◌++◌, ◌==◌, ltb,
  if◌then◌else◌, is_negative, length, get_or, word, widen,
}
use uvfs.Base.Errno.{enomem}
use uvfs.Protocol.{Request, ReaddirReq, Reply}
use uvfs.Protocol
use uvfs.Protocol.Limits.{dirent_size}
use uvfs.Vfs.{
  Inode, Kernel, World, Op, ◌>>=◌, ◌>>◌, return, with_transaction, get_inode, new_transaction,
  make_request, free,
}

-- What one call of filldir is given; a negative length names no bytes.
pub record Dirent : Type 0 where
  pub name : List ℕ
  pub namlen : ℕ
  pub offset : ℕ
  pub ino : ℕ

-- The callback, with what it has taken so far: whether it returns non-zero.
abbrev pub Filldir : Type 0
Filldir = List Dirent → Dirent → Bool

unfoldable pub word_at : (ℕ → ℕ) → ℕ → ℕ
word_at mem o = mem o + 256 * mem (o + 1) + 65536 * mem (o + 2) + 16777216 * mem (o + 3)

unfoldable pub bytes_at : (ℕ → ℕ) → ℕ → ℕ → List ℕ
bytes_at mem o zero = []
bytes_at mem o (suc n) = mem o ∷ bytes_at mem (o + 1) n

abbrev pub memory : List ℕ → (ℕ → ℕ) → ℕ → ℕ
memory bytes stray o = if ltb o (length bytes) then get_or bytes o 0 else stray o

-- `(ent + sizeof(*ent) + ent->length + 3) & ~3`
unfoldable pub next_entry : ℕ → ℕ → ℕ
next_entry o len = (o + dirent_size + widen len + 3) % 2 ^ 64 / 4 * 4

-- The entry at an offset, at the position from which it is read.
unfoldable pub dirent_at : (ℕ → ℕ) → ℕ → ℕ → Dirent
dirent_at mem o pos =
    let len = word_at mem o in
    record {
      name = bytes_at mem (o + dirent_size) (if is_negative len then 0 else len);
      namlen = len;
      offset = pos;
      ino = widen (word_at mem (o + 4));
    }

-- Where the loop over one reply's entries ends: after the last one, or by `goto full`; with the
-- position and all that the callback has taken.
pub data Walk : Type 0 where
  done : ℕ → List Dirent → Walk
  full : ℕ → List Dirent → Walk

module _ (filldir : Filldir) (mem : ℕ → ℕ) where
  -- With the rounds left, the entry's offset, the position, and what was taken.
  unfoldable pub walk : ℕ → ℕ → ℕ → List Dirent → Walk
  unfolding dirent_at next_entry
  walk zero o pos out = done pos out
  walk (suc n) o pos out =
      let ent = dirent_at mem o pos in
      let rest =
        walk n (next_entry o ent.namlen) (widen ((word_at mem (o + 8) + 1) % word))
          (out ++ ent ∷ []) in
      if filldir out ent then full pos out else rest

-- How one round of `while (1)` ends: the function returns an error or 0, or goes on.
pub data Round : Type 0 where
  stop : ℕ → ℕ → List Dirent → Round
  again : ℕ → List Dirent → Round

abbrev current : Op World
current w = (w, w)

-- The error or 0, the position, and what was taken; or that the rounds have run out.
pub data Outcome : Type 0 where
  ended : ℕ → ℕ → List Dirent → Outcome
  unfinished : Outcome

module _ (k : Kernel) (filldir : Filldir) (p : ℕ) where
  abbrev pub readdir_request : Inode → ℕ → ℕ → Request
  readdir_request dir pos serial = Request.readdir (record {
    type = Protocol.Code.readdir;
    serial = serial;
    size = Protocol.Layout.readdir;
    uid = k.current_fsuid;
    gid = k.current_fsgid;
    fh = dir.fh;
    entry_no = pos % word;
  })

  -- The reply to the request for the entries from a position on.
  unfoldable pub ask_entries : ℕ → ℕ → Op Reply
  ask_entries pos serial = do dir ← get_inode p; make_request k (readdir_request dir pos serial)

  -- `for (i = 0; i < reply->count; i++)`
  unfoldable pub entries_of : World → Reply → ℕ → List Dirent → Walk
  entries_of w reply pos out =
      let count = if is_negative reply.readdir_count then 0 else reply.readdir_count in
      walk filldir (memory reply.readdir_data (k.stray_byte w)) count 0 pos out

  -- What a reply leads to.
  unfoldable pub after_reply : World → Reply → ℕ → List Dirent → Round
  unfolding entries_of
  after_reply w reply pos out =
      if is_negative reply.error
      then stop reply.error pos out
      else if reply.readdir_count == 0
      then stop 0 pos out
      else elim (entries_of w reply pos out) [
        | done pos' out' ↦ again pos' out'
        | full pos' out' ↦ stop 0 pos' out'
      ]

  unfoldable pub read_entries : ℕ → List Dirent → ℕ → Op Round
  unfolding ask_entries
  read_entries pos out serial = do
    reply ← ask_entries pos serial
    w ← current
    free
    return (after_reply w reply pos out)

  unfoldable pub round : ℕ → List Dirent → Op Round
  round pos out = with_transaction k (stop enomem pos out) (λ serial. read_entries pos out serial)

  -- `while (1)`, on fuel.
  unfoldable pub uvfs_readdir : ℕ → ℕ → List Dirent → Op Outcome
  uvfs_readdir zero pos out w = (unfinished, w)
  uvfs_readdir (suc fuel) pos out w =
      let (r, w') = round pos out w in
      elim r [
        | stop err pos' out' ↦ (ended err pos' out', w')
        | again pos' out' ↦ uvfs_readdir fuel pos' out' w'
      ]
