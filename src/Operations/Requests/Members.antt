-- ===== src/Operations/Requests/Members.antt =====
-- protocol.h: when a request fits its place in the union.
use uvfs.Base.{ℕ, ◌+◌, ◌≤◌, ◌<◌, word, ◌≡◌, List, [], ◌∷◌, length}
use uvfs.Protocol.{Request}
use uvfs.Protocol.Limits.{max_namelen, max_pathlen, page_size}

-- The bytes that are copied into an array fit it, and are as many as the length beside it says.
abbrev pub InArray : ℕ → List ℕ → ℕ → Type 0
InArray room bytes n = (length bytes ≡ n) × (n ≤ room)

-- The request's code is that of its member, its size covers what was filled in and stays inside the
-- union, and each array holds what was copied into it.
abbrev pub Fits : Request → Type 0
Fits (Request.file_write r) =
    (r.type ≡ 1) × (r.size ≡ 60 + r.count) × (r.size ≤ 4156) × (length r.buff ≤ r.count)
Fits (Request.file_read r) = (r.type ≡ 2) × (r.size ≡ 60) × (r.count ≡ page_size)
Fits (Request.create r) =
    (r.type ≡ 3) × (r.size ≡ 60 + r.namelen) × InArray max_namelen r.name r.namelen
Fits (Request.lookup r) =
    (r.type ≡ 4) × (r.size ≡ 56 + r.namelen) × InArray max_namelen r.name r.namelen
Fits (Request.unlink r) =
    (r.type ≡ 5) × (r.size ≡ 56 + r.namelen) × InArray max_namelen r.name r.namelen
Fits (Request.symlink r) =
    (r.type ≡ 6)
    × (r.size ≡ 1340)
    × InArray max_namelen r.name r.namelen
    × InArray max_pathlen r.sympath r.symlen
Fits (Request.mkdir r) =
    (r.type ≡ 7) × (r.size ≡ 60 + r.namelen) × InArray max_namelen r.name r.namelen
Fits (Request.rmdir r) =
    (r.type ≡ 8) × (r.size ≡ 56 + r.namelen) × InArray max_namelen r.name r.namelen
Fits (Request.rename r) =
    (r.type ≡ 9)
    × (r.size ≡ 604)
    × InArray max_namelen r.old_name r.old_namelen
    × InArray max_namelen r.new_name r.new_namelen
Fits (Request.readdir r) = (r.type ≡ 10) × (r.size ≡ 56) × (r.entry_no < word)
Fits (Request.setattr r) = (r.type ≡ 11) × (r.size ≡ 96) × (r.ia_size < word)
Fits (Request.getattr r) = (r.type ≡ 12) × (r.size ≡ 52)
Fits (Request.statfs r) = (r.type ≡ 13) × (r.size ≡ 44)
Fits (Request.read_super r) =
    (r.type ≡ 14)
    × (r.size ≡ 24 + r.arglength)
    × (r.size ≤ 1048)
    × InArray max_pathlen r.buff r.arglength
Fits (Request.readlink r) = (r.type ≡ 15) × (r.size ≡ 52)

abbrev pub AllFit : List Request → Type 0
AllFit [] = Unit
AllFit (r ∷ rs) = Fits r × AllFit rs
