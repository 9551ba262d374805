-- ===== src/Operations/Fields.antt =====
-- The bytes of a request hold every member at its offset.
use uvfs.Base.{
  ℕ, zero, suc, ◌+◌, ◌-◌, ◌*◌, ◌/◌, ◌%◌, ◌≡◌, refl, ap, ◌∙◌, List, [], ◌∷◌, ◌++◌, arith, length,
  take, drop, get32, get_or, bytes32, word,
}
use uvfs.Protocol.{Request}
use uvfs.Protocol.Limits.{max_namelen, max_pathlen}
use uvfs.Protocol.Wire.{
  fhandle_bytes, timespec_bytes, array_bytes, length-array_bytes, body_bytes, request_bytes,
}
use uvfs.Protocol.Offsets.{HoldsWords, HoldsTexts, members, texts}
use uvfs.Operations.Requests.Members.{Fits}

word_back :
    (v : ℕ)
    → v % 256 + 256 * (v / 256 % 256) + 65536 * (v / 65536 % 256) + 16777216 * (v / 16777216 % 256)
      ≡ v % word
word_back v = omega arith

get32-bytes32 : (v : ℕ) (rest : List ℕ) → get32 (bytes32 v ++ rest) 0 ≡ v % word
unfolding get32 bytes32
get32-bytes32 v rest = word_back v

get_or-behind :
    (xs rest : List ℕ) (n o j : ℕ)
    → length xs ≡ n
    → n + o ≡ j
    → get_or (xs ++ rest) j 0 ≡ get_or rest o 0
get_or-behind [] rest n o j h e = ap (λ i. get_or rest i 0) (omega arith)
get_or-behind (x ∷ xs) rest n o zero h e = absurd (omega arith)
get_or-behind (x ∷ xs) rest n o (suc j) h e =
    get_or-behind xs rest (n - 1) o j (omega arith) (omega arith)

-- What stands behind an array.
get32-behind :
    (xs rest : List ℕ) (n o : ℕ) → length xs ≡ n → get32 (xs ++ rest) (n + o) ≡ get32 rest o
unfolding get32
get32-behind xs rest n o h = omega (
  arith,
  get_or-behind xs rest n o (n + o) h refl,
  get_or-behind xs rest n (o + 1) (n + o + 1) h (omega arith),
  get_or-behind xs rest n (o + 2) (n + o + 2) h (omega arith),
  get_or-behind xs rest n (o + 3) (n + o + 3) h (omega arith),
)

pub take-append : (xs ys : List ℕ) → take (length xs) (xs ++ ys) ≡ xs
take-append [] ys = refl
take-append (x ∷ xs) ys = ap (λ l. x ∷ l) (take-append xs ys)

pub request_bytes-HoldsWords :
    (old : ℕ → ℕ) (r : Request) → Fits r → HoldsWords (request_bytes old r) (members r)
unfolding request_bytes body_bytes fhandle_bytes timespec_bytes bytes32 get32
request_bytes-HoldsWords old (Request.file_write r) f = ground arith
request_bytes-HoldsWords old (Request.file_read r) f = ground arith
request_bytes-HoldsWords old (Request.create r) f = ground arith
request_bytes-HoldsWords old (Request.lookup r) f = ground arith
request_bytes-HoldsWords old (Request.unlink r) f = ground arith
request_bytes-HoldsWords old (Request.symlink r) f =
    let name = array_bytes old 52 max_namelen r.name in
    let path = array_bytes old 312 max_pathlen r.sympath in
    let behind_path = bytes32 r.symlen in
    let behind_name = bytes32 r.namelen ++ (path ++ behind_path) in
    let name_room = length-array_bytes old 52 max_namelen r.name (omega (arith, f)) in
    let path_room = length-array_bytes old 312 max_pathlen r.sympath (omega (arith, f)) in
    let word_behind_name = λ (o : ℕ). get32-behind name behind_name 256 o name_room in
    ground (
      arith,
      word_behind_name 0 ∙ word_back r.namelen,
      word_behind_name 1028 ∙ get32-behind path behind_path 1024 0 path_room ∙ word_back r.symlen,
    )
request_bytes-HoldsWords old (Request.mkdir r) f = ground arith
request_bytes-HoldsWords old (Request.rmdir r) f = ground arith
request_bytes-HoldsWords old (Request.rename r) f =
    let old_name = array_bytes old 52 max_namelen r.old_name in
    let new_name = array_bytes old 344 max_namelen r.new_name in
    let behind_new = bytes32 r.new_namelen in
    let behind_old =
      bytes32 r.old_namelen ++ (fhandle_bytes r.fh_new ++ (new_name ++ behind_new)) in
    let old_room = length-array_bytes old 52 max_namelen r.old_name (omega (arith, f)) in
    let new_room = length-array_bytes old 344 max_namelen r.new_name (omega (arith, f)) in
    let word_behind_old = λ (o : ℕ). get32-behind old_name behind_old 256 o old_room in
    ground (
      arith,
      word_behind_old 0 ∙ word_back r.old_namelen,
      word_behind_old 4 ∙ word_back r.fh_new.no_mntid,
      word_behind_old 8 ∙ word_back r.fh_new.no_flags,
      word_behind_old 12 ∙ word_back r.fh_new.na_ipaddr,
      word_behind_old 16 ∙ word_back r.fh_new.na_aruid,
      word_behind_old 20 ∙ word_back r.fh_new.no_sbxid,
      word_behind_old 24 ∙ word_back r.fh_new.fs_sbxid,
      word_behind_old 28 ∙ word_back r.fh_new.fs_sfuid,
      word_behind_old 32 ∙ word_back r.fh_new.no_blank2,
      word_behind_old 292
          ∙ get32-behind new_name behind_new 256 0 new_room
          ∙ word_back r.new_namelen,
    )
request_bytes-HoldsWords old (Request.getattr r) f = ground arith
request_bytes-HoldsWords old (Request.readlink r) f = ground arith
request_bytes-HoldsWords old (Request.readdir r) f = ground arith
request_bytes-HoldsWords old (Request.setattr r) f = ground arith
request_bytes-HoldsWords old (Request.statfs r) f = ground arith
request_bytes-HoldsWords old (Request.read_super r) f = ground arith

drop-at :
    (xs rest : List ℕ) (n o j : ℕ) → length xs ≡ n → n + o ≡ j → drop j (xs ++ rest) ≡ drop o rest
drop-at [] rest n o j h e = ap (λ i. drop i rest) (omega arith)
drop-at (x ∷ xs) rest n o zero h e = absurd (omega arith)
drop-at (x ∷ xs) rest n o (suc j) h e = drop-at xs rest (n - 1) o j (omega arith) (omega arith)

drop-behind : (xs rest : List ℕ) (n o : ℕ) → length xs ≡ n → drop (n + o) (xs ++ rest) ≡ drop o rest
drop-behind xs rest n o h = drop-at xs rest n o (n + o) h refl

-- An array begins with what was copied to its start.
take-twice : (xs ys zs : List ℕ) → take (length xs) ((xs ++ ys) ++ zs) ≡ xs
take-twice [] ys zs = refl
take-twice (x ∷ xs) ys zs = ap (λ l. x ∷ l) (take-twice xs ys zs)

take-all : (xs : List ℕ) → take (length xs) xs ≡ xs
take-all [] = refl
take-all (x ∷ xs) = ap (λ l. x ∷ l) (take-all xs)

pub request_bytes-HoldsTexts :
    (old : ℕ → ℕ) (r : Request) → Fits r → HoldsTexts (request_bytes old r) (texts r)
unfolding request_bytes body_bytes fhandle_bytes timespec_bytes bytes32 array_bytes
request_bytes-HoldsTexts old (Request.file_write r) f = (take-append r.buff _, tt)
request_bytes-HoldsTexts old (Request.file_read r) f = tt
request_bytes-HoldsTexts old (Request.create r) f = (take-all r.name, tt)
request_bytes-HoldsTexts old (Request.lookup r) f = (take-all r.name, tt)
request_bytes-HoldsTexts old (Request.unlink r) f = (take-all r.name, tt)
request_bytes-HoldsTexts old (Request.symlink r) f =
    let name = array_bytes old 52 max_namelen r.name in
    let path = array_bytes old 312 max_pathlen r.sympath in
    let behind_path = bytes32 r.symlen in
    let behind_name = bytes32 r.namelen ++ (path ++ behind_path) in
    let name_room = length-array_bytes old 52 max_namelen r.name (omega (arith, f)) in
    let reach = drop-behind name behind_name 256 4 name_room in
    (
      take-twice r.name _ behind_name,
      (ap (take (length r.sympath)) reach ∙ take-twice r.sympath _ behind_path, tt),
    )
request_bytes-HoldsTexts old (Request.mkdir r) f = (take-all r.name, tt)
request_bytes-HoldsTexts old (Request.rmdir r) f = (take-all r.name, tt)
request_bytes-HoldsTexts old (Request.rename r) f =
    let old_name = array_bytes old 52 max_namelen r.old_name in
    let new_name = array_bytes old 344 max_namelen r.new_name in
    let behind_new = bytes32 r.new_namelen in
    let behind_old =
      bytes32 r.old_namelen ++ (fhandle_bytes r.fh_new ++ (new_name ++ behind_new)) in
    let old_room = length-array_bytes old 52 max_namelen r.old_name (omega (arith, f)) in
    let reach = drop-behind old_name behind_old 256 36 old_room in
    (
      take-twice r.old_name _ behind_old,
      (ap (take (length r.new_name)) reach ∙ take-twice r.new_name _ behind_new, tt),
    )
request_bytes-HoldsTexts old (Request.getattr r) f = tt
request_bytes-HoldsTexts old (Request.readlink r) f = tt
request_bytes-HoldsTexts old (Request.readdir r) f = tt
request_bytes-HoldsTexts old (Request.setattr r) f = tt
request_bytes-HoldsTexts old (Request.statfs r) f = tt
request_bytes-HoldsTexts old (Request.read_super r) f = (take-all r.buff, tt)
