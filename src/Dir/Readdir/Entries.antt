-- ===== src/Dir/Readdir/Entries.antt =====
-- The layout of a reply's entries, and what the loop over them reads.
use uvfs.Base.{
  ℕ, zero, suc, ◌+◌, ◌-◌, ◌*◌, ◌/◌, ◌%◌, ◌^◌, ◌≤◌, ◌<◌, ◌≡◌, refl, List, [], ◌∷◌, ◌++◌, arith,
  if◌then◌else◌, length, length-append, word, widen, bytes32, subst,
}
use uvfs.Dir.Readdir.{
  Dirent, Filldir, word_at, bytes_at, next_entry, dirent_at, Walk, done, full, walk,
}

-- An entry of a directory; its place in the directory is the `index` of `uvfs_dirent_s`.
pub record Entry : Type 0 where
  pub name : List ℕ
  pub ino : ℕ

abbrev pub pad : ℕ → List ℕ
pad zero = []
pad (suc n) = 0 ∷ pad n

-- `uvfs_dirent_s` and the name, up to a multiple of four bytes.
unfoldable pub encode_entry : ℕ → Entry → List ℕ
encode_entry index e =
    bytes32 (length e.name)
    ++ (bytes32 e.ino
        ++ (bytes32 index ++ (e.name ++ pad ((length e.name + 3) / 4 * 4 - length e.name))))

unfoldable pub encode : ℕ → List Entry → List ℕ
encode index [] = []
encode index (e ∷ es) = encode_entry index e ++ encode (index + 1) es

-- What the callback is given of an entry.
abbrev pub dirent_of : ℕ → Entry → Dirent
dirent_of pos e = record { name = e.name; namlen = length e.name; offset = pos; ino = widen e.ino }

-- The listing of consecutive entries from a position on, up to the entry that the callback refuses.
unfoldable pub deliver : Filldir → ℕ → List Entry → List Dirent → Walk
deliver filldir pos [] out = done pos out
deliver filldir pos (e ∷ es) out =
    let rest = deliver filldir (pos + 1) es (out ++ dirent_of pos e ∷ []) in
    if filldir out (dirent_of pos e) then full pos out else rest

-- The memory holds these bytes from an offset on.
abbrev pub Holds : (ℕ → ℕ) → ℕ → List ℕ → Type 0
Holds mem o [] = Unit
Holds mem o (b ∷ bs) = (mem o ≡ b) × Holds mem (o + 1) bs

Holds-append :
    (mem : ℕ → ℕ) (o : ℕ) (xs ys : List ℕ)
    → Holds mem o (xs ++ ys)
    → Holds mem o xs × Holds mem (o + length xs) ys
Holds-append mem o [] ys h = (tt, subst (λ o'. Holds mem o' ys) (omega arith) h)
Holds-append mem o (x ∷ xs) ys h =
    let (front, back) = Holds-append mem (o + 1) xs ys h.1 in
    ((h.0, front), subst (λ o'. Holds mem o' ys) (omega arith) back)

bytes_at-Holds :
    (mem : ℕ → ℕ) (o : ℕ) (xs : List ℕ) → Holds mem o xs → bytes_at mem o (length xs) ≡ xs
unfolding bytes_at
bytes_at-Holds mem o [] h = refl
bytes_at-Holds mem o (x ∷ xs) h = ground (arith, bytes_at-Holds mem (o + 1) xs)

-- A word, and what stands behind it.
word_at-Holds :
    (mem : ℕ → ℕ) (o v o' : ℕ) (rest : List ℕ)
    → o' ≡ o + 4
    → v < word
    → Holds mem o (bytes32 v ++ rest)
    → (word_at mem o ≡ v) × Holds mem o' rest
unfolding bytes32 word_at
word_at-Holds mem o v o' rest e l h =
    (ground arith, subst (λ x. Holds mem x rest) (omega arith) h.1.1.1.1)

length-pad : (n : ℕ) → length (pad n) ≡ n
length-pad zero = refl
length-pad (suc n) = omega (arith, length-pad n)

pub length-encode_entry :
    (index : ℕ) (e : Entry) → length (encode_entry index e) ≡ 12 + (length e.name + 3) / 4 * 4
unfolding encode_entry bytes32
length-encode_entry index e = omega (
  arith,
  length-append e.name (pad ((length e.name + 3) / 4 * 4 - length e.name)),
  length-pad ((length e.name + 3) / 4 * 4 - length e.name),
)

-- The four parts of an entry in memory.
entry_parts :
    (mem : ℕ → ℕ) (o index : ℕ) (e : Entry)
    → Holds mem o (encode_entry index e)
    → length e.name < word
    → e.ino < word
    → index < word
    → (word_at mem o ≡ length e.name)
      × (word_at mem (o + 4) ≡ e.ino)
      × (word_at mem (o + 8) ≡ index)
      × (bytes_at mem (o + 12) (length e.name) ≡ e.name)
unfolding encode_entry
entry_parts mem o index e h a b c =
    let tail = pad ((length e.name + 3) / 4 * 4 - length e.name) in
    let named = e.name ++ tail in
    let p =
      word_at-Holds mem o (length e.name) (o + 4) (bytes32 e.ino ++ (bytes32 index ++ named)) refl a
        h in
    let q = word_at-Holds mem (o + 4) e.ino (o + 8) (bytes32 index ++ named) (omega arith) b p.1 in
    let r = word_at-Holds mem (o + 8) index (o + 12) named (omega arith) c q.1 in
    let n = Holds-append mem (o + 12) e.name tail r.1 in
    (p.0, q.0, r.0, bytes_at-Holds mem (o + 12) e.name n.0)

pub record IsEntry (e : Entry) : Type 0 where
  pub short : length e.name ≤ 256
  pub small : e.ino < word

dirent_at-Holds :
    (mem : ℕ → ℕ) (o index : ℕ) (e : Entry)
    → Holds mem o (encode_entry index e)
    → IsEntry e
    → index < word
    → dirent_at mem o index ≡ dirent_of index e
unfolding dirent_at
dirent_at-Holds mem o index e h v c =
    let (len, ino, place, bytes) = entry_parts mem o index e h (omega (arith, v.short)) v.small c in
    ground (arith, len, ino, bytes, v.short)

next_entry-encode :
    (o index : ℕ) (e : Entry)
    → o % 4 ≡ 0
    → o ≤ 4096
    → length e.name ≤ 256
    → next_entry o (length e.name) ≡ o + length (encode_entry index e)
unfolding next_entry
next_entry-encode o index e a b c = ground (arith, length-encode_entry index e)

abbrev pub AllEntries : List Entry → Type 0
AllEntries [] = Unit
AllEntries (e ∷ es) = IsEntry e × AllEntries es

-- The loop over entries that lie in memory one after the other, numbered from the position on, delivers
-- them.
pub walk-encode :
    (filldir : Filldir) (mem : ℕ → ℕ) (es : List Entry) (o pos : ℕ) (out : List Dirent)
    → Holds mem o (encode pos es)
    → AllEntries es
    → o % 4 ≡ 0
    → o + length (encode pos es) ≤ 4096
    → pos + length es < 2 ^ 31
    → walk filldir mem (length es) o pos out ≡ deliver filldir pos es out
unfolding walk deliver encode
walk-encode filldir mem [] o pos out h v a b c = refl
walk-encode filldir mem (e ∷ es) o pos out h v a b c =
    let this = encode_entry pos e in
    let (front, back) = Holds-append mem o this (encode (pos + 1) es) h in
    let size = length-append this (encode (pos + 1) es) in
    let width = length-encode_entry pos e in
    let parts = entry_parts mem o pos e front (omega (arith, v.0.short)) v.0.small (omega arith) in
    let ent = dirent_at-Holds mem o pos e front v.0 (omega arith) in
    let step = next_entry-encode o pos e a (omega arith) v.0.short in
    let rest =
      walk-encode filldir mem es (o + length this) (pos + 1) (out ++ dirent_of pos e ∷ []) back v.1
        (omega (arith, width)) (omega (arith, size)) (omega arith) in
    let next : widen ((pos + 1) % word) ≡ pos + 1 = ground arith in
    rw ent (rw parts.0 (rw step (rw parts.2 (rw next (rw rest refl)))))
