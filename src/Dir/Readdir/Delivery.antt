-- ===== src/Dir/Readdir/Delivery.antt =====
-- A listing of entries taken apart and put together, and the memory that a reply's data is.
use uvfs.Base.{
  ℕ, zero, suc, ◌+◌, ◌≤◌, ◌<◌, ◌≡◌, refl, List, [], ◌∷◌, ◌++◌, arith, length, take, drop,
  Bool-cases, inl, inr, ◌∙◌, sym, subst, ap, length-append, get_or, get_or-append,
}
use uvfs.Dir.Readdir.{Dirent, Filldir, memory, Walk, done, full}
use uvfs.Dir.Readdir.Entries.{Entry, dirent_of, deliver, Holds, AllEntries}

Holds-get_or :
    (mem : ℕ → ℕ) (o : ℕ) (xs : List ℕ)
    → ((i : ℕ) → i < length xs → mem (o + i) ≡ get_or xs i 0)
    → Holds mem o xs
Holds-get_or mem o [] h = tt
Holds-get_or mem o (x ∷ xs) h = (
  subst (λ o'. mem o' ≡ x) (omega arith) (h 0 (omega arith)),
  Holds-get_or mem (o + 1) xs
      (λ i l. subst (λ o'. mem o' ≡ get_or xs i 0) (omega arith) (h (suc i) (omega arith))),
)

pub Holds-memory : (stray : ℕ → ℕ) (xs rest : List ℕ) → Holds (memory (xs ++ rest) stray) 0 xs
Holds-memory stray xs rest =
    Holds-get_or (memory (xs ++ rest) stray) 0 xs
      (λ i l. ground (arith, length-append xs rest, get_or-append xs rest i 0))

pub AllEntries-drop : (n : ℕ) (es : List Entry) → AllEntries es → AllEntries (drop n es)
AllEntries-drop zero es h = h
AllEntries-drop (suc n) [] h = h
AllEntries-drop (suc n) (e ∷ es) h = AllEntries-drop n es h.1

pub AllEntries-take : (n : ℕ) (es : List Entry) → AllEntries es → AllEntries (take n es)
AllEntries-take zero es h = tt
AllEntries-take (suc n) [] h = tt
AllEntries-take (suc n) (e ∷ es) h = (h.0, AllEntries-take n es h.1)

-- Another listing from where one ended.
abbrev pub continued : Filldir → Walk → List Entry → Walk
continued filldir (done pos out) es = deliver filldir pos es out
continued filldir (full pos out) es = full pos out

pub deliver-split :
    (filldir : Filldir) (n pos : ℕ) (es : List Entry) (out : List Dirent)
    → deliver filldir pos es out
      ≡ continued filldir (deliver filldir pos (take n es) out) (drop n es)
unfolding deliver
deliver-split filldir zero pos es out = refl
deliver-split filldir (suc n) pos [] out = refl
deliver-split filldir (suc n) pos (e ∷ es) out = elim (Bool-cases (filldir out (dirent_of pos e))) [
  | inl h ↦ rw h refl
  | inr h ↦ rw h (deliver-split filldir n (pos + 1) es (out ++ dirent_of pos e ∷ []))
]

pub deliver-pos :
    (filldir : Filldir) (pos : ℕ) (es : List Entry) (out : List Dirent) (pos' : ℕ)
    (out' : List Dirent)
    → deliver filldir pos es out ≡ done pos' out'
    → pos' ≡ pos + length es
unfolding deliver
deliver-pos filldir pos [] out pos' out' h = ground arith
deliver-pos filldir pos (e ∷ es) out pos' out' h =
    ground (arith, deliver-pos filldir (pos + 1) es (out ++ dirent_of pos e ∷ []) pos' out')

drop-nil : (n : ℕ) → drop {A = Entry} n [] ≡ []
drop-nil zero = refl
drop-nil (suc n) = refl

pub drop-drop : (m n : ℕ) (es : List Entry) → drop n (drop m es) ≡ drop (m + n) es
drop-drop zero n es = let e : n ≡ 0 + n = omega arith in ap (λ x. drop x es) e
drop-drop (suc m) n [] = drop-nil n ∙ sym (drop-nil (suc m + n))
drop-drop (suc m) n (e ∷ es) =
    let shift : suc (m + n) ≡ suc m + n = omega arith in
    drop-drop m n es ∙ ap (λ x. drop x (e ∷ es)) shift

pub drop_all : (n : ℕ) (es : List Entry) → length es ≤ n → drop n es ≡ []
drop_all zero [] h = refl
drop_all zero (e ∷ es) h = absurd (omega arith)
drop_all (suc n) [] h = refl
drop_all (suc n) (e ∷ es) h = drop_all n es (omega arith)
