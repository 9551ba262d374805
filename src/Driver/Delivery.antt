-- ===== src/Driver/Delivery.antt =====
-- driver.c: which transaction a reply goes to, what its requester reads, and how the last release and
-- an interruption answer.
use uvfs.Base.{
  ℕ, ◌+◌, ◌^◌, ◌≤◌, ◌<◌, ◌≡◌, ◌≢◌, ◌⊎◌, ◌↔◌, inl, inr, refl, Bool, true, false, List, [], ◌∷◌, none,
  some, arith, ◌==◌, update, get32, set32, copy_at, length, get32-copy_at, get32-set32, bytes32,
  le-length-copy_at, count, count-nil, count-cons, Bool-cases, word, count-remove,
}
use uvfs.Base.Errno.{eio, erestartsys}
use uvfs.Driver.State.{Transaction, Driver, links, modify}
use uvfs.Driver.Daemon.{
  uvfsd_release, fail, fail_all, find_serial, write_head, write_finish, write_check,
}
use uvfs.Driver.Request.{unlink}
use uvfs.Driver.Invariant.{uvfsd_release-last, failed-linked, found, failed}

find_serial-finds :
    (serial : ℕ) (h : ℕ → Transaction) (l : List ℕ) (a : ℕ)
    → 0 < count a l
    → (h a).serial ≡ serial
    → ((x : ℕ) → 0 < count x l → (h x).serial ≡ serial → x ≡ a)
    → find_serial serial h l ≡ some a
unfolding find_serial
find_serial-finds serial h [] a c e u = absurd (omega (arith, count-nil a))
find_serial-finds serial h (x ∷ l) a c e u = elim (Bool-cases ((h x).serial == serial)) [
  | inl hit ↦ ground (arith, u x, count-cons x x l)
  | inr miss ↦
      let rest : find_serial serial h l ≡ some a =
        find_serial-finds serial h l a (ground (arith, count-cons a x l)) e
          (λ y c' e'. u y (ground (arith, count-cons y x l)) e') in
      rw miss rest
]

-- A reply whose serial one transaction among the replies has, and no other one there, goes to that
-- transaction: uvfsd_write takes it out of the lists and marks it in use.
pub reply_reaches :
    (serial : ℕ) (d : Driver) (a : ℕ)
    → 0 < count a d.replies
    → (d.heap a).serial ≡ serial
    → ((x : ℕ) → 0 < count x d.replies → (d.heap x).serial ≡ serial → x ≡ a)
    → write_head serial d ≡ some (a, found a d)
unfolding write_head
reply_reaches serial d a c e u = ground (arith, find_serial-finds serial d.heap d.replies a c e u)

find_serial-none :
    (serial : ℕ) (h : ℕ → Transaction) (l : List ℕ)
    → ((x : ℕ) → 0 < count x l → (h x).serial ≢ serial)
    → find_serial serial h l ≡ none
unfolding find_serial
find_serial-none serial h [] u = refl
find_serial-none serial h (x ∷ l) u =
    let rest : find_serial serial h l ≡ none =
      find_serial-none serial h l (λ y c. u y (ground (arith, count-cons y x l))) in
    ground (arith, rest, u x, count-cons x x l)

-- A reply whose serial no transaction among the replies has is refused.
pub stray_reply_refused :
    (serial : ℕ) (d : Driver)
    → ((x : ℕ) → 0 < count x d.replies → (d.heap x).serial ≢ serial)
    → write_head serial d ≡ none
unfolding write_head
stray_reply_refused serial d u = ground (arith, find_serial-none serial d.heap d.replies u)

-- Once a reply has been copied in and its write is finished, the transaction is answered, out of use
-- and woken up, and each word of the reply is what the requester reads at that word's offset; other
-- transactions are as they were.
pub reply_is_read_back :
    (d : Driver) (a x off : ℕ) (reply : List ℕ)
    → off + 4 ≤ length reply
    → a ≢ x
    → let d' = write_finish a (modify a (λ t. record t { u = copy_at t.u 0 reply }) d) in
      (get32 (d'.heap a).u off ≡ get32 reply off)
      × ((d'.heap a).answered ≡ true)
      × ((d'.heap a).in_use ≡ false)
      × ((d'.heap a).woken ≡ true)
      × (d'.heap x ≡ d.heap x)
unfolding write_finish
reply_is_read_back d a x off reply h ne = ground (arith, get32-copy_at (d.heap a).u reply off)

length-set32 : (u : List ℕ) (v : ℕ) → 12 ≤ length u → 12 ≤ length (set32 u 12 v)
unfolding set32
length-set32 u v h = omega (arith, le-length-copy_at u 12 (bytes32 v) h)

fail_all-length :
    (x : ℕ) (l : List ℕ) (h : ℕ → Transaction)
    → 12 ≤ length (h x).u
    → 12 ≤ length (fail_all l h x).u
unfolding fail_all
fail_all-length x [] h len = len
fail_all-length x (a ∷ l) h len =
    fail_all-length x l (update h a (fail (h a))) (ground (arith, length-set32 (h a).u eio))

fail_all-error :
    (x : ℕ) (l : List ℕ) (h : ℕ → Transaction)
    → 12 ≤ length (h x).u
    → (get32 (h x).u 12 ≡ eio) ⊎ (0 < count x l)
    → get32 (fail_all l h x).u 12 ≡ eio
unfolding fail_all
fail_all-error x [] h len c = elim c [ inl e ↦ e | inr p ↦ absurd (omega (arith, count-nil x)) ]
fail_all-error x (a ∷ l) h len c = elim (Bool-cases (a == x)) [
  | inl e ↦
      fail_all-error x l (update h a (fail (h a))) (ground (arith, length-set32 (h a).u eio))
        (inl (ground (arith, get32-set32 (h a).u 12 eio)))
  | inr e ↦
      fail_all-error x l (update h a (fail (h a))) (ground arith)
        (elim c [ inl e' ↦ inl (ground arith) | inr p ↦ inr (ground (arith, count-cons x a l)) ])
]

failed-error :
    (d : Driver) (a : ℕ) → 12 ≤ length (d.heap a).u → 0 < links a d → get32 (failed d a).u 12 ≡ eio
failed-error d a len c =
    fail_all-error a d.replies (fail_all d.requests d.heap)
      (fail_all-length a d.requests d.heap len)
      (elim (Bool-cases (count a d.requests == 0)) [
        | inl e ↦ inr (ground arith)
        | inr e ↦ inl (fail_all-error a d.requests d.heap len (inr (ground arith)))
      ])

-- The last release answers every transaction that is linked in one of the lists and whose union holds
-- at least the first three words: its requester finds it answered, with the error -EIO, and the lists
-- are empty, so the transaction is unlinked.
pub last_release_answers :
    (d : Driver) (a : ℕ)
    → d.use_count ≡ 1
    → 0 < links a d
    → 12 ≤ length (d.heap a).u
    → let d' = uvfsd_release d in
      ((d'.heap a).answered ≡ true)
      × (get32 (d'.heap a).u 12 ≡ eio)
      × (links a d' ≡ 0)
      × (d'.use_count ≡ 0)
last_release_answers d a e c len =
    rw (uvfsd_release-last d e)
      (failed-linked d a c, failed-error d a len c, omega (arith, count-nil a), omega arith)

-- An interrupted request, linked at most once before, is in neither list afterwards, and its requester
-- finds the error -ERESTARTSYS; what the lists hold of another transaction stays.
pub interruption_unlinks :
    (d : Driver) (a x : ℕ)
    → links a d ≤ 1
    → 12 ≤ length (d.heap a).u
    → a ≢ x
    → let d' = unlink a d in
      (links a d' ≡ 0) × (get32 (d'.heap a).u 12 ≡ erestartsys) × (links x d' ≡ links x d)
unfolding unlink
interruption_unlinks d a x once len ne = (
  ground (arith, count-remove a a d.requests, count-remove a a d.replies),
  ground (arith, get32-set32 (d.heap a).u 12 erestartsys),
  ground (arith, count-remove x a d.requests, count-remove x a d.replies),
)

-- The tests of uvfsd_write on a count below 2 ^ 31, as a reply of the server's has: it goes on exactly
-- if the count covers a reply's header, the copy of the header succeeds, and the header's size is the
-- count.
pub write_check_exact :
    (count : ℕ) (copy_failed : Bool) (reply : List ℕ)
    → count < 2 ^ 31
    → get32 reply 8 < word
    → (write_check count copy_failed reply ≡ none)
      ↔ ((16 ≤ count) × (copy_failed ≡ false) × (get32 reply 8 ≡ count))
unfolding write_check
write_check_exact count copy_failed reply h w = (λ e. ground arith, λ e. ground arith)
