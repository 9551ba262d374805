-- ===== src/Driver/Safety.antt =====
-- What driver.c guarantees in every reachable state, as long as no reply is accepted for a request
-- that is still being read or that is just being given up (`Careful` of Driver/System.antt).
use uvfs.Base.{ℕ, ◌<◌, ◌≡◌, ◌⊎◌, inl, inr, subst, true, false, arith, ◌==◌, Bool-cases}
use uvfs.Driver.State.{links}
use uvfs.Driver.System.{waiting, aborting, returned, System, Reach, Careful}
use uvfs.Driver.Invariant.{Inv, Place, in_copy, owns, Reach-Inv}
use uvfs.Driver.Progress.{Attended, Reach-Progress}

-- In every state that careful steps reach, a transaction with a link in Uvfs_requests or Uvfs_replies
-- has exactly one, its memory is allocated, and it is not yet answered.
pub linked_is_open :
    {s : System} (a : ℕ)
    → Reach Careful s
    → 0 < links a s.driver
    → (s.driver.live a ≡ true) × ((s.driver.heap a).answered ≡ false) × (links a s.driver ≡ 1)
linked_is_open a r h =
    let v = Reach-Inv r in (v.linked_live a h, v.linked_open a h, omega (arith, v.linked_once a))

-- In every state that careful steps reach, the transaction that a server thread copies from or into
-- is allocated and marked in use, and no second thread copies from or into it.
pub copies_are_exclusive :
    {s : System} (j k a : ℕ)
    → Reach Careful s
    → in_copy (s.daemon j) a ≡ true
    → in_copy (s.daemon k) a ≡ true
    → (s.driver.live a ≡ true) × ((s.driver.heap a).in_use ≡ true) × (j ≡ k)
copies_are_exclusive j k a r h h' =
    let v = Reach-Inv r in (v.copy_live j a h, v.copy_used j a h, v.copy_once j k a h h')

returned-uncopied :
    {s : System} (i j a : ℕ) → Inv s → s.client i ≡ returned a → in_copy (s.daemon j) a ≡ false
returned-uncopied {s} i j a v e =
    let mine : Place s.driver (returned a) = subst (Place s.driver) e (v.place i) in
    ground (arith, v.copy_used j a, v.writer_open j a, v.reader_linked j a)

-- In every state that careful steps reach, a transaction that uvfs_make_request has returned, and that
-- its caller is about to free, is allocated, stands in neither list, is copied by no server thread,
-- and is in no other file-system thread's hands.
pub returned_is_private :
    {s : System} (i j k a : ℕ)
    → Reach Careful s
    → s.client i ≡ returned a
    → (s.driver.live a ≡ true)
      × (links a s.driver ≡ 0)
      × (in_copy (s.daemon j) a ≡ false)
      × (owns (s.client k) a ≡ (i == k))
returned_is_private {s} i j k a r e =
    let v = Reach-Inv r in
    let mine : Place s.driver (returned a) = subst (Place s.driver) e (v.place i) in
    (
      v.owner_live i a (rw e (ground arith)),
      mine.0,
      returned-uncopied i j a v e,
      ground (arith, v.owner_once i k a),
    )

-- In every state that careful steps reach, the request of a thread that waits for its answer is
-- answered, stands exactly once in one of the two lists, or is being copied by some server thread: it
-- is never lost.
pub request_not_lost :
    {s : System} (i a : ℕ)
    → Reach Careful s
    → s.client i ≡ waiting a
    → ((s.driver.heap a).answered ≡ true)
      ⊎ ((links a s.driver ≡ 1) ⊎ ((j : ℕ) × (in_copy (s.daemon j) a ≡ true)))
request_not_lost {s} i a r e =
    let v = Reach-Inv r in
    let g = Reach-Progress r in
    let mine : Attended s.driver (waiting a) = subst (Attended s.driver) e (g.attended i) in
    elim mine.0 [
      | inl h ↦ elim (Bool-cases (s.driver.heap a).answered) [
        | inl y ↦ inl y
        | inr n ↦ inr (inr (g.busy a (v.owner_live i a (rw e (ground arith))) (ground arith)))
      ]
      | inr h ↦ inr (inl (omega (arith, v.linked_once a)))
    ]

-- In every state that careful steps reach, a thread in the first wait of uvfs_make_request whose
-- transaction is answered has been woken up since it began to wait.
pub answer_wakes :
    {s : System} (i a : ℕ)
    → Reach Careful s
    → s.client i ≡ waiting a
    → (s.driver.heap a).answered ≡ true
    → (s.driver.heap a).woken ≡ true
answer_wakes {s} i a r e h =
    let mine : Attended s.driver (waiting a) =
      subst (Attended s.driver) e ((Reach-Progress r).attended i) in
    mine.1 h

-- In every state that careful steps reach, a thread in the second wait of uvfs_make_request has set
-- `abort`, and either the transaction is out of use and the thread has been woken up since it began
-- that wait, or some server thread is copying from or into the transaction.
pub abort_wakes :
    {s : System} (i a : ℕ)
    → Reach Careful s
    → s.client i ≡ aborting a
    → ((s.driver.heap a).abort ≡ true)
      × ((((s.driver.heap a).in_use ≡ false) × ((s.driver.heap a).woken ≡ true))
          ⊎ ((j : ℕ) × (in_copy (s.daemon j) a ≡ true)))
abort_wakes {s} i a r e =
    let g = Reach-Progress r in
    let mine : Attended s.driver (aborting a) = subst (Attended s.driver) e (g.attended i) in
    (
      mine.0,
      elim (Bool-cases (s.driver.heap a).in_use) [
        | inl u ↦ inr (g.busy a ((Reach-Inv r).owner_live i a (rw e (ground arith))) u)
        | inr u ↦ inl (u, mine.1 u)
      ],
    )
