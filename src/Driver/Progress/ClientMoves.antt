-- ===== src/Driver/Progress/ClientMoves.antt =====
-- The file system's threads keep one another attended.
use uvfs.Base.{
  ℕ, ◌≡◌, ◌≢◌, subst, true, false, [], ◌∷◌, ◌++◌, arith, some, update, count-remove, count-snoc,
  inl, inr,
}
use uvfs.Base.Errno.{eio}
use uvfs.Driver.State.{Driver, modify, set_error}
use uvfs.Driver.Request.{uvfs_new_transaction, unlink, kfree}
use uvfs.Driver.System.{
  Client, created, waiting, woken, aborting, aborted, returned, System, ClientMove, create, fill,
  refused, queued, wake_answered, wake_signal, check_over, check_wait, wake_unused, leave_aborted,
  free,
}
use uvfs.Driver.Invariant.{
  Inv, Place, owns, enter-refused, enter-queued, check_signal-over, check_signal-wait, aborts,
}
use uvfs.Driver.Progress.Defs.{Progress, Busy, Attended, Attends, Attends-Attended, update-Attended}

-- A thread that owns `a` goes on, and only `a` is touched.
go-Progress :
    (s : System) (i a : ℕ) (d : Driver) (p : Client)
    → Inv s
    → owns (s.client i) a ≡ true
    → Busy d s.daemon
    → Attended d p
    → ((x : ℕ) → a ≢ x → Attends s.driver d x)
    → Progress s
    → Progress (record s { driver = d; client = update s.client i p })
go-Progress s i a d p v o b h k g = record {
  busy = b;
  attended = update-Attended d s.client i p h λ l ne.
      Attends-Attended s.driver d (s.client l) (λ x c. k x (ground (arith, v.owner_once i l x)))
        (g.attended l);
}

create-Progress :
    (s : System) (i a : ℕ)
    → s.driver.live a ≡ false
    → Inv s
    → Progress s
    → Progress (record s {
      driver = (uvfs_new_transaction (some a) s.driver).1;
      client = update s.client i (created a);
    })
unfolding uvfs_new_transaction
create-Progress s i a new v g = record {
  busy = λ x l u. g.busy x (ground arith) (ground arith);
  attended =
      update-Attended (uvfs_new_transaction (some a) s.driver).1 s.client i (created a) tt λ k ne.
        Attends-Attended s.driver (uvfs_new_transaction (some a) s.driver).1 (s.client k)
          (λ x o. ground (arith, v.owner_live k x)) (g.attended k);
}

unlink-Progress :
    (s : System) (i a : ℕ)
    → owns (s.client i) a ≡ true
    → Inv s
    → Progress s
    → Progress (record s { driver = unlink a s.driver; client = update s.client i (returned a) })
unfolding unlink
unlink-Progress s i a o v g =
    go-Progress s i a (unlink a s.driver) (returned a) v o (λ x l u. g.busy x l (ground arith)) tt
      (λ x ne.
        ground (arith, count-remove x a s.driver.requests, count-remove x a s.driver.replies))
      g

pub ClientMove-Progress :
    (s : System) (i : ℕ) {q p : Client} {d : Driver}
    → s.client i ≡ q
    → ClientMove s.driver q d p
    → Inv s
    → Progress s
    → Progress (record s { driver = d; client = update s.client i p })
unfolding kfree
ClientMove-Progress s i e (create a new) v g = create-Progress s i a new v g
ClientMove-Progress s i e (fill {a} request) v g =
    go-Progress s i a _ (created a) v (rw e (ground arith)) (λ x l u. g.busy x l (ground arith)) tt
      (λ x ne. ground arith) g
ClientMove-Progress s i e (refused {a} h) v g = rw (enter-refused a s.driver h) (
    go-Progress s i a (modify a (set_error eio) s.driver) (returned a) v (rw e (ground arith))
      (λ x l u. g.busy x l (ground arith)) tt (λ x ne. ground arith) g)
ClientMove-Progress s i e (queued {a} h) v g =
    let mine : Place s.driver (created a) = subst (Place s.driver) e (v.place i) in
    rw (enter-queued a s.driver h) (
      go-Progress s i a (record s.driver { requests = s.driver.requests ++ a ∷ [] }) (waiting a) v
        (rw e (ground arith)) g.busy (ground (arith, count-snoc a s.driver.requests a))
        (λ x ne. ground (arith, count-snoc x s.driver.requests a)) g)
ClientMove-Progress s i e (wake_answered {a} h) v g =
    go-Progress s i a s.driver (woken a true) v (rw e (ground arith)) g.busy tt
      (λ x ne. ground arith) g
ClientMove-Progress s i e (wake_signal {a}) v g =
    go-Progress s i a s.driver (woken a false) v (rw e (ground arith)) g.busy tt
      (λ x ne. ground arith) g
ClientMove-Progress s i e (check_over {a} {seen} signal h c) v g =
    elim (check_signal-over signal a s.driver c) [
      | inl (_, unused, f) ↦ rw f (unlink-Progress s i a (rw e (ground arith)) v g)
      | inr (quiet, f) ↦ rw f (
          go-Progress s i a s.driver (returned a) v (rw e (ground arith)) g.busy tt
            (λ x ne. ground arith) g)
    ]
ClientMove-Progress s i e (check_wait {a} {seen} signal c) v g =
    let (used, f) = check_signal-wait signal a s.driver c in
    rw f (
      go-Progress s i a (aborts a s.driver) (aborting a) v (rw e (ground arith))
        (λ x l u. g.busy x l (ground arith)) (ground arith) (λ x ne. ground arith) g)
ClientMove-Progress s i e (wake_unused {a} h) v g =
    go-Progress s i a s.driver (aborted a) v (rw e (ground arith)) g.busy tt (λ x ne. ground arith)
      g
ClientMove-Progress s i e (leave_aborted {a}) v g = unlink-Progress s i a (rw e (ground arith)) v g
ClientMove-Progress s i e (free {a}) v g =
    go-Progress s i a (kfree a s.driver) Client.idle v (rw e (ground arith))
      (λ x l u. g.busy x (ground arith) u) tt (λ x ne. ground arith) g
