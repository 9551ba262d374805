-- ===== src/Driver/Integrity.antt =====
-- driver.c: the bytes of a pending transaction.
use uvfs.Base.{
  ℕ, ◌-◌, ◌≤◌, ◌<◌, ◌≡◌, refl, subst, inl, inr, arith, ◌==◌, get32, count-nil, count-remove,
  Bool-cases,
}
use uvfs.Driver.State.{Driver, links}
use uvfs.Driver.Daemon.{uvfsd_open, uvfsd_release, read_finish, write_finish}
use uvfs.Driver.Request.{uvfs_new_transaction, unlink, kfree}
use uvfs.Driver.System.{
  Client, Daemon, System, DaemonMove, fall_asleep, stop_server, interrupt, take, finish_read,
  leave_read, copy_reply, fault_reply, finish_write, ClientMove, create, fill, refused, queued,
  wake_answered, wake_signal, check_over, check_wait, wake_unused, leave_aborted, free, Step, opens,
  releases, controls, serves, accepts, calls, Reach, Careful,
}
use uvfs.Driver.Invariant.{
  Inv, Place, Reach-Inv, read_head-took, write_head-some, enter-refused, enter-queued,
  check_signal-over, check_signal-wait, ioctl-driver,
}

-- What a step may not touch of a transaction that stays in the lists.
abbrev Intact : ℕ → Driver → Driver → Type 0
Intact x d d' =
    0 < links x d
    → 0 < links x d'
    → ((d'.heap x).u ≡ (d.heap x).u) × ((d'.heap x).serial ≡ (d.heap x).serial)

unlink-Intact : (d : Driver) (a x : ℕ) → links a d ≤ 1 → Intact x d (unlink a d)
unfolding unlink
unlink-Intact d a x once linked linked' =
    ground (arith, count-remove x a d.requests, count-remove x a d.replies)

release-Intact : (d : Driver) (x : ℕ) → 0 < d.use_count → Intact x d (uvfsd_release d)
unfolding uvfsd_release
release-Intact d x pos linked linked' = elim (Bool-cases (d.use_count - 1 == 0)) [
  | inl e ↦ absurd (ground (arith, count-nil x))
  | inr e ↦ rw e (refl, refl)
]

module _ (s : System) (v : Inv s) (x : ℕ) where
  DaemonMove-Intact :
      (j : ℕ) {q p : Daemon} {d : Driver}
      → s.daemon j ≡ q
      → DaemonMove s.driver q d p
      → Intact x s.driver d
  unfolding read_finish write_finish
  DaemonMove-Intact j e (fall_asleep q h) l l' = (refl, refl)
  DaemonMove-Intact j e (stop_server q h) l l' = (refl, refl)
  DaemonMove-Intact j e interrupt l l' = (refl, refl)
  DaemonMove-Intact j e (take {a} q h) l l' =
      let (rest, queue, taken_now) = read_head-took s.driver h in rw taken_now (ground arith)
  DaemonMove-Intact j e (finish_read {a}) l l' = ground arith
  DaemonMove-Intact j e leave_read l l' = (refl, refl)
  DaemonMove-Intact j e (copy_reply {a} {bytes}) l l' = ground (arith, v.writer_linked j x)
  DaemonMove-Intact j e (fault_reply {a} {bytes} arrived h) l l' =
      ground (arith, v.writer_linked j x)
  DaemonMove-Intact j e (finish_write {a}) l l' = ground arith

  ClientMove-Intact :
      (i : ℕ) {q p : Client} {d : Driver}
      → s.client i ≡ q
      → ClientMove s.driver q d p
      → Intact x s.driver d
  unfolding uvfs_new_transaction kfree
  ClientMove-Intact i e (create a new) l l' = ground (arith, v.linked_live x)
  ClientMove-Intact i e (fill {a} request) l l' =
      ground (arith, subst (Place s.driver) e (v.place i))
  ClientMove-Intact i e (refused {a} h) l l' =
      rw (enter-refused a s.driver h) (ground (arith, subst (Place s.driver) e (v.place i)))
  ClientMove-Intact i e (queued {a} h) l l' = rw (enter-queued a s.driver h) (refl, refl)
  ClientMove-Intact i e (wake_answered {a} h) l l' = (refl, refl)
  ClientMove-Intact i e (wake_signal {a}) l l' = (refl, refl)
  ClientMove-Intact i e (check_over {a} {seen} signal h c) l l' =
      elim (check_signal-over signal a s.driver c) [
        | inl (_, unused, f) ↦
            rw f (unlink-Intact s.driver a x (v.linked_once a) l (subst (λ d. 0 < links x d) f l'))
        | inr (quiet, f) ↦ rw f (refl, refl)
      ]
  ClientMove-Intact i e (check_wait {a} {seen} signal c) l l' =
      let (used, f) = check_signal-wait signal a s.driver c in rw f (ground arith)
  ClientMove-Intact i e (wake_unused {a} h) l l' = (refl, refl)
  ClientMove-Intact i e (leave_aborted {a}) l l' = unlink-Intact s.driver a x (v.linked_once a) l l'
  ClientMove-Intact i e (free {a}) l l' = (refl, refl)

-- In every state that careful steps reach, no step, of whichever thread, changes the bytes or the serial
-- of a transaction that stands in Uvfs_requests or Uvfs_replies before and after it: what its requester
-- has filled in is what uvfsd_read copies to the server, and the serial by which uvfsd_write finds it is
-- the one that it was given.
pub request_stays_intact :
    {s t : System} (x : ℕ)
    → Reach Careful s
    → Step Careful s t
    → 0 < links x s.driver
    → 0 < links x t.driver
    → ((t.driver.heap x).u ≡ (s.driver.heap x).u)
      × ((t.driver.heap x).serial ≡ (s.driver.heap x).serial)
unfolding uvfsd_open
request_stays_intact {s} x r opens l l' = (refl, refl)
request_stays_intact {s} x r (releases pos quiet) l l' = release-Intact s.driver x pos l l'
request_stays_intact {s} x r (controls mounted cmd) l l' =
    rw (ioctl-driver mounted cmd s.driver) (refl, refl)
request_stays_intact {s} x r (serves j open_file move) l l' =
    DaemonMove-Intact s (Reach-Inv r) x j refl move l l'
request_stays_intact {s} x r (accepts j {a} reply open_file e check h careful) l l' =
    let (linked, _, f) = write_head-some (get32 reply 4) s.driver h in rw f (ground arith)
request_stays_intact {s} x r (calls i move) l l' =
    ClientMove-Intact s (Reach-Inv r) x i refl move l l'
