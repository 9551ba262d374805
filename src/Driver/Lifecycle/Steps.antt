-- ===== src/Driver/Lifecycle/Steps.antt =====
-- Every step of the threads together takes each transaction on in its life.
use uvfs.Base.{
  count, sym, ℕ, ◌⊎◌, false, ◌∙◌, ap, update, [], ◌∷◌, ◌++◌, ◌-◌, ◌≤◌, ◌<◌, ◌≡◌, refl, some, subst,
  inl, inr, true, arith, ◌==◌, get32, count-cons, count-nil, Bool-cases,
}
use uvfs.Driver.State.{Driver, links}
use uvfs.Driver.Daemon.{uvfsd_open, uvfsd_release, write_head}
use uvfs.Driver.System.{
  Client, created, waiting, next, Daemon, System, DaemonMove, fall_asleep, stop_server, interrupt,
  take, finish_read, leave_read, copy_reply, fault_reply, finish_write, ClientMove, create, fill,
  refused, queued, wake_answered, wake_signal, check_over, check_wait, wake_unused, leave_aborted,
  free, Step, opens, releases, controls, serves, accepts, calls, Reach, Careful,
}
use uvfs.Driver.Invariant.{
  is_writer, is_reader, in_copy, Inv, Place, Reach-Inv, read_head-took, write_head-some,
  enter-refused, enter-queued, check_signal-over, check_signal-wait, closed, failed-linked,
  failed-unlinked, ioctl-driver,
}
use uvfs.Driver.Request.{uvfs_new_transaction}
use uvfs.Driver.Progress.{Reach-Progress}
use uvfs.Driver.Lifecycle.{
  Status, absent, owned, status, goes, Creates, Queues, is_created, is_answering,
}
use uvfs.Driver.Lifecycle.Sections.{
  goes_refl, unchanged-goes, take-goes, found-goes, write_finish-goes, read_finish-goes,
  create-goes, create-status, queue-goes, queue-status, unlink-goes, kfree-goes,
}

closed-goes : (d : Driver) (x : ℕ) → links x d ≤ 1 → goes (status d x) (status (closed d) x) ≡ true
unfolding status
closed-goes d x once = elim (Bool-cases (links x d == 0)) [
  | inl e ↦ ground (arith, goes_refl (status d x), failed-unlinked d x (ground arith), count-nil x)
  | inr e ↦ ground (arith, failed-linked d x (ground arith), count-nil x)
]

release-goes :
    (d : Driver) (x : ℕ)
    → 0 < d.use_count
    → links x d ≤ 1
    → goes (status d x) (status (uvfsd_release d) x) ≡ true
unfolding uvfsd_release
release-goes d x pos once = elim (Bool-cases (d.use_count - 1 == 0)) [
  | inl e ↦ rw e (closed-goes d x once)
  | inr e ↦
      rw e (unchanged-goes d (record d { use_count = d.use_count - 1 }) x refl refl refl refl refl)
]

module _ (s : System) (v : Inv s) (x : ℕ) where
  DaemonMove-goes :
      (j : ℕ) {q p : Daemon} {d : Driver}
      → s.daemon j ≡ q
      → DaemonMove s.driver q d p
      → goes (status s.driver x) (status d x) ≡ true
  DaemonMove-goes j e (fall_asleep q h) = goes_refl _
  DaemonMove-goes j e (stop_server q h) = goes_refl _
  DaemonMove-goes j e interrupt = goes_refl _
  DaemonMove-goes j e (take {a} q h) =
      let (rest, queue, taken_now) = read_head-took s.driver h in
      rw taken_now (
        take-goes s.driver a x rest (v.linked_once a) queue
          (v.linked_live a (rw queue (ground (arith, count-cons a a rest)))))
  DaemonMove-goes j e (finish_read {a}) =
      read_finish-goes s.driver a x (ground (arith, v.reader_linked j a))
  DaemonMove-goes j e leave_read = goes_refl _
  DaemonMove-goes j e (copy_reply {a} {bytes}) =
      unchanged-goes s.driver _ x refl refl refl (ground arith) (ground arith)
  DaemonMove-goes j e (fault_reply {a} {bytes} arrived h) =
      unchanged-goes s.driver _ x refl refl refl (ground arith) (ground arith)
  DaemonMove-goes j e (finish_write {a}) =
      write_finish-goes s.driver a x (v.writer_linked j a (rw e (ground arith)))
        (v.copy_live j a (rw e (ground arith))) (v.copy_used j a (rw e (ground arith)))
        (v.writer_open j a (rw e (ground arith)))

  accept-goes :
      {a : ℕ} {d : Driver} (serial : ℕ)
      → write_head serial s.driver ≡ some (a, d)
      → goes (status s.driver x) (status d x) ≡ true
  accept-goes {a} serial h =
      let (linked, _, f) = write_head-some serial s.driver h in
      rw f (
        found-goes s.driver a x (v.linked_once a) linked (v.linked_live a (omega arith))
          (v.linked_open a (omega arith)))

  create-begins :
      (i a : ℕ)
      → links a s.driver ≡ 0
      → s.driver.live a ≡ false
      → s.client i ≡ Client.idle
      → let d = (uvfs_new_transaction (some a) s.driver).1 in
        let t = record s { driver = d; client = update s.client i (created a) } in
        (goes (status s.driver x) (status d x) ≡ true) ⊎ (Creates s t x ⊎ Queues s t x)
  create-begins i a out new e = elim (Bool-cases (a == x)) [
    | inr other ↦ inl (create-goes s.driver a x out new other)
    | inl same ↦
        let (before, after) = create-status s.driver a x out new in
        let e' : a ≡ x = ground arith in
        inr (
          inl (record {
            thread = i;
            before = subst (λ y. status s.driver y ≡ absent) e' before;
            after =
                subst (λ y. status (uvfs_new_transaction (some a) s.driver).1 y ≡ owned) e' after;
            idle_before = e;
            created_after = ground arith;
          }))
  ]

  queue-begins :
      (i a : ℕ)
      → links a s.driver ≡ 0
      → s.driver.live a ≡ true
      → (s.driver.heap a).in_use ≡ false
      → (s.driver.heap a).answered ≡ false
      → s.client i ≡ created a
      → let d = record s.driver { requests = s.driver.requests ++ a ∷ [] } in
        let t = record s { driver = d; client = update s.client i (waiting a) } in
        (goes (status s.driver x) (status d x) ≡ true) ⊎ (Creates s t x ⊎ Queues s t x)
  queue-begins i a out alive unused open_yet e = elim (Bool-cases (a == x)) [
    | inr other ↦ inl (queue-goes s.driver a x other)
    | inl same ↦
        let (before, after) = queue-status s.driver a x out alive unused open_yet in
        let e' : a ≡ x = ground arith in
        let longer = s.driver.requests ++ a ∷ [] in
        inr (
          inr (record {
            thread = i;
            before = subst (λ y. status s.driver y ≡ owned) e' before;
            after =
                subst (λ y. status (record s.driver { requests = longer }) y ≡ Status.queued) e'
                  after;
            created_before = e ∙ ap created e';
            waiting_after = ground arith;
          }))
  ]

  ClientMove-goes :
      (i : ℕ) {q p : Client} {d : Driver}
      → s.client i ≡ q
      → ClientMove s.driver q d p
      → let t = record s { driver = d; client = update s.client i p } in
        (goes (status s.driver x) (status d x) ≡ true) ⊎ (Creates s t x ⊎ Queues s t x)
  ClientMove-goes i e (create a new) =
      let out : links a s.driver ≡ 0 = ground (arith, v.linked_live a) in
      create-begins i a out new e
  ClientMove-goes i e (fill {a} request) =
      inl (unchanged-goes s.driver _ x refl refl refl (ground arith) (ground arith))
  ClientMove-goes i e (refused {a} h) = inl (
      rw (enter-refused a s.driver h)
        (unchanged-goes s.driver _ x refl refl refl (ground arith) (ground arith)))
  ClientMove-goes i e (queued {a} h) =
      let (out, unused, open_yet) = subst (Place s.driver) e (v.place i) in
      let alive = v.owner_live i a (rw e (ground arith)) in
      rw (enter-queued a s.driver h) (queue-begins i a out alive unused open_yet e)
  ClientMove-goes i e (wake_answered {a} h) = inl (goes_refl _)
  ClientMove-goes i e (wake_signal {a}) = inl (goes_refl _)
  ClientMove-goes i e (check_over {a} {seen} signal h c) =
      elim (check_signal-over signal a s.driver c) [
        | inl (_, unused, f) ↦
            inl (rw f (unlink-goes s.driver a x (v.linked_once a) unused (v.linked_open a)))
        | inr (quiet, f) ↦ inl (rw f (goes_refl _))
      ]
  ClientMove-goes i e (check_wait {a} {seen} signal c) =
      let (used, f) = check_signal-wait signal a s.driver c in
      inl (rw f (unchanged-goes s.driver _ x refl refl refl (ground arith) (ground arith)))
  ClientMove-goes i e (wake_unused {a} h) = inl (goes_refl _)
  ClientMove-goes i e (leave_aborted {a}) = inl (
      unlink-goes s.driver a x (v.linked_once a) (subst (Place s.driver) e (v.place i)).1
        (v.linked_open a))
  ClientMove-goes i e (free {a}) =
      let (out, done) = subst (Place s.driver) e (v.place i) in
      inl (kfree-goes s.driver a x out done)

moved-created :
    (x : ℕ) {d d' : Driver} {q p : Client}
    → (d.live x ≡ false → status d x ≡ absent)
    → ClientMove d q d' p
    → (is_created p x ≡ false)
      ⊎ ((is_created q x ≡ true) ⊎ ((status d x ≡ absent) × (q ≡ Client.idle)))
moved-created x {d} f (create a new) = elim (Bool-cases (a == x)) [
  | inl same ↦ inr (inr (f (subst (λ y. d.live y ≡ false) (ground arith) new), refl))
  | inr other ↦ inl other
]
moved-created x f (fill {a} request) = elim (Bool-cases (a == x)) [
  | inl same ↦ inr (inl same)
  | inr other ↦ inl other
]
moved-created x f (refused h) = inl refl
moved-created x f (queued h) = inl refl
moved-created x f (wake_answered h) = inl refl
moved-created x f wake_signal = inl refl
moved-created x f (check_over signal h c) = inl refl
moved-created x f (check_wait signal c) = inl refl
moved-created x f (wake_unused h) = inl refl
moved-created x f leave_aborted = inl refl
moved-created x f free = inl refl

not_live-status : (d : Driver) (x : ℕ) → d.live x ≡ false → status d x ≡ absent
unfolding status
not_live-status d x h = ground arith

-- A thread comes to have a created transaction from idle only.
abbrev CreatedOnce : System → ℕ → Client → ℕ → Type 0
CreatedOnce s k p x =
    (is_created p x ≡ false)
    ⊎ ((is_created (s.client k) x ≡ true)
        ⊎ ((status s.driver x ≡ absent) × (s.client k ≡ Client.idle)))

kept-CreatedOnce : (s : System) (k x : ℕ) → CreatedOnce s k (s.client k) x
kept-CreatedOnce s k x = elim (Bool-cases (is_created (s.client k) x)) [
  | inl y ↦ inr (inl y)
  | inr n ↦ inl n
]

created_once : {s t : System} (k x : ℕ) → Step Careful s t → CreatedOnce s k (t.client k) x
created_once {s} k x opens = kept-CreatedOnce s k x
created_once {s} k x (releases pos quiet) = kept-CreatedOnce s k x
created_once {s} k x (controls mounted cmd) = kept-CreatedOnce s k x
created_once {s} k x (serves j open_file move) = kept-CreatedOnce s k x
created_once {s} k x (accepts j reply open_file e check h careful) = kept-CreatedOnce s k x
created_once {s} k x (calls i {d} {p} move) = elim (Bool-cases (i == k)) [
  | inl same ↦
      let e : i ≡ k = ground arith in
      let now : update s.client i p k ≡ p = ground arith in
      rw now (rw (sym (ap s.client e)) (moved-created x (not_live-status s.driver x) move))
  | inr other ↦
      let now : update s.client i p k ≡ s.client k = ground arith in rw now (kept-CreatedOnce s k x)
]

answering_facts :
    (d : Driver) (x : ℕ)
    → is_answering (status d x) ≡ true
    → (d.live x ≡ true) × ((d.heap x).in_use ≡ true) × (count x d.replies ≡ 0)
unfolding status
answering_facts d x h = (ground arith, ground arith, ground arith)

copy_of_either :
    (p : Daemon) (x : ℕ) → in_copy p x ≡ true → (is_writer p x ≡ true) ⊎ (is_reader p x ≡ true)
copy_of_either p x h = ground arith

answering_is_copied :
    {s : System} (x : ℕ)
    → Reach Careful s
    → (is_answering (status s.driver x) ≡ false) ⊎ ((j : ℕ) × (is_writer (s.daemon j) x ≡ true))
answering_is_copied {s} x r = elim (Bool-cases (is_answering (status s.driver x))) [
  | inr n ↦ inl n
  | inl y ↦
      let (alive, used, out) = answering_facts s.driver x y in
      let (j, copy) = (Reach-Progress r).busy x alive used in
      elim (copy_of_either (s.daemon j) x copy) [
        | inl w ↦ inr (j, w)
        | inr b ↦ absurd (omega (arith, (Reach-Inv r).reader_linked j x b))
      ]
]

moves_on :
    {s t : System} (x : ℕ)
    → Reach Careful s
    → Step Careful s t
    → (goes (status s.driver x) (status t.driver x) ≡ true) ⊎ (Creates s t x ⊎ Queues s t x)
unfolding uvfsd_open
moves_on {s} x r opens = inl (unchanged-goes s.driver _ x refl refl refl refl refl)
moves_on {s} x r (releases pos quiet) =
    inl (release-goes s.driver x pos ((Reach-Inv r).linked_once x))
moves_on {s} x r (controls mounted cmd) =
    inl (
      rw (ioctl-driver mounted cmd s.driver) (unchanged-goes s.driver _ x refl refl refl refl refl))
moves_on {s} x r (serves j open_file move) = inl (DaemonMove-goes s (Reach-Inv r) x j refl move)
moves_on {s} x r (accepts j {a} reply open_file e check h careful) =
    inl (accept-goes s (Reach-Inv r) x (get32 reply 4) h)
moves_on {s} x r (calls i move) = ClientMove-goes s (Reach-Inv r) x i refl move

-- In every state that careful steps reach, each step, of whichever thread, leaves a transaction where it
-- is in its life or takes it on as `goes` says, or an idle thread creates it, or the thread that created it
-- queues it and waits from then on. A thread has a created transaction only if it had it before or was idle
-- and the transaction not allocated, so between allocation and release a transaction is queued at most
-- once. After the step, a transaction in neither list, in use and not answered is one into which a server
-- thread is copying a reply.
pub life_goes_on :
    {s t : System} (i x : ℕ)
    → Reach Careful s
    → Step Careful s t
    → ((goes (status s.driver x) (status t.driver x) ≡ true) ⊎ (Creates s t x ⊎ Queues s t x))
      × ((is_created (t.client i) x ≡ false)
          ⊎ ((is_created (s.client i) x ≡ true)
              ⊎ ((status s.driver x ≡ absent) × (s.client i ≡ Client.idle))))
      × ((is_answering (status t.driver x) ≡ false) ⊎ ((j : ℕ) × (is_writer (t.daemon j) x ≡ true)))
life_goes_on i x r move =
    (moves_on x r move, created_once i x move, answering_is_copied x (next r move))
