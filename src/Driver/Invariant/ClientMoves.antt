-- ===== src/Driver/Invariant/ClientMoves.antt =====
-- The file system's threads keep the invariant.
use uvfs.Base.{
  ℕ, ◌+◌, ◌-◌, remove, ◌≡◌, refl, subst, ◌∙◌, true, false, [], ◌∷◌, ◌++◌, arith, ◌==◌, some,
  if◌then◌else◌, update, count, count-remove, count-snoc,
}
use uvfs.Driver.State.{Driver, modify, set_error}
use uvfs.Driver.Request.{uvfs_new_transaction, unlink, kfree}
use uvfs.Driver.System.{
  Client, idle, created, waiting, woken, aborting, aborted, returned, System, ClientMove, create,
  fill, refused, queued, wake_answered, wake_signal, check_over, check_wait, wake_unused,
  leave_aborted, free,
}
use uvfs.Base.{inl, inr}
use uvfs.Base.Errno.{eio}
use uvfs.Driver.Invariant.Lists.{
  enter-refused, enter-queued, check_signal-over, check_signal-wait, aborts,
}
use uvfs.Driver.Invariant.Defs.{Inv, update-Place, Keeps-Place, Place, owns}

-- The lists and what is allocated stay, and so do the two flags of every transaction.
record Same (d d' : Driver) : Type 0 where
  requests : d'.requests ≡ d.requests
  replies : d'.replies ≡ d.replies
  live : d'.live ≡ d.live
  in_use : (x : ℕ) → (d'.heap x).in_use ≡ (d.heap x).in_use
  answered : (x : ℕ) → (d'.heap x).answered ≡ (d.heap x).answered

-- A thread goes on with its transaction `a`.
proceed-Inv :
    (s : System) (i a : ℕ) (d : Driver) (p : Client)
    → owns (s.client i) a ≡ true
    → ((x : ℕ) → owns p x ≡ (a == x))
    → Same s.driver d
    → Place s.driver p
    → Inv s
    → Inv (record s { driver = d; client = update s.client i p })
proceed-Inv s i a d p o o' w h v = record {
  linked_once = λ x. rw (w.requests, w.replies) (v.linked_once x);
  linked_live = λ x. rw (w.requests, w.replies, w.live) (v.linked_live x);
  linked_open = λ x. rw (w.requests, w.replies, w.answered) (v.linked_open x);
  unread = λ x. rw (w.requests, w.in_use) (v.unread x);
  copy_live = rw w.live v.copy_live;
  copy_used = λ k x c. w.in_use x ∙ v.copy_used k x c;
  reader_linked = rw w.replies v.reader_linked;
  writer_linked = λ k x. rw (w.requests, w.replies) (v.writer_linked k x);
  writer_open = λ k x c. w.answered x ∙ v.writer_open k x c;
  copy_once = v.copy_once;
  owner_live = λ k x c. rw w.live (ground (arith, v.owner_live k x, o' x, v.owner_live i a));
  owner_once = λ k l x c c'.
      ground (arith, v.owner_once k l x, o' x, v.owner_once i k a, v.owner_once i l a);
  place = λ k.
      Keeps-Place s.driver d (update s.client i p k)
        (λ x _. rw (w.requests, w.replies) (ground (arith, w.in_use x, w.answered x)))
        (λ x _ _. rw w.in_use (λ u. u)) (ground (arith, v.place k));
}

same : (d : Driver) → Same d d
same d = record {
  requests = refl;
  replies = refl;
  live = refl;
  in_use = λ x. refl;
  answered = λ x. refl;
}

touch : (d : Driver) (a : ℕ) → Same d (modify a (set_error eio) d)
touch d a = record {
  requests = refl;
  replies = refl;
  live = refl;
  in_use = λ x. ground arith;
  answered = λ x. ground arith;
}

create-Inv :
    (s : System) (i a : ℕ)
    → s.driver.live a ≡ false
    → s.client i ≡ idle
    → Inv s
    → Inv (record s {
      driver = (uvfs_new_transaction (some a) s.driver).1;
      client = update s.client i (created a);
    })
unfolding uvfs_new_transaction
create-Inv s i a new e v = record {
  linked_once = v.linked_once;
  linked_live = λ x l. ground (arith, v.linked_live x);
  linked_open = λ x l. ground (arith, v.linked_open x);
  unread = λ x l. ground (arith, v.unread x);
  copy_live = λ k x c. ground (arith, v.copy_live k x);
  copy_used = λ k x c. ground (arith, v.copy_used k x, v.copy_live k x);
  reader_linked = v.reader_linked;
  writer_linked = v.writer_linked;
  writer_open = λ k x c. ground (arith, v.writer_open k x, v.copy_live k x);
  copy_once = v.copy_once;
  owner_live = λ k x c. ground (arith, v.owner_live k x);
  owner_once = λ k l x c c'. ground (arith, v.owner_once k l x, v.owner_live k x, v.owner_live l x);
  place =
      update-Place (uvfs_new_transaction (some a) s.driver).1 s.client i (created a)
        (ground (arith, v.linked_live a))
        λ k ne.
          Keeps-Place s.driver (uvfs_new_transaction (some a) s.driver).1 (s.client k)
            (λ x o. ground (arith, v.owner_live k x)) (λ x o c u. ground arith) (v.place k);
}

queue-Inv :
    (s : System) (i a : ℕ)
    → s.client i ≡ created a
    → Inv s
    → Inv (record s {
      driver = record s.driver { requests = s.driver.requests ++ a ∷ [] };
      client = update s.client i (waiting a);
    })
queue-Inv s i a e v = record {
  linked_once = λ x. ground (arith, v.linked_once x, more x, mine);
  linked_live = λ x l. ground (arith, v.linked_live x, more x, v.owner_live i a);
  linked_open = λ x l. ground (arith, v.linked_open x, more x, mine);
  unread = λ x l. ground (arith, v.unread x, more x, mine);
  copy_live = v.copy_live;
  copy_used = v.copy_used;
  reader_linked = v.reader_linked;
  writer_linked = λ k x c. ground (arith, v.writer_linked k x, v.copy_used k x, more x, mine);
  writer_open = v.writer_open;
  copy_once = v.copy_once;
  owner_live = λ k x c. ground (arith, v.owner_live k x);
  owner_once = λ k l x c c'. ground (arith, v.owner_once k l x);
  place =
      update-Place (record s.driver { requests = s.driver.requests ++ a ∷ [] }) s.client i
        (waiting a) tt
        λ k ne.
          Keeps-Place s.driver (record s.driver { requests = s.driver.requests ++ a ∷ [] })
            (s.client k) (λ x o. ground (arith, v.owner_once i k x, more x)) (λ x o c u. u)
            (v.place k);
}
  where
    mine : Place s.driver (created a)
    mine = subst (Place s.driver) e (v.place i)

    more :
        (x : ℕ)
        → count x (s.driver.requests ++ a ∷ [])
          ≡ count x s.driver.requests + (if a == x then 1 else 0)
    more x = count-snoc x s.driver.requests a

free-Inv :
    (s : System) (i a : ℕ)
    → s.client i ≡ returned a
    → Inv s
    → Inv (record s { driver = kfree a s.driver; client = update s.client i idle })
unfolding kfree
free-Inv s i a e v = record {
  linked_once = v.linked_once;
  linked_live = λ x l. ground (arith, v.linked_live x, mine);
  linked_open = v.linked_open;
  unread = v.unread;
  copy_live = λ k x c.
      ground
        (arith, v.copy_live k x, v.copy_used k x, v.writer_open k x, v.reader_linked k x, mine);
  copy_used = v.copy_used;
  reader_linked = v.reader_linked;
  writer_linked = v.writer_linked;
  writer_open = v.writer_open;
  copy_once = v.copy_once;
  owner_live = λ k x c. ground (arith, v.owner_live k x, v.owner_once i k x);
  owner_once = λ k l x c c'. ground (arith, v.owner_once k l x);
  place = λ k. ground (arith, v.place k);
}
  where
    mine : Place s.driver (returned a)
    mine = subst (Place s.driver) e (v.place i)

unlink-Inv :
    (s : System) (i a : ℕ)
    → owns (s.client i) a ≡ true
    → (s.driver.heap a).in_use ≡ false
    → Inv s
    → Inv (record s { driver = unlink a s.driver; client = update s.client i (returned a) })
unfolding unlink
unlink-Inv s i a o unused v = record {
  linked_once = λ x. ground (arith, v.linked_once x, out x, out' x);
  linked_live = λ x h. ground (arith, v.linked_live x, out x, out' x);
  linked_open = λ x h. ground (arith, v.linked_open x, out x, out' x);
  unread = λ x h. ground (arith, v.unread x, out x);
  copy_live = v.copy_live;
  copy_used = λ k x h. ground (arith, v.copy_used k x);
  reader_linked = λ k x h. ground (arith, v.reader_linked k x, out' x, v.copy_used k x);
  writer_linked = λ k x h. ground (arith, v.writer_linked k x, out x, out' x);
  writer_open = λ k x h. ground (arith, v.writer_open k x);
  copy_once = v.copy_once;
  owner_live = λ k x c. ground (arith, v.owner_live k x);
  owner_once =
      λ k l x c c'. ground (arith, v.owner_once k l x, v.owner_once i k a, v.owner_once i l a);
  place =
      update-Place (unlink a s.driver) s.client i (returned a)
        (ground (arith, v.linked_once a, out a, out' a))
        λ k ne.
          Keeps-Place s.driver (unlink a s.driver) (s.client k)
            (λ x c. ground (arith, out x, out' x)) (λ x c c' u. ground arith) (v.place k);
}
  where
    out :
        (x : ℕ)
        → count x (remove a s.driver.requests)
          ≡ count x s.driver.requests - (if a == x then 1 else 0)
    out x = count-remove x a s.driver.requests

    out' :
        (x : ℕ)
        → count x (remove a s.driver.replies) ≡ count x s.driver.replies - (if a == x then 1 else 0)
    out' x = count-remove x a s.driver.replies

pub ClientMove-Inv :
    (s : System) (i : ℕ) {q p : Client} {d : Driver}
    → s.client i ≡ q
    → ClientMove s.driver q d p
    → Inv s
    → Inv (record s { driver = d; client = update s.client i p })
ClientMove-Inv s i e (create a new) v = create-Inv s i a new e v
ClientMove-Inv s i e (fill {a} request) v =
    proceed-Inv s i a _ (created a) (rw e (ground arith)) (λ x. refl)
      (record {
        requests = refl;
        replies = refl;
        live = refl;
        in_use = λ x. ground arith;
        answered = λ x. ground arith;
      })
      (ground (arith, subst (Place s.driver) e (v.place i))) v
ClientMove-Inv s i e (refused {a} h) v = rw (enter-refused a s.driver h) (
    proceed-Inv s i a (modify a (set_error eio) s.driver) (returned a) (rw e (ground arith))
      (λ x. refl) (touch s.driver a) (ground (arith, subst (Place s.driver) e (v.place i))) v)
ClientMove-Inv s i e (queued {a} h) v = rw (enter-queued a s.driver h) (queue-Inv s i a e v)
ClientMove-Inv s i e (wake_answered {a} h) v =
    proceed-Inv s i a s.driver (woken a true) (rw e (ground arith)) (λ x. refl) (same s.driver) h v
ClientMove-Inv s i e (wake_signal {a}) v =
    proceed-Inv s i a s.driver (woken a false) (rw e (ground arith)) (λ x. refl) (same s.driver) tt
      v
ClientMove-Inv s i e (check_over {a} {seen} signal h c) v =
    elim (check_signal-over signal a s.driver c) [
      | inl (_, unused, f) ↦ rw f (unlink-Inv s i a (rw e (ground arith)) unused v)
      | inr (quiet, f) ↦
          let saw : seen ≡ true = ground arith in
          let answer : Place s.driver (woken a true) =
            subst (λ b. Place s.driver (woken a b)) saw (subst (Place s.driver) e (v.place i)) in
          rw f (
            proceed-Inv s i a s.driver (returned a) (rw e (ground arith)) (λ x. refl)
              (same s.driver) (ground (arith, answer, v.linked_open a)) v)
    ]
ClientMove-Inv s i e (check_wait {a} {seen} signal c) v =
    let (used, f) = check_signal-wait signal a s.driver c in
    rw f (
      proceed-Inv s i a (aborts a s.driver) (aborting a) (rw e (ground arith)) (λ x. refl)
        (record {
          requests = refl;
          replies = refl;
          live = refl;
          in_use = λ x. ground arith;
          answered = λ x. ground arith;
        })
        (ground (arith, v.unread a)) v)
ClientMove-Inv s i e (wake_unused {a} h) v =
    proceed-Inv s i a s.driver (aborted a) (rw e (ground arith)) (λ x. refl) (same s.driver)
      (subst (Place s.driver) e (v.place i), h) v
ClientMove-Inv s i e (leave_aborted {a}) v =
    unlink-Inv s i a (rw e (ground arith)) (subst (Place s.driver) e (v.place i)).1 v
ClientMove-Inv s i e (free {a}) v = free-Inv s i a e v
