-- ===== src/Driver/Invariant/DaemonMoves.antt =====
-- The server's threads keep the invariant.
use uvfs.Base.{
  refl, ℕ, ◌+◌, ◌-◌, remove, ◌<◌, ◌≡◌, true, false, List, ◌∷◌, arith, ◌==◌, if◌then◌else◌, update,
  count, count-remove, count-cons, count-snoc,
}
use uvfs.Driver.State.{Driver, links, modify}
use uvfs.Driver.Daemon.{read_finish, write_finish}
use uvfs.Driver.System.{
  Daemon, idle, reading, read_done, writing, written, DaemonMove, fall_asleep, stop_server,
  interrupt, take, finish_read, leave_read, copy_reply, fault_reply, finish_write, sleeping, System,
  at_loop, Careful,
}
use uvfs.Driver.Invariant.Defs.{Inv, Keeps-Place, in_copy, is_reader, is_writer}
use uvfs.Driver.Invariant.Lists.{read_head-took, taken, found}

take-Inv :
    (s : System) (j a : ℕ) (rest : List ℕ)
    → Inv s
    → s.driver.requests ≡ a ∷ rest
    → at_loop (s.daemon j) ≡ true
    → Inv (record s { driver = taken a rest s.driver; daemon = update s.daemon j (reading a) })
take-Inv s j a rest v e q = record {
  linked_once = λ x. ground (arith, v.linked_once x, shift x);
  linked_live = λ x h. ground (arith, v.linked_live x, shift x);
  linked_open = λ x h. ground (arith, v.linked_open x, shift x);
  unread = λ x h. ground (arith, v.unread x, v.linked_once x, shift x, old x);
  copy_live = λ k x h. ground (arith, v.copy_live k x, v.linked_live x, shift x, old x);
  copy_used = λ k x h. ground (arith, v.copy_used k x);
  reader_linked = λ k x h. ground (arith, v.reader_linked k x, v.linked_once x, shift x, old x);
  writer_linked = λ k x h. ground (arith, v.writer_linked k x, shift x, old x);
  writer_open = λ k x h. ground (arith, v.writer_open k x);
  copy_once = λ k l x h h'.
      ground (arith, v.copy_once k l x, v.copy_used k x, v.copy_used l x, v.unread x, old x);
  owner_live = v.owner_live;
  owner_once = v.owner_once;
  place = λ i.
      Keeps-Place s.driver (taken a rest s.driver) (s.client i)
        (λ x o. ground (arith, shift x, old x)) (λ x o c u. ground (arith, old x)) (v.place i);
}
  where
    old : (x : ℕ) → count x s.driver.requests ≡ (if a == x then 1 else 0) + count x rest
    old x = rw e (count-cons x a rest)

    shift : (x : ℕ) → links x (taken a rest s.driver) ≡ links x s.driver
    shift x = omega (arith, old x, count-snoc x s.driver.replies a)

-- A thread that lets go of the driver without a trace.
retire-Inv :
    (s : System) (j : ℕ) (p : Daemon)
    → ((x : ℕ) → in_copy p x ≡ false)
    → ((x : ℕ) → is_reader p x ≡ false)
    → ((x : ℕ) → is_writer p x ≡ false)
    → Inv s
    → Inv (record s { daemon = update s.daemon j p })
retire-Inv s j p c r w v = record {
  linked_once = v.linked_once;
  linked_live = v.linked_live;
  linked_open = v.linked_open;
  unread = v.unread;
  copy_live = λ k x h. ground (arith, v.copy_live k x, c x);
  copy_used = λ k x h. ground (arith, v.copy_used k x, c x);
  reader_linked = λ k x h. ground (arith, v.reader_linked k x, r x);
  writer_linked = λ k x h. ground (arith, v.writer_linked k x, w x);
  writer_open = λ k x h. ground (arith, v.writer_open k x, w x);
  copy_once = λ k l x h h'. ground (arith, v.copy_once k l x, c x);
  owner_live = v.owner_live;
  owner_once = v.owner_once;
  place = v.place;
}

finish_read-Inv :
    (s : System) (j a : ℕ)
    → s.daemon j ≡ reading a
    → Inv s
    → Inv (record s { driver = read_finish a s.driver; daemon = update s.daemon j (read_done a) })
unfolding read_finish
finish_read-Inv s j a e v = record {
  linked_once = v.linked_once;
  linked_live = v.linked_live;
  linked_open = λ x h. ground (arith, v.linked_open x);
  unread = λ x h. ground (arith, v.unread x);
  copy_live = λ k x h. ground (arith, v.copy_live k x);
  copy_used = λ k x h. ground (arith, v.copy_used k x, v.copy_once j k x);
  reader_linked = λ k x h. ground (arith, v.reader_linked k x);
  writer_linked = λ k x h. ground (arith, v.writer_linked k x);
  writer_open = λ k x h. ground (arith, v.writer_open k x);
  copy_once = λ k l x h h'. ground (arith, v.copy_once k l x);
  owner_live = v.owner_live;
  owner_once = v.owner_once;
  place = λ i.
      Keeps-Place s.driver (read_finish a s.driver) (s.client i) (λ x o. ground arith)
        (λ x o c u. ground arith) (v.place i);
}

-- `w` is what the union holds after the copy.
copy-Inv :
    (s : System) (j a : ℕ) (bytes w : List ℕ)
    → s.daemon j ≡ writing a bytes
    → Inv s
    → Inv (record s {
      driver = modify a (λ t. record t { u = w }) s.driver;
      daemon = update s.daemon j (written a);
    })
copy-Inv s j a bytes w e v = record {
  linked_once = v.linked_once;
  linked_live = v.linked_live;
  linked_open = λ x h. ground (arith, v.linked_open x);
  unread = λ x h. ground (arith, v.unread x);
  copy_live = λ k x h. ground (arith, v.copy_live k x);
  copy_used = λ k x h. ground (arith, v.copy_used k x);
  reader_linked = λ k x h. ground (arith, v.reader_linked k x);
  writer_linked = λ k x h. ground (arith, v.writer_linked k x);
  writer_open = λ k x h. ground (arith, v.writer_open k x);
  copy_once = λ k l x h h'. ground (arith, v.copy_once k l x);
  owner_live = v.owner_live;
  owner_once = v.owner_once;
  place = λ i.
      Keeps-Place s.driver (modify a (λ t. record t { u = w }) s.driver) (s.client i)
        (λ x o. ground arith) (λ x o c u. ground arith) (v.place i);
}

finish_write-Inv :
    (s : System) (j a : ℕ)
    → s.daemon j ≡ written a
    → Inv s
    → Inv (record s { driver = write_finish a s.driver; daemon = update s.daemon j idle })
unfolding write_finish
finish_write-Inv s j a e v = record {
  linked_once = v.linked_once;
  linked_live = v.linked_live;
  linked_open = λ x h. ground (arith, v.linked_open x, v.writer_linked j x);
  unread = λ x h. ground (arith, v.unread x);
  copy_live = λ k x h. ground (arith, v.copy_live k x);
  copy_used = λ k x h. ground (arith, v.copy_used k x, v.copy_once j k x);
  reader_linked = λ k x h. ground (arith, v.reader_linked k x);
  writer_linked = λ k x h. ground (arith, v.writer_linked k x);
  writer_open = λ k x h. ground (arith, v.writer_open k x, v.copy_once j k x);
  copy_once = λ k l x h h'. ground (arith, v.copy_once k l x);
  owner_live = v.owner_live;
  owner_once = v.owner_once;
  place = λ i.
      Keeps-Place s.driver (write_finish a s.driver) (s.client i)
        (λ x o. ground (arith, v.copy_used j x)) (λ x o c u. ground arith) (v.place i);
}

pub accept-Inv :
    (s : System) (j a : ℕ) (reply : List ℕ)
    → Careful s a
    → 0 < count a s.driver.replies
    → s.daemon j ≡ idle
    → Inv s
    → Inv (record s { driver = found a s.driver; daemon = update s.daemon j (writing a reply) })
accept-Inv s j a reply careful linked e v = record {
  linked_once = λ x. ground (arith, v.linked_once x, out x, out' x);
  linked_live = λ x h. ground (arith, v.linked_live x, out x, out' x);
  linked_open = λ x h. ground (arith, v.linked_open x, out x, out' x);
  unread = λ x h. ground (arith, v.unread x, v.linked_once x, out x);
  copy_live = λ k x h. ground (arith, v.copy_live k x, v.linked_live x);
  copy_used = λ k x h. ground (arith, v.copy_used k x);
  reader_linked = λ k x h. ground (arith, v.reader_linked k x, out' x, unread_now k);
  writer_linked = λ k x h. ground (arith, v.writer_linked k x, v.linked_once x, out x, out' x);
  writer_open = λ k x h. ground (arith, v.writer_open k x, v.linked_open x);
  copy_once = λ k l x h h'. ground (arith, v.copy_once k l x, uncopied k, uncopied l);
  owner_live = v.owner_live;
  owner_once = v.owner_once;
  place = λ i.
      Keeps-Place s.driver (found a s.driver) (s.client i) (λ x o. ground (arith, out x, out' x))
        (λ x o c u. ground (arith, careful.kept i)) (v.place i);
}
  where
    out :
        (x : ℕ)
        → count x (remove a s.driver.requests)
          ≡ count x s.driver.requests - (if a == x then 1 else 0)
    out x = count-remove x a s.driver.requests

    out' :
        (x : ℕ)
        → count x (remove a s.driver.replies) ≡ count x s.driver.replies - (if a == x then 1 else 0)
    out' x = count-remove x a s.driver.replies

    uncopied : (k : ℕ) → in_copy (s.daemon k) a ≡ false
    uncopied k = ground (arith, careful.read k, v.writer_linked k a)

    unread_now : (k : ℕ) → is_reader (s.daemon k) a ≡ false
    unread_now k = ground (arith, careful.read k)

pub DaemonMove-Inv :
    (s : System) (j : ℕ) {q p : Daemon} {d : Driver}
    → s.daemon j ≡ q
    → DaemonMove s.driver q d p
    → Inv s
    → Inv (record s { driver = d; daemon = update s.daemon j p })
DaemonMove-Inv s j e (fall_asleep q h) v =
    retire-Inv s j sleeping (λ x. refl) (λ x. refl) (λ x. refl) v
DaemonMove-Inv s j e (stop_server q h) v = retire-Inv s j idle (λ x. refl) (λ x. refl) (λ x. refl) v
DaemonMove-Inv s j e interrupt v = retire-Inv s j idle (λ x. refl) (λ x. refl) (λ x. refl) v
DaemonMove-Inv s j e (take {a} q h) v =
    let (rest, queue, taken_now) = read_head-took s.driver h in
    rw taken_now (take-Inv s j a rest v queue (rw e q))
DaemonMove-Inv s j e (finish_read {a}) v = finish_read-Inv s j a e v
DaemonMove-Inv s j e leave_read v = retire-Inv s j idle (λ x. refl) (λ x. refl) (λ x. refl) v
DaemonMove-Inv s j e (copy_reply {a} {bytes}) v = copy-Inv s j a bytes _ e v
DaemonMove-Inv s j e (fault_reply {a} {bytes} arrived h) v = copy-Inv s j a bytes _ e v
DaemonMove-Inv s j e (finish_write {a}) v = finish_write-Inv s j a e v
