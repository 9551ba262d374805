-- ===== src/Driver/Progress/DaemonMoves.antt =====
-- The server's threads keep every waiting thread attended.
use uvfs.Base.{
  ℕ, ◌+◌, ◌≡◌, true, false, List, ◌∷◌, arith, ◌==◌, if◌then◌else◌, update, count, count-remove,
  count-cons, count-snoc, inr,
}
use uvfs.Driver.State.{Driver, modify}
use uvfs.Driver.Daemon.{read_finish, write_finish}
use uvfs.Driver.System.{
  Daemon, idle, sleeping, reading, read_done, writing, written, System, at_loop, DaemonMove,
  fall_asleep, stop_server, interrupt, take, finish_read, leave_read, copy_reply, fault_reply,
  finish_write,
}
use uvfs.Driver.Invariant.{Inv, in_copy, taken, found, read_head-took}
use uvfs.Driver.Progress.Defs.{Progress, Busy-update, Attends-Attended}

take-Progress :
    (s : System) (j a : ℕ) (rest : List ℕ)
    → s.driver.requests ≡ a ∷ rest
    → at_loop (s.daemon j) ≡ true
    → Progress s
    → Progress (record s { driver = taken a rest s.driver; daemon = update s.daemon j (reading a) })
take-Progress s j a rest e q g = record {
  busy =
      Busy-update s.driver (taken a rest s.driver) s.daemon j (reading a) g.busy
        λ x l u. ground arith;
  attended = λ i.
      Attends-Attended s.driver (taken a rest s.driver) (s.client i)
        (λ x o. ground (arith, old x, count-snoc x s.driver.replies a)) (g.attended i);
}
  where
    old : (x : ℕ) → count x s.driver.requests ≡ (if a == x then 1 else 0) + count x rest
    old x = rw e (count-cons x a rest)

-- The driver stays, and the thread holds no transaction before or after.
retire-Progress :
    (s : System) (j : ℕ) (p : Daemon)
    → ((x : ℕ) → in_copy (s.daemon j) x ≡ false)
    → Progress s
    → Progress (record s { daemon = update s.daemon j p })
retire-Progress s j p c g = record {
  busy = Busy-update s.driver s.driver s.daemon j p g.busy λ x l u. inr (l, u, c x);
  attended = g.attended;
}

finish_read-Progress :
    (s : System) (j a : ℕ)
    → s.daemon j ≡ reading a
    → Inv s
    → Progress s
    → Progress
        (record s { driver = read_finish a s.driver; daemon = update s.daemon j (read_done a) })
unfolding read_finish
finish_read-Progress s j a e v g = record {
  busy =
      Busy-update s.driver (read_finish a s.driver) s.daemon j (read_done a) g.busy
        λ x l u. ground arith;
  attended = λ i.
      Attends-Attended s.driver (read_finish a s.driver) (s.client i)
        (λ x o. ground (arith, v.reader_linked j x)) (g.attended i);
}

copy-Progress :
    (s : System) (j a : ℕ) (bytes w : List ℕ)
    → s.daemon j ≡ writing a bytes
    → Progress s
    → Progress (record s {
      driver = modify a (λ t. record t { u = w }) s.driver;
      daemon = update s.daemon j (written a);
    })
copy-Progress s j a bytes w e g = record {
  busy =
      Busy-update s.driver (modify a (λ t. record t { u = w }) s.driver) s.daemon j (written a)
        g.busy λ x l u. ground arith;
  attended = λ i.
      Attends-Attended s.driver (modify a (λ t. record t { u = w }) s.driver) (s.client i)
        (λ x o. ground arith) (g.attended i);
}

finish_write-Progress :
    (s : System) (j a : ℕ)
    → s.daemon j ≡ written a
    → Progress s
    → Progress (record s { driver = write_finish a s.driver; daemon = update s.daemon j idle })
unfolding write_finish
finish_write-Progress s j a e g = record {
  busy =
      Busy-update s.driver (write_finish a s.driver) s.daemon j idle g.busy λ x l u. ground arith;
  attended = λ i.
      Attends-Attended s.driver (write_finish a s.driver) (s.client i) (λ x o. ground arith)
        (g.attended i);
}

pub accept-Progress :
    (s : System) (j a : ℕ) (reply : List ℕ)
    → s.daemon j ≡ idle
    → Progress s
    → Progress
        (record s { driver = found a s.driver; daemon = update s.daemon j (writing a reply) })
accept-Progress s j a reply e g = record {
  busy =
      Busy-update s.driver (found a s.driver) s.daemon j (writing a reply) g.busy
        λ x l u. ground arith;
  attended = λ i.
      Attends-Attended s.driver (found a s.driver) (s.client i)
        (λ x o.
          ground (arith, count-remove x a s.driver.requests, count-remove x a s.driver.replies))
        (g.attended i);
}

pub DaemonMove-Progress :
    (s : System) (j : ℕ) {q p : Daemon} {d : Driver}
    → s.daemon j ≡ q
    → DaemonMove s.driver q d p
    → Inv s
    → Progress s
    → Progress (record s { driver = d; daemon = update s.daemon j p })
DaemonMove-Progress s j e (fall_asleep q h) v g = retire-Progress s j sleeping (λ x. ground arith) g
DaemonMove-Progress s j e (stop_server q h) v g = retire-Progress s j idle (λ x. ground arith) g
DaemonMove-Progress s j e interrupt v g = retire-Progress s j idle (λ x. ground arith) g
DaemonMove-Progress s j e (take {a} q h) v g =
    let (rest, queue, taken_now) = read_head-took s.driver h in
    rw taken_now (take-Progress s j a rest queue (rw e q) g)
DaemonMove-Progress s j e (finish_read {a}) v g = finish_read-Progress s j a e v g
DaemonMove-Progress s j e leave_read v g = retire-Progress s j idle (λ x. ground arith) g
DaemonMove-Progress s j e (copy_reply {a} {bytes}) v g = copy-Progress s j a bytes _ e g
DaemonMove-Progress s j e (fault_reply {a} {bytes} arrived h) v g = copy-Progress s j a bytes _ e g
DaemonMove-Progress s j e (finish_write {a}) v g = finish_write-Progress s j a e g
