-- ===== src/Driver/Hazards.antt =====
-- What the sections of driver.c allow that they should not. Each theorem is about every state of the
-- kind that it names.
use uvfs.Base.{
  ℕ, ◌≤◌, ◌<◌, ◌≡◌, refl, true, false, List, none, some, arith, ◌^◌, update, get32, copy_at, length,
  get32-copy_at, length-copy_at_over, update_self,
}
use uvfs.Driver.State.{Driver, modify}
use uvfs.Driver.Daemon.{write_check, write_head, find_serial, read_result, request_size}
use uvfs.Driver.Request.{check_signal, unlink, kfree}
use uvfs.Driver.System.{
  idle, read_done, writing, Client, waiting, woken, aborted, returned, System, accepts, Reach, next,
  Any, Careful, leave_aborted, free, wake_signal, check_over, calls_at,
}
use uvfs.Driver.Invariant.{found}

-- A reply that comes between the second wait of an interrupted request and the section that unlinks
-- it is accepted, and the transaction is freed under the copy: from every state with a thread in that
-- moment, the transaction still in the replies and a server thread that answers its serial, the code
-- reaches a state where the server's thread copies into freed memory.
pub late_reply_after_free :
    {s : System} (i j a : ℕ) (reply : List ℕ)
    → Reach Any s
    → s.client i ≡ aborted a
    → s.daemon j ≡ idle
    → 0 < s.driver.use_count
    → write_check (length reply) false reply ≡ none
    → find_serial (get32 reply 4) s.driver.heap s.driver.replies ≡ some a
    → (t : System) × Reach Any t × (t.daemon j ≡ writing a reply) × (t.driver.live a ≡ false)
unfolding write_head kfree unlink
late_reply_after_free {s} i j a reply r e q pos check hit =
    let one : System = record s {
      driver = found a s.driver;
      daemon = update s.daemon j (writing a reply);
    } in
    let two : System = record one {
      driver = unlink a one.driver;
      client = update one.client i (returned a);
    } in
    (
      record two { driver = kfree a two.driver; client = update two.client i Client.idle },
      next
          (next (next r (accepts j reply pos q check (ground arith) tt))
            (calls_at one i e leave_aborted))
          (calls_at two i (update_self s.client i (returned a)) free),
      ground arith,
      ground arith,
    )

-- Also with careful replies, a server thread that has copied a request out and dropped the lock reads
-- the request's size once more, from memory that may be freed by then: an interrupted request does not
-- wait for that.
pub size_read_after_free :
    {s : System} (i j a : ℕ)
    → Reach Careful s
    → s.client i ≡ waiting a
    → s.daemon j ≡ read_done a
    → (s.driver.heap a).in_use ≡ false
    → (t : System) × Reach Careful t × (t.daemon j ≡ read_done a) × (t.driver.live a ≡ false)
unfolding check_signal kfree
size_read_after_free {s} i j a r e q unused =
    let one : System = record s { client = update s.client i (woken a false) } in
    let two : System = record one {
      driver = unlink a one.driver;
      client = update one.client i (returned a);
    } in
    (
      record two { driver = kfree a two.driver; client = update two.client i Client.idle },
      next
          (next (next r (calls_at s i e wake_signal)) (
            calls_at one i (update_self s.client i (woken a false))
              (check_over true refl (ground arith))))
          (calls_at two i (update_self one.client i (returned a)) free),
      q,
      ground arith,
    )

-- Even where the memory is not freed, that size need not be the request's: once a reply has been
-- copied into the union, uvfsd_read returns the size of the reply.
pub size_read_of_reply :
    (a : ℕ) (reply : List ℕ) (d : Driver)
    → 12 ≤ length reply
    → read_result false a (modify a (λ t. record t { u = copy_at t.u 0 reply }) d) ≡ get32 reply 8
unfolding read_result
size_read_of_reply a reply d h = ground (arith, get32-copy_at (d.heap a).u reply 8)

-- A reply of any size below 2 ^ 31 passes the tests of uvfsd_write if its header says that size. One
-- that is longer than the union is copied beyond its end.
pub oversized_reply_overruns :
    (reply u : List ℕ)
    → 16 ≤ length reply
    → length reply < 2 ^ 31
    → get32 reply 8 ≡ length reply
    → length u ≡ request_size
    → request_size < length reply
    → (write_check (length reply) false reply ≡ none) × (length u < length (copy_at u 0 reply))
unfolding write_check
oversized_reply_overruns reply u lo hi e l over_end =
    (ground arith, ground (arith, length-copy_at_over u reply))
