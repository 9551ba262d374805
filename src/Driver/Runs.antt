-- ===== src/Driver/Runs.antt =====
-- Runs of the system of driver.c, for the tests: file-system thread 0 with a transaction at address 7,
-- server threads 1 and 2.
use uvfs.Base.{ℕ, ◌≢◌, refl, true, false, List, [], ◌∷◌, arith, get32}
use uvfs.Driver.Daemon.{
  uvfsd_open, read_head, read_finish, write_check, write_head, find_serial, write_finish,
}
use uvfs.Driver.Request.{uvfs_new_transaction, enter, check_signal}
use uvfs.Driver.System.{
  System, Reach, here, next, opens, serves, accepts, calls, take, finish_read, leave_read,
  copy_reply, finish_write, create, queued, wake_answered, wake_signal, check_over, check_wait,
  wake_unused, Careful, reading, aborted,
}

pub record Run (Allowed : System → ℕ → Type 0) : Type 0 where
  pub last : System
  pub reach : Reach Allowed last

-- A reply of 16 bytes: its type, the serial 0, its size, and the error 0.
abbrev pub reply : List ℕ
reply = 3 ∷ 0 ∷ 0 ∷ 0 ∷ 0 ∷ 0 ∷ 0 ∷ 0 ∷ 16 ∷ 0 ∷ 0 ∷ 0 ∷ 0 ∷ 0 ∷ 0 ∷ 0 ∷ []

module _ {Allowed : System → ℕ → Type 0} where
  unfoldable pub opened : Run Allowed
  opened = record { last = _; reach = next here opens }

  unfoldable pub fresh : Run Allowed
  unfolding opened uvfsd_open
  fresh = record { last = _; reach = next opened.reach (calls 0 (create 7 refl)) }

  unfoldable pub queueing : Run Allowed
  unfolding fresh uvfs_new_transaction enter
  queueing = record { last = _; reach = next fresh.reach (calls 0 (queued refl)) }

  unfoldable pub copying : Run Allowed
  unfolding queueing read_head
  copying = record {
    last = _;
    reach = next queueing.reach (serves 1 (omega arith) (take refl refl));
  }

  unfoldable pub copied : Run Allowed
  unfolding copying
  copied = record { last = _; reach = next copying.reach (serves 1 (omega arith) finish_read) }

  unfoldable pub delivered : Run Allowed
  unfolding copied read_finish
  delivered = record { last = _; reach = next copied.reach (serves 1 (omega arith) leave_read) }

  unfoldable pub signalled : Run Allowed
  unfolding copying
  signalled = record { last = _; reach = next copying.reach (calls 0 wake_signal) }

  unfoldable pub interrupted : Run Allowed
  unfolding signalled check_signal
  interrupted = record { last = _; reach = next signalled.reach (calls 0 (check_wait true refl)) }

  -- The copy has ended, and the thread is past its second wait.
  unfoldable pub let_go : Run Allowed
  unfolding interrupted read_finish
  let_go = record {
    last = _;
    reach =
        next
          (next (next interrupted.reach (serves 1 (omega arith) finish_read))
            (serves 1 (omega arith) leave_read))
          (calls 0 (wake_unused refl));
  }

pub careful :
    (j k : ℕ)
    → ((delivered {Allowed = Careful}).last.daemon j ≢ reading 7)
      × ((delivered {Allowed = Careful}).last.client k ≢ aborted 7)
unfolding delivered
careful j k = (λ e. ground arith, λ e. ground arith)

unfoldable pub answering : Run Careful
unfolding delivered write_check get32 write_head find_serial
answering = record {
  last = _;
  reach = next delivered.reach (
      accepts 1 reply (omega arith) refl refl refl
        (record { read = λ j. (careful j 0).0; kept = λ k. (careful 0 k).1 }));
}

unfoldable pub answered : Run Careful
unfolding answering write_finish
answered = record {
  last = _;
  reach =
      next (next answering.reach (serves 1 (omega arith) copy_reply))
        (serves 1 (omega arith) finish_write);
}

unfoldable pub returned_run : Run Careful
unfolding answered check_signal
returned_run = record {
  last = _;
  reach =
      next (next answered.reach (calls 0 (wake_answered refl)))
        (calls 0 (check_over false refl refl));
}
