-- ===== src/Driver/Request.antt =====
-- driver.c, the file system's side: uvfs_new_transaction and uvfs_make_request, split into the
-- sections that hold Uvfs_lock.
use uvfs.Base.{
  ℕ, ◌+◌, ◌%◌, Bool, true, false, [], ◌∷◌, ◌++◌, Option, none, some, ◌==◌, if◌then◌else◌, update,
  word,
}
use uvfs.Base.Errno.{eio, erestartsys}
use uvfs.Driver.State.{Driver, modify, list_del_init, set_error}

-- `kmalloc` has returned `a`, or NULL. Its memory holds what it held before, but for what is set.
unfoldable pub uvfs_new_transaction : Option ℕ → Driver → Option ℕ × Driver
uvfs_new_transaction none d = (none, d)
uvfs_new_transaction (some a) d = (
  some a,
  modify a
      (λ t. record t {
        serial = d.serial_number;
        in_use = false;
        abort = false;
        answered = false;
        woken = false;
      })
      (record d { serial_number = (d.serial_number + 1) % word; live = update d.live a true }),
)

-- The first section: `false` if no server has the driver open, and the request is refused.
unfoldable pub enter : ℕ → Driver → Bool × Driver
enter a d =
    if d.use_count == 0
    then (false, modify a (set_error eio) d)
    else (true, record d { requests = d.requests ++ a ∷ [] })

-- The end of the section after the wait, for a request that was interrupted.
unfoldable pub unlink : ℕ → Driver → Driver
unlink a d = modify a (set_error erestartsys) (list_del_init a d)

-- The section after the wait: the call is over, or waits once more, for a server thread that is
-- copying. That wait is a new one, so no wake-up has come yet.
pub data Outcome : Type 0 where
  over : Driver → Outcome
  wait : Driver → Outcome

unfoldable pub check_signal : Bool → ℕ → Driver → Outcome
unfolding unlink
check_signal signal a d =
    if signal
    then (if (d.heap a).in_use
        then wait (modify a (λ t. record t { abort = true; woken = false }) d)
        else over (unlink a d))
    else over d

-- `kfree`, by the caller of uvfs_make_request.
unfoldable pub kfree : ℕ → Driver → Driver
kfree a d = record d { live = update d.live a false }
