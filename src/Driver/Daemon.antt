-- ===== src/Driver/Daemon.antt =====
-- driver.c, the server's side: open, release, read, write and ioctl of /proc/fs/pmfs. A call that
-- drops Uvfs_lock is split into the sections that hold the lock; what happens between two sections
-- is in `Driver.System`.
use uvfs.Base.{
  ℕ, ◌+◌, ◌-◌, ◌^◌, Bool, true, false, ◌||◌, not, List, [], ◌∷◌, ◌++◌, Option, none, some, ltb,
  ◌==◌, if◌then◌else◌, update, is_negative, get32,
}
use uvfs.Base.Errno.{eio, efault, einval}
use uvfs.Driver.State.{Transaction, Driver, modify, list_del_init, set_error}

-- sizeof(uvfs_request_u), which is that of a write request of one page, and
-- sizeof(uvfs_generic_rep_s).
abbrev pub request_size : ℕ
request_size = 4156

abbrev pub header_size : ℕ
header_size = 16

unfoldable pub uvfsd_open : Driver → Driver
uvfsd_open d = record d { use_count = d.use_count + 1 }

-- What the last release does to each pending transaction.
abbrev pub fail : Transaction → Transaction
fail t = record (set_error eio t) { answered = true; woken = true }

-- One `while (!list_empty(...))` loop of the release.
unfoldable pub fail_all : List ℕ → (ℕ → Transaction) → ℕ → Transaction
fail_all [] h = h
fail_all (a ∷ l) h = fail_all l (update h a (fail (h a)))

unfoldable pub uvfsd_release : Driver → Driver
uvfsd_release d =
    let n = d.use_count - 1 in
    if n == 0
    then (record d {
      use_count = n;
      requests = [];
      replies = [];
      heap = fail_all d.replies (fail_all d.requests d.heap);
      shutting_down = false;
      serial_number = 0;
    })
    else record d { use_count = n }

-- The test of uvfsd_read before it takes the lock; `some` is an early return.
unfoldable pub read_check : ℕ → Option ℕ
read_check count = if ltb count request_size then some eio else none

-- uvfsd_read, the section from the loop's test to the unlock: the thread tells the server to shut
-- down, goes to sleep, or has moved the first request to the replies.
pub data Head : Type 0 where
  shutdown : Head
  sleep : Head
  took : ℕ → Driver → Head

unfoldable pub read_head : Driver → Head
read_head d = if d.shutting_down then shutdown else elim d.requests [
  | [] ↦ sleep
  | a ∷ rest ↦ took a (
      modify a (λ t. record t { in_use = true })
        (record d { requests = rest; replies = d.replies ++ a ∷ [] }))
]

-- uvfsd_read after the copy to the server.
unfoldable pub read_finish : ℕ → Driver → Driver
read_finish a d = modify a (λ t. record t { in_use = false; woken = t.woken || t.abort }) d

-- What uvfsd_read returns at the end. The size is read again, after the lock was dropped.
unfoldable pub read_result : Bool → ℕ → Driver → ℕ
read_result copy_failed a d = if copy_failed then eio else get32 (d.heap a).u 8

-- The tests of uvfsd_write before it takes the lock; `count` is a size_t, with which the reply's
-- `int size` is compared by sign extension. `some` is an early return.
unfoldable pub write_check : ℕ → Bool → List ℕ → Option ℕ
write_check count copy_failed reply =
    let size = get32 reply 8 in
    let wide = if is_negative size then size + (2 ^ 64 - 2 ^ 32) else size in
    if ltb count header_size
    then some eio
    else if copy_failed
    then some efault
    else if not (wide == count)
    then some einval
    else none

-- The search of Uvfs_replies for a serial.
unfoldable pub find_serial : ℕ → (ℕ → Transaction) → List ℕ → Option ℕ
find_serial serial h [] = none
find_serial serial h (a ∷ l) = if (h a).serial == serial then some a else find_serial serial h l

-- uvfsd_write, the first section; `none` is its return of -EINVAL.
unfoldable pub write_head : ℕ → Driver → Option (ℕ × Driver)
write_head serial d = elim (find_serial serial d.heap d.replies) [
  | none ↦ none
  | some a ↦ some (a, modify a (λ t. record t { in_use = true }) (list_del_init a d))
]

-- uvfsd_write after the copy from the server.
unfoldable pub write_finish : ℕ → Driver → Driver
write_finish a d = modify a (λ t. record t { in_use = false; answered = true; woken = true }) d

-- What uvfsd_write returns at the end.
unfoldable pub write_result : Bool → List ℕ → ℕ
write_result copy_failed reply = if copy_failed then eio else get32 reply 8

pub data Ioctl : Type 0 where
  stop status use_count mount : Ioctl

-- The switch on `cmd`; `use_count` stands for the default too.
unfoldable pub ioctl_of : ℕ → Ioctl
ioctl_of cmd =
    if cmd == 42 then stop else if cmd == 43 then status else if cmd == 45 then mount else use_count

-- uvfsd_ioctl, with whether a file system is mounted, which the kernel's list of superblocks says.
unfoldable pub uvfsd_ioctl : Bool → ℕ → Driver → ℕ × Driver
unfolding ioctl_of
uvfsd_ioctl mounted cmd d = elim (ioctl_of cmd) [
  | stop ↦ (0, record d { shutting_down = true })
  | status ↦ (0, d)
  | mount ↦ (if mounted then 1 else 0, d)
  | use_count ↦ (d.use_count, d)
]
