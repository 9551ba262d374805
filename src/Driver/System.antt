-- ===== src/Driver/System.antt =====
-- The threads that meet in driver.c, interleaved in any order: threads of the server inside its
-- calls on /proc/fs/pmfs, and threads of the file system inside an operation. A step is one section
-- that holds Uvfs_lock, or what one thread does between two such sections.
use uvfs.Base.{
  subst, sym, ℕ, ◌≤◌, ◌<◌, ◌≡◌, ◌≢◌, ◌||◌, get32, Bool, true, false, List, none, some, update,
  copy_at, length,
}
use uvfs.Driver.State.{Driver, modify, init}
use uvfs.Driver.Daemon.{
  uvfsd_open, uvfsd_release, shutdown, sleep, took, read_head, read_finish, write_head,
  write_finish, uvfsd_ioctl, write_check,
}
use uvfs.Driver.Request.{uvfs_new_transaction, enter, check_signal, over, wait, unlink, kfree}

-- Where a server thread stands: outside, asleep in uvfsd_read, copying a request to the server
-- (`reading`), before the return that reads the request's size again (`read_done`), copying a reply
-- from the server (`writing`), or with the copy done (`written`).
pub data Daemon : Type 0 where
  idle : Daemon
  sleeping : Daemon
  reading : ℕ → Daemon
  read_done : ℕ → Daemon
  writing : ℕ → List ℕ → Daemon
  written : ℕ → Daemon

-- Where a file-system thread stands: outside, with a new transaction (`created`), in the first wait
-- of uvfs_make_request (`waiting`), past it and having seen `answered` or not (`woken`), in the wait
-- for a copy to end (`aborting`), past that (`aborted`), or back in the operation (`returned`).
pub data Client : Type 0 where
  idle : Client
  created : ℕ → Client
  waiting : ℕ → Client
  woken : ℕ → Bool → Client
  aborting : ℕ → Client
  aborted : ℕ → Client
  returned : ℕ → Client

-- A thread may be at the loop's test of uvfsd_read: on entry, or woken from its sleep.
abbrev pub at_loop : Daemon → Bool
at_loop idle = true
at_loop sleeping = true
at_loop _ = false

-- What a server thread does by itself, but for the acceptance of a reply.
pub data DaemonMove (d : Driver) : Daemon → Driver → Daemon → Type 0 where
  fall_asleep : {p : Daemon} → at_loop p ≡ true → read_head d ≡ sleep → DaemonMove d p d sleeping
  stop_server : {p : Daemon} → at_loop p ≡ true → read_head d ≡ shutdown → DaemonMove d p d idle
  interrupt : DaemonMove d sleeping d idle
  take :
      {p : Daemon} {a : ℕ} {d' : Driver}
      → at_loop p ≡ true
      → read_head d ≡ took a d'
      → DaemonMove d p d' (reading a)
  finish_read : {a : ℕ} → DaemonMove d (reading a) (read_finish a d) (read_done a)
  leave_read : {a : ℕ} → DaemonMove d (read_done a) d idle
  -- copy_from_user into the transaction, of as many bytes as the reply has.
  copy_reply :
      {a : ℕ} {bytes : List ℕ}
      → DaemonMove d
          (writing a bytes)
          (modify a (λ t. record t { u = copy_at t.u 0 bytes }) d)
          (written a)
  -- The copy may fault: fewer bytes arrive, or zeros. The transaction counts as answered even so.
  fault_reply :
      {a : ℕ} {bytes : List ℕ} (arrived : List ℕ)
      → length arrived ≤ length bytes
      → DaemonMove d
          (writing a bytes)
          (modify a (λ t. record t { u = copy_at t.u 0 arrived }) d)
          (written a)
  finish_write : {a : ℕ} → DaemonMove d (written a) (write_finish a d) idle

-- uvfs_make_request from its wait on: what is left to do when the wait is over.
pub data ClientMove (d : Driver) : Client → Driver → Client → Type 0 where
  -- kmalloc gives memory that is not in use.
  create :
      (a : ℕ) → d.live a ≡ false → ClientMove d idle (uvfs_new_transaction (some a) d).1 (created a)
  -- The operation writes its request over the union.
  fill :
      {a : ℕ} (request : List ℕ)
      → ClientMove d
          (created a)
          (modify a (λ t. record t { u = copy_at t.u 0 request }) d)
          (created a)
  refused : {a : ℕ} → (enter a d).0 ≡ false → ClientMove d (created a) (enter a d).1 (returned a)
  queued : {a : ℕ} → (enter a d).0 ≡ true → ClientMove d (created a) (enter a d).1 (waiting a)
  -- wait_event_interruptible returns once it has seen `answered`, or for a signal.
  wake_answered : {a : ℕ} → (d.heap a).answered ≡ true → ClientMove d (waiting a) d (woken a true)
  wake_signal : {a : ℕ} → ClientMove d (waiting a) d (woken a false)
  -- A signal that ended the wait is still pending; one may also arrive later.
  check_over :
      {a : ℕ} {seen : Bool} (signal : Bool) {d' : Driver}
      → (seen || signal) ≡ true
      → check_signal signal a d ≡ over d'
      → ClientMove d (woken a seen) d' (returned a)
  check_wait :
      {a : ℕ} {seen : Bool} (signal : Bool) {d' : Driver}
      → check_signal signal a d ≡ wait d'
      → ClientMove d (woken a seen) d' (aborting a)
  -- wait_event reads `in_use` without the lock.
  wake_unused : {a : ℕ} → (d.heap a).in_use ≡ false → ClientMove d (aborting a) d (aborted a)
  leave_aborted : {a : ℕ} → ClientMove d (aborted a) (unlink a d) (returned a)
  free : {a : ℕ} → ClientMove d (returned a) (kfree a d) idle

pub record System : Type 0 where
  pub driver : Driver
  pub daemon : ℕ → Daemon
  pub client : ℕ → Client

-- `Allowed s a` says when a server thread may have its reply to `a` accepted. The kernel runs the
-- release of a file only when no call on it is in progress, so the last one only when all threads
-- are outside; and a call needs an open file.
pub data Step (Allowed : System → ℕ → Type 0) (s : System) : System → Type 0 where
  opens : Step Allowed s (record s { driver = uvfsd_open s.driver })
  releases :
      0 < s.driver.use_count
      → (s.driver.use_count ≡ 1 → (j : ℕ) → s.daemon j ≡ idle)
      → Step Allowed s (record s { driver = uvfsd_release s.driver })
  controls :
      (mounted : Bool) (cmd : ℕ)
      → Step Allowed s (record s { driver = (uvfsd_ioctl mounted cmd s.driver).1 })
  serves :
      (j : ℕ) {d : Driver} {p : Daemon}
      → 0 < s.driver.use_count
      → DaemonMove s.driver (s.daemon j) d p
      → Step Allowed s (record s { driver = d; daemon = update s.daemon j p })
  -- uvfsd_write from its tests to the end of its first section; `reply` has passed the tests.
  accepts :
      (j : ℕ) {a : ℕ} {d : Driver} (reply : List ℕ)
      → 0 < s.driver.use_count
      → s.daemon j ≡ idle
      → write_check (length reply) false reply ≡ none
      → write_head (get32 reply 4) s.driver ≡ some (a, d)
      → Allowed s a
      → Step Allowed s (record s { driver = d; daemon = update s.daemon j (writing a reply) })
  calls :
      (i : ℕ) {d : Driver} {p : Client}
      → ClientMove s.driver (s.client i) d p
      → Step Allowed s (record s { driver = d; client = update s.client i p })

abbrev pub start : System
start = record { driver = init; daemon = λ _. Daemon.idle; client = λ _. Client.idle }

pub data Reach (Allowed : System → ℕ → Type 0) : System → Type 0 where
  here : Reach Allowed start
  next : {s t : System} → Reach Allowed s → Step Allowed s t → Reach Allowed t

-- The code as it is: any reply may come at any time.
abbrev pub Any : System → ℕ → Type 0
Any s a = Unit

-- No reply is accepted for a request that a server thread is still reading, nor in the moment
-- between an interrupted request's second wait and the section that unlinks it.
pub record Careful (s : System) (a : ℕ) : Type 0 where
  pub read : (j : ℕ) → s.daemon j ≢ reading a
  pub kept : (i : ℕ) → s.client i ≢ aborted a

-- A step of a thread whose place is known.
pub calls_at :
    {Allowed : System → ℕ → Type 0} (s : System) (i : ℕ) {q p : Client} {d : Driver}
    → s.client i ≡ q
    → ClientMove s.driver q d p
    → Step Allowed s (record s { driver = d; client = update s.client i p })
calls_at s i {p = p} {d = d} e m = calls i (subst (λ q. ClientMove s.driver q d p) (sym e) m)
