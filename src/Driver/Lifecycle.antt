-- ===== src/Driver/Lifecycle.antt =====
-- driver.c: the life of one transaction, as the specification of the driver: where it stands is told by
-- the driver's state, and `goes`, `Creates` and `Queues` say from where to where one step may take it.
mod Sections
pub mod Steps
use uvfs.Base.{ℕ, ◌<◌, ◌≡◌, Bool, true, false, not, count, ltb, if◌then◌else◌, ◌==◌, arith, refl}
use uvfs.Driver.State.{Driver}
use uvfs.Driver.System.{System, Client, created, waiting}

-- Not allocated; in its operation's hands, not yet queued or taken back (`owned`); in Uvfs_requests; in
-- Uvfs_replies; in neither of them, in use and not answered (`answering`); or answered.
pub data Status : Type 0 where
  absent owned queued handed answering settled : Status

unfoldable pub status : Driver → ℕ → Status
status d x =
    if not (d.live x)
    then absent
    else if ltb 0 (count x d.requests)
    then queued
    else if ltb 0 (count x d.replies)
    then handed
    else if (d.heap x).answered
    then settled
    else if (d.heap x).in_use
    then answering
    else owned

-- What a step may do to a transaction that no thread creates or queues in it: it stays where it is, or
-- goes on from the queue to the server, to a reply's copy and to its answer; the last release answers
-- it in one of the lists; its thread takes it out of one of the lists; and it is freed in its
-- operation's hands or answered.
abbrev pub goes : Status → Status → Bool
goes absent absent = true
goes owned owned = true
goes owned absent = true
goes queued queued = true
goes queued handed = true
goes queued settled = true
goes queued owned = true
goes handed handed = true
goes handed answering = true
goes handed settled = true
goes handed owned = true
goes answering answering = true
goes answering settled = true
goes settled settled = true
goes settled absent = true
goes _ _ = false

-- An idle thread allocates the transaction.
pub record Creates (s t : System) (x : ℕ) : Type 0 where
  pub thread : ℕ
  pub before : status s.driver x ≡ absent
  pub after : status t.driver x ≡ owned
  pub idle_before : s.client thread ≡ Client.idle
  pub created_after : t.client thread ≡ created x

-- The thread that created the transaction queues it, and waits from then on.
pub record Queues (s t : System) (x : ℕ) : Type 0 where
  pub thread : ℕ
  pub before : status s.driver x ≡ owned
  pub after : status t.driver x ≡ queued
  pub created_before : s.client thread ≡ created x
  pub waiting_after : t.client thread ≡ waiting x

abbrev pub is_created : Client → ℕ → Bool
is_created (created b) a = b == a
is_created _ a = false

abbrev pub is_answering : Status → Bool
is_answering answering = true
is_answering _ = false
