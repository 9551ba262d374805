-- ===== src/Driver/Liveness.antt =====
-- driver.c: a request can be answered.
use uvfs.Base.{
  subst, sym, ◌∙◌, ℕ, ◌+◌, ◌≤◌, ◌<◌, ◌≡◌, ◌≢◌, refl, true, false, List, [], ◌∷◌, ◌++◌, none, some,
  arith, length, update, get32, get32-copy_at, count, count-snoc, update_self,
}
use uvfs.Driver.State.{Driver, modify}
use uvfs.Driver.Daemon.{read_head, read_finish, write_check, write_head, write_finish, took}
use uvfs.Driver.Request.{check_signal}
use uvfs.Driver.System.{
  Daemon, System, Reach, next, Careful, idle, reading, read_done, writing, written, waiting, woken,
  returned, take, finish_read, leave_read, copy_reply, finish_write, wake_answered, check_over,
  serves, accepts, DaemonMove, Step, calls_at,
}
use uvfs.Driver.Invariant.{found, Reach-Inv}
use uvfs.Driver.Delivery.{reply_reaches}

-- A step of a server thread whose place is known.
serve :
    {s : System} (j : ℕ) {q p : Daemon} {d : Driver}
    → 0 < s.driver.use_count
    → s.daemon j ≡ q
    → DaemonMove s.driver q d p
    → Step Careful s (record s { driver = d; daemon = update s.daemon j p })
serve {s} j {q} {p} {d} pos e m = serves j pos (subst (λ q'. DaemonMove s.driver q' d p) (sym e) m)

-- From every state that careful steps reach, a server thread that is outside can take the first
-- request and have it answered.
taken_over :
    {s : System} (j a : ℕ) (rest : List ℕ)
    → Reach Careful s
    → 0 < s.driver.use_count
    → s.driver.shutting_down ≡ false
    → s.daemon j ≡ idle
    → s.driver.requests ≡ a ∷ rest
    → (t : System) × Reach Careful t
      × ((i : ℕ) → t.client i ≡ s.client i)
      × (t.daemon j ≡ idle)
      × (t.driver.use_count ≡ s.driver.use_count)
      × (t.driver.requests ≡ rest)
      × (t.driver.replies ≡ s.driver.replies ++ a ∷ [])
      × ((t.driver.heap a).in_use ≡ false)
      × ((x : ℕ) → (t.driver.heap x).serial ≡ (s.driver.heap x).serial)
unfolding read_head read_finish
taken_over {s} j a rest r pos up e q =
    let head : read_head s.driver
        ≡ took a (
            modify a (λ t. record t { in_use = true })
              (record s.driver { requests = rest; replies = s.driver.replies ++ a ∷ [] })) =
      rw q (ground (arith, up)) in
    let one = next r (serve j pos e (take refl head)) in
    let two = next one (serve j pos (update_self s.daemon j _) finish_read) in
    let three =
      next two
        (serve j pos (update_self (update s.daemon j (reading a)) j (read_done a)) leave_read) in
    (_, three, λ i. refl, ground arith, refl, refl, refl, ground arith, λ x. ground arith)

accept-Careful :
    {s : System} (i a : ℕ)
    → Reach Careful s
    → s.client i ≡ waiting a
    → (s.driver.heap a).in_use ≡ false
    → Careful s a
accept-Careful {s} i a r e unused =
    let v = Reach-Inv r in
    record {
      read = λ j h. absurd (ground (arith, v.copy_used j a));
      kept = λ k h. absurd (ground (arith, v.owner_once i k a));
    }

-- From every state that careful steps reach, a server thread that is outside can answer a transaction
-- that waits among the replies and is not in use, and its requester returns with the reply's words.
answered :
    {s : System} (i j a : ℕ) (reply : List ℕ)
    → Reach Careful s
    → 0 < s.driver.use_count
    → s.daemon j ≡ idle
    → s.client i ≡ waiting a
    → (s.driver.heap a).in_use ≡ false
    → write_check (length reply) false reply ≡ none
    → write_head (get32 reply 4) s.driver ≡ some (a, found a s.driver)
    → (t : System) × Reach Careful t
      × (t.client i ≡ returned a)
      × ((off : ℕ) → off + 4 ≤ length reply → get32 (t.driver.heap a).u off ≡ get32 reply off)
unfolding write_finish check_signal
answered {s} i j a reply r pos e w unused check hit =
    let one = next r (accepts j reply pos e check hit (accept-Careful i a r w unused)) in
    let two = next one (serve j pos (update_self s.daemon j (writing a reply)) copy_reply) in
    let three = next two (
      serve j pos (update_self (update s.daemon j (writing a reply)) j (written a)) finish_write) in
    let four = next three (calls_at _ i w (wake_answered (ground arith))) in
    let five =
      next four
        (calls_at _ i (update_self s.client i (woken a true)) (check_over false refl refl)) in
    (
      _,
      five,
      update_self (update s.client i (woken a true)) i (returned a),
      λ off h. ground (arith, get32-copy_at (s.driver.heap a).u reply off),
    )

-- From every state that careful steps reach, with the driver open and not shutting down, a thread whose
-- request is the first one queued, a server thread outside the driver and a reply that passes the tests
-- of uvfsd_write and has the request's serial, which no transaction among the replies has, the code can
-- go on to a state in which that thread is back from uvfs_make_request and each word that it finds in
-- its transaction is the reply's.
pub request_answered :
    {s : System} (i j a : ℕ) (rest reply : List ℕ)
    → Reach Careful s
    → 0 < s.driver.use_count
    → s.driver.shutting_down ≡ false
    → s.daemon j ≡ idle
    → s.client i ≡ waiting a
    → s.driver.requests ≡ a ∷ rest
    → write_check (length reply) false reply ≡ none
    → get32 reply 4 ≡ (s.driver.heap a).serial
    → ((x : ℕ) → 0 < count x s.driver.replies → (s.driver.heap x).serial ≢ get32 reply 4)
    → (t : System) × Reach Careful t
      × (t.client i ≡ returned a)
      × ((off : ℕ) → off + 4 ≤ length reply → get32 (t.driver.heap a).u off ≡ get32 reply off)
request_answered {s} i j a rest reply r pos up e w q check serial other =
    let (t, r', clients, quiet, open_count, queue, replies, unused, serials) =
      taken_over j a rest r pos up e q in
    answered i j a reply r' (omega (arith, open_count)) quiet (clients i ∙ w) unused check (
      reply_reaches (get32 reply 4) t.driver a
        (rw replies (ground (arith, count-snoc a s.driver.replies a))) (serials a ∙ (sym serial))
        (λ x c h.
          ground
            (arith, other x, serials x, replies, rw replies at c, count-snoc x s.driver.replies a)))
