-- ===== src/Driver/Serials.antt =====
-- driver.c: the serial numbers by which the server's replies find their transactions.
use uvfs.Base.{
  ℕ, ◌+◌, ◌%◌, ◌<◌, ◌≡◌, ◌≢◌, refl, ◌∙◌, false, List, [], ◌∷◌, some, arith, word, update, count,
  length, count-cons,
}
use uvfs.Driver.State.{Driver}
use uvfs.Driver.Daemon.{uvfsd_open}
use uvfs.Driver.Request.{uvfs_new_transaction}
use uvfs.Driver.System.{
  idle, Client, created, System, opens, releases, Reach, next, Careful, create, calls_at,
}
use uvfs.Driver.Invariant.{Reach-Inv, uvfsd_release-last, fail_all-serial, closed, failed}

-- Transactions created one after the other, with no release in between.
unfoldable pub create_all : List ℕ → Driver → Driver
create_all [] d = d
create_all (a ∷ l) d = create_all l (uvfs_new_transaction (some a) d).1

create_all-serial_number :
    (l : List ℕ) (d : Driver)
    → d.serial_number < word
    → (create_all l d).serial_number ≡ (d.serial_number + length l) % word
unfolding create_all uvfs_new_transaction
create_all-serial_number [] d h = omega arith
create_all-serial_number (a ∷ l) d h =
    create_all-serial_number l (uvfs_new_transaction (some a) d).1 (omega arith) ∙ (omega arith)

create_all-other :
    (x : ℕ) (l : List ℕ) (d : Driver)
    → count x l ≡ 0
    → ((create_all l d).heap x).serial ≡ (d.heap x).serial
unfolding create_all uvfs_new_transaction
create_all-other x [] d h = refl
create_all-other x (a ∷ l) d h =
    create_all-other x l (uvfs_new_transaction (some a) d).1 (ground (arith, count-cons x a l))
    ∙ (ground (arith, count-cons x a l))

-- Two transactions get different serials, if fewer than 2 ^ 32 - 1 others are created between them, the
-- first of them is not freed and allocated again there, and the driver is not released for the last
-- time.
pub serials_differ :
    (d : Driver) (a b : ℕ) (between : List ℕ)
    → d.serial_number < word
    → length between + 1 < word
    → count a between ≡ 0
    → a ≢ b
    → let d' =
        (uvfs_new_transaction
          (some b)
          (create_all between (uvfs_new_transaction (some a) d).1)).1 in
      (d'.heap a).serial ≢ (d'.heap b).serial
unfolding uvfs_new_transaction
serials_differ d a b between h l c ne = ground (
  arith,
  create_all-other a between (uvfs_new_transaction (some a) d).1 c,
  create_all-serial_number between (uvfs_new_transaction (some a) d).1,
)

failed-serial : (d : Driver) (x : ℕ) → (failed d x).serial ≡ (d.heap x).serial
failed-serial d x = fail_all-serial x d.replies _ ∙ fail_all-serial x d.requests d.heap

-- The last release starts the serials again from 0 while a file-system thread may hold a new
-- transaction that it has not queued yet. If that one has serial 0, then from there, with the driver
-- opened again, another thread's next transaction gets serial 0 too: the code reaches a state in which
-- both threads are about to queue different transactions with one serial.
pub release_repeats_serial :
    {s : System} (i k a b : ℕ)
    → Reach Careful s
    → s.client i ≡ created a
    → (s.driver.heap a).serial ≡ 0
    → s.driver.use_count ≡ 1
    → ((j : ℕ) → s.daemon j ≡ idle)
    → s.client k ≡ Client.idle
    → s.driver.live b ≡ false
    → (t : System) × Reach Careful t
      × (t.client i ≡ created a)
      × (t.client k ≡ created b)
      × (a ≢ b)
      × (0 < t.driver.use_count)
      × ((t.driver.heap a).serial ≡ (t.driver.heap b).serial)
unfolding uvfsd_open uvfs_new_transaction
release_repeats_serial {s} i k a b r e zero_serial once quiet f new =
    let one : System = record s { driver = uvfsd_open (closed s.driver) } in
    let two : System = record one {
      driver = (uvfs_new_transaction (some b) one.driver).1;
      client = update one.client k (created b);
    } in
    let released : Reach Careful (record s { driver = closed s.driver }) =
      rw (uvfsd_release-last s.driver once) at (next r (releases (ground arith) (λ _. quiet))) in
    let ne : a ≢ b = λ eq. ground (arith, (Reach-Inv r).owner_live i a) in
    (
      two,
      next (next released opens) (calls_at one k f (create b new)),
      ground arith,
      ground arith,
      ne,
      omega arith,
      ground (arith, failed-serial s.driver a),
    )
