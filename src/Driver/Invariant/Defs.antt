-- ===== src/Driver/Invariant/Defs.antt =====
-- The invariant that links the two lists, the heap and the threads.
use uvfs.Base.{
  ◌≢◌, update, Bool-cases, inl, inr, ℕ, ◌≤◌, ◌<◌, ◌≡◌, Bool, true, false, ◌||◌, not, ◌==◌, count,
  refl, arith,
}
use uvfs.Driver.State.{Driver, links}
use uvfs.Driver.System.{
  Daemon, reading, writing, written, Client, created, waiting, woken, aborting, aborted, returned,
  System,
}

-- A server thread is copying the request of `a` out.
abbrev pub is_reader : Daemon → ℕ → Bool
is_reader (reading b) a = b == a
is_reader _ a = false

-- A server thread is copying a reply into `a`, or has done so.
abbrev pub is_writer : Daemon → ℕ → Bool
is_writer (writing b bytes) a = b == a
is_writer (written b) a = b == a
is_writer _ a = false

abbrev pub in_copy : Daemon → ℕ → Bool
in_copy (reading b) a = b == a
in_copy (writing b bytes) a = b == a
in_copy (written b) a = b == a
in_copy _ a = false

-- A file-system thread has a pointer to `a` in its hands.
abbrev pub owns : Client → ℕ → Bool
owns Client.idle a = false
owns (created b) a = b == a
owns (waiting b) a = b == a
owns (woken b seen) a = b == a
owns (aborting b) a = b == a
owns (aborted b) a = b == a
owns (returned b) a = b == a

-- What a thread's place says of its transaction.
abbrev pub Place : Driver → Client → Type 0
Place d Client.idle = Unit
Place d (created a) = (links a d ≡ 0) × ((d.heap a).in_use ≡ false) × ((d.heap a).answered ≡ false)
Place d (waiting a) = Unit
Place d (woken a true) = (d.heap a).answered ≡ true
Place d (woken a false) = Unit
Place d (aborting a) = count a d.requests ≡ 0
Place d (aborted a) = (count a d.requests ≡ 0) × ((d.heap a).in_use ≡ false)
Place d (returned a) = (links a d ≡ 0) × (((d.heap a).answered || not (d.heap a).in_use) ≡ true)

pub record Inv (s : System) : Type 0 where
  pub linked_once : (a : ℕ) → links a s.driver ≤ 1
  pub linked_live : (a : ℕ) → 0 < links a s.driver → s.driver.live a ≡ true
  pub linked_open : (a : ℕ) → 0 < links a s.driver → (s.driver.heap a).answered ≡ false
  pub unread : (a : ℕ) → 0 < count a s.driver.requests → (s.driver.heap a).in_use ≡ false
  pub copy_live : (j a : ℕ) → in_copy (s.daemon j) a ≡ true → s.driver.live a ≡ true
  pub copy_used : (j a : ℕ) → in_copy (s.daemon j) a ≡ true → (s.driver.heap a).in_use ≡ true
  pub reader_linked : (j a : ℕ) → is_reader (s.daemon j) a ≡ true → count a s.driver.replies ≡ 1
  pub writer_linked : (j a : ℕ) → is_writer (s.daemon j) a ≡ true → links a s.driver ≡ 0
  pub writer_open : (j a : ℕ) → is_writer (s.daemon j) a ≡ true → (s.driver.heap a).answered ≡ false
  pub copy_once :
      (j k a : ℕ) → in_copy (s.daemon j) a ≡ true → in_copy (s.daemon k) a ≡ true → j ≡ k
  pub owner_live : (i a : ℕ) → owns (s.client i) a ≡ true → s.driver.live a ≡ true
  pub owner_once : (i k a : ℕ) → owns (s.client i) a ≡ true → owns (s.client k) a ≡ true → i ≡ k
  pub place : (i : ℕ) → Place s.driver (s.client i)

-- What a step has to keep of one transaction for its owner's place to stand.
pub record Keeps (d d' : Driver) (x : ℕ) : Type 0 where
  pub fresh :
      links x d ≡ 0
      → (d.heap x).in_use ≡ false
      → (d.heap x).answered ≡ false
      → (links x d' ≡ 0) × ((d'.heap x).in_use ≡ false) × ((d'.heap x).answered ≡ false)
  pub answer : (d.heap x).answered ≡ true → (d'.heap x).answered ≡ true
  pub unqueued : count x d.requests ≡ 0 → count x d'.requests ≡ 0
  pub done :
      links x d ≡ 0
      → ((d.heap x).answered || not (d.heap x).in_use) ≡ true
      → (links x d' ≡ 0) × (((d'.heap x).answered || not (d'.heap x).in_use) ≡ true)

pub Keeps-Place :
    (d d' : Driver) (p : Client)
    → ((x : ℕ) → owns p x ≡ true → Keeps d d' x)
    → ((x : ℕ)
        → p ≡ aborted x
        → count x d.requests ≡ 0
        → (d.heap x).in_use ≡ false
        → (d'.heap x).in_use ≡ false)
    → Place d p
    → Place d' p
Keeps-Place d d' Client.idle k u h = tt
Keeps-Place d d' (created a) k u h = (k a (ground arith)).fresh h.0 h.1 h.2
Keeps-Place d d' (waiting a) k u h = tt
Keeps-Place d d' (woken a true) k u h = (k a (ground arith)).answer h
Keeps-Place d d' (woken a false) k u h = tt
Keeps-Place d d' (aborting a) k u h = (k a (ground arith)).unqueued h
Keeps-Place d d' (aborted a) k u h = ((k a (ground arith)).unqueued h.0, u a refl h.0 h.1)
Keeps-Place d d' (returned a) k u h = (k a (ground arith)).done h.0 h.1

-- One thread goes to a new place, and each other thread's place stands.
pub update-Place :
    (d : Driver) (f : ℕ → Client) (i : ℕ) (p : Client)
    → Place d p
    → ((k : ℕ) → i ≢ k → Place d (f k))
    → (k : ℕ) → Place d (update f i p k)
update-Place d f i p h g k = elim (Bool-cases (i == k)) [
  | inl e ↦ rw e h
  | inr e ↦ rw e (g k (ground arith))
]
