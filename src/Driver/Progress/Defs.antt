-- ===== src/Driver/Progress/Defs.antt =====
-- What keeps a waiting file-system thread from waiting for ever: its request is somewhere, and its
-- wake-up is not lost.
use uvfs.Base.{ℕ, ◌<◌, ◌≡◌, ◌≢◌, ◌⊎◌, inl, inr, true, false, ◌||◌, arith, ◌==◌, update, Bool-cases}
use uvfs.Driver.State.{Driver, links}
use uvfs.Driver.System.{
  Daemon, Client, created, waiting, woken, aborting, aborted, returned, System,
}
use uvfs.Driver.Invariant.{in_copy, owns}

-- A transaction that is marked in use is in the hands of a server thread.
abbrev pub Busy : Driver → (ℕ → Daemon) → Type 0
Busy d f = (a : ℕ) → d.live a ≡ true → (d.heap a).in_use ≡ true → (j : ℕ) × (in_copy (f j) a ≡ true)

pub Busy-update :
    (d d' : Driver) (f : ℕ → Daemon) (j : ℕ) (p : Daemon)
    → Busy d f
    → ((x : ℕ)
        → d'.live x ≡ true
        → (d'.heap x).in_use ≡ true
        → (in_copy p x ≡ true)
          ⊎ ((d.live x ≡ true) × ((d.heap x).in_use ≡ true) × (in_copy (f j) x ≡ false)))
    → Busy d' (update f j p)
Busy-update d d' f j p b g x l u = elim (g x l u) [
  | inl c ↦ (j, ground arith)
  | inr (l', u', c) ↦ let (k, h) = b x l' u' in (k, ground arith)
]

-- Answered, in a server thread's hands, or in one of the two lists.
abbrev pub Pending : Driver → ℕ → Type 0
Pending d a = (((d.heap a).answered || (d.heap a).in_use) ≡ true) ⊎ (0 < links a d)

-- In the first wait a thread's request is pending, and if its condition holds it was woken up. In
-- the second wait the same is said of that wait's condition.
abbrev pub Attended : Driver → Client → Type 0
Attended d (waiting a) = Pending d a × ((d.heap a).answered ≡ true → (d.heap a).woken ≡ true)
Attended d (aborting a) =
    ((d.heap a).abort ≡ true) × ((d.heap a).in_use ≡ false → (d.heap a).woken ≡ true)
Attended d _ = Unit

pub record Progress (s : System) : Type 0 where
  pub busy : Busy s.driver s.daemon
  pub attended : (i : ℕ) → Attended s.driver (s.client i)

-- What a step has to keep of one transaction for its owner to stay attended.
pub record Attends (d d' : Driver) (x : ℕ) : Type 0 where
  pub pending : Pending d x → Pending d' x
  pub first :
      ((d.heap x).answered ≡ true → (d.heap x).woken ≡ true)
      → (d'.heap x).answered ≡ true
      → (d'.heap x).woken ≡ true
  pub asked : (d.heap x).abort ≡ true → (d'.heap x).abort ≡ true
  pub second :
      (d.heap x).abort ≡ true
      → ((d.heap x).in_use ≡ false → (d.heap x).woken ≡ true)
      → (d'.heap x).in_use ≡ false
      → (d'.heap x).woken ≡ true

pub Attends-Attended :
    (d d' : Driver) (p : Client)
    → ((x : ℕ) → owns p x ≡ true → Attends d d' x)
    → Attended d p
    → Attended d' p
Attends-Attended d d' Client.idle k h = tt
Attends-Attended d d' (created a) k h = tt
Attends-Attended d d' (waiting a) k h =
    ((k a (ground arith)).pending h.0, (k a (ground arith)).first h.1)
Attends-Attended d d' (woken a seen) k h = tt
Attends-Attended d d' (aborting a) k h =
    ((k a (ground arith)).asked h.0, (k a (ground arith)).second h.0 h.1)
Attends-Attended d d' (aborted a) k h = tt
Attends-Attended d d' (returned a) k h = tt

pub update-Attended :
    (d : Driver) (f : ℕ → Client) (i : ℕ) (p : Client)
    → Attended d p
    → ((k : ℕ) → i ≢ k → Attended d (f k))
    → (k : ℕ) → Attended d (update f i p k)
update-Attended d f i p h g k = elim (Bool-cases (i == k)) [
  | inl e ↦ rw e h
  | inr e ↦ rw e (g k (ground arith))
]
