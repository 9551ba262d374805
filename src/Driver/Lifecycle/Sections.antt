-- ===== src/Driver/Lifecycle/Sections.antt =====
-- Each section of driver.c takes a transaction on in its life, or leaves it where it is.
use uvfs.Base.{
  ℕ, ◌≤◌, ◌<◌, ◌≡◌, true, false, ◌||◌, not, ◌==◌, List, [], ◌∷◌, ◌++◌, some, arith, count,
  count-cons, count-snoc, count-remove, ap,
}
use uvfs.Driver.State.{Driver, links}
use uvfs.Driver.Daemon.{read_finish, write_finish}
use uvfs.Driver.Request.{uvfs_new_transaction, unlink, kfree}
use uvfs.Driver.Invariant.{taken, found}
use uvfs.Driver.Lifecycle.{Status, absent, owned, queued, status, goes}

pub goes_refl : (p : Status) → goes p p ≡ true
goes_refl p = ground arith

-- What a transaction's status hangs on.
pub unchanged-goes :
    (d d' : Driver) (x : ℕ)
    → d'.live x ≡ d.live x
    → count x d'.requests ≡ count x d.requests
    → count x d'.replies ≡ count x d.replies
    → (d'.heap x).answered ≡ (d.heap x).answered
    → (d'.heap x).in_use ≡ (d.heap x).in_use
    → goes (status d x) (status d' x) ≡ true
unfolding status
unchanged-goes d d' x l q p a u = ground (arith, goes_refl (status d x))

module _ (d : Driver) (a x : ℕ) where
  pub take-goes :
      (rest : List ℕ)
      → links a d ≤ 1
      → d.requests ≡ a ∷ rest
      → d.live a ≡ true
      → goes (status d x) (status (taken a rest d) x) ≡ true
  unfolding status
  take-goes rest once e alive = ground (
    arith,
    goes_refl (status d x),
    ap (count x) e,
    ap (count a) e,
    count-cons x a rest,
    count-cons a a rest,
    count-snoc x d.replies a,
  )

  pub found-goes :
      links a d ≤ 1
      → 0 < count a d.replies
      → d.live a ≡ true
      → (d.heap a).answered ≡ false
      → goes (status d x) (status (found a d) x) ≡ true
  unfolding status
  found-goes once linked alive open_yet =
      ground
        (arith, goes_refl (status d x), count-remove x a d.requests, count-remove x a d.replies)

  pub write_finish-goes :
      links a d ≡ 0
      → d.live a ≡ true
      → (d.heap a).in_use ≡ true
      → (d.heap a).answered ≡ false
      → goes (status d x) (status (write_finish a d) x) ≡ true
  unfolding status write_finish
  write_finish-goes out alive used open_yet = ground (arith, goes_refl (status d x))

  pub read_finish-goes : 0 < links a d → goes (status d x) (status (read_finish a d) x) ≡ true
  unfolding status read_finish
  read_finish-goes linked = ground (arith, goes_refl (status d x))

  pub create-goes :
      links a d ≡ 0
      → d.live a ≡ false
      → (a == x) ≡ false
      → goes (status d x) (status (uvfs_new_transaction (some a) d).1 x) ≡ true
  unfolding status uvfs_new_transaction
  create-goes out new other = ground (arith, goes_refl (status d x))

  pub queue-goes :
      (a == x) ≡ false
      → goes (status d x) (status (record d { requests = d.requests ++ a ∷ [] }) x) ≡ true
  unfolding status
  queue-goes other = ground (arith, goes_refl (status d x), count-snoc x d.requests a)

  pub create-status :
      links a d ≡ 0
      → d.live a ≡ false
      → (status d a ≡ absent) × (status (uvfs_new_transaction (some a) d).1 a ≡ owned)
  unfolding status uvfs_new_transaction
  create-status out new = (ground arith, ground arith)

  pub queue-status :
      links a d ≡ 0
      → d.live a ≡ true
      → (d.heap a).in_use ≡ false
      → (d.heap a).answered ≡ false
      → (status d a ≡ owned) × (status (record d { requests = d.requests ++ a ∷ [] }) a ≡ queued)
  unfolding status
  queue-status out alive unused open_yet = (ground arith, ground (arith, count-snoc a d.requests a))

  pub unlink-goes :
      links a d ≤ 1
      → (d.heap a).in_use ≡ false
      → (0 < links a d → (d.heap a).answered ≡ false)
      → goes (status d x) (status (unlink a d) x) ≡ true
  unfolding status unlink
  unlink-goes once unused open_yet =
      ground
        (arith, goes_refl (status d x), count-remove x a d.requests, count-remove x a d.replies)

  pub kfree-goes :
      links a d ≡ 0
      → ((d.heap a).answered || not (d.heap a).in_use) ≡ true
      → goes (status d x) (status (kfree a d) x) ≡ true
  unfolding status kfree
  kfree-goes out done = ground (arith, goes_refl (status d x))
