-- ===== src/Driver/Invariant/Steps.antt =====
-- Every step keeps the invariant, so every reachable state has it.
use uvfs.Base.{
  ℕ, ◌+◌, ◌-◌, ◌<◌, ◌≡◌, refl, inl, inr, Bool, true, false, [], arith, ◌==◌, count, count-nil,
  get32, Bool-cases, ◌∙◌,
}
use uvfs.Driver.State.{Transaction, Driver, links}
use uvfs.Driver.Daemon.{uvfsd_open, uvfsd_release, uvfsd_ioctl, fail_all}
use uvfs.Driver.System.{
  idle, System, Step, opens, releases, controls, serves, accepts, calls, start, Reach, here, next,
  Careful,
}
use uvfs.Driver.Invariant.Defs.{Inv, Keeps-Place}
use uvfs.Driver.Invariant.Lists.{
  fail_all-unlinked, fail_all-in_use, fail_all-answered, fail_all-linked, write_head-some,
}
use uvfs.Driver.Invariant.DaemonMoves.{DaemonMove-Inv, accept-Inv}
use uvfs.Driver.Invariant.ClientMoves.{ClientMove-Inv}

-- The heap after the last release.
abbrev pub failed : Driver → ℕ → Transaction
failed d = fail_all d.replies (fail_all d.requests d.heap)

pub failed-in_use : (d : Driver) (x : ℕ) → (failed d x).in_use ≡ (d.heap x).in_use
failed-in_use d x = fail_all-in_use x d.replies _ ∙ fail_all-in_use x d.requests d.heap

pub failed-answered :
    (d : Driver) (x : ℕ) → (d.heap x).answered ≡ true → (failed d x).answered ≡ true
failed-answered d x h = fail_all-answered x d.replies _ (fail_all-answered x d.requests d.heap h)

pub failed-linked : (d : Driver) (x : ℕ) → 0 < links x d → (failed d x).answered ≡ true
failed-linked d x h = elim (Bool-cases (count x d.replies == 0)) [
  | inl e ↦ fail_all-answered x d.replies _ (fail_all-linked x d.requests d.heap (ground arith))
  | inr e ↦ fail_all-linked x d.replies _ (ground arith)
]

pub failed-unlinked : (d : Driver) (x : ℕ) → links x d ≡ 0 → failed d x ≡ d.heap x
failed-unlinked d x h =
    fail_all-unlinked x d.replies _ (omega arith)
    ∙ fail_all-unlinked x d.requests d.heap (omega arith)

abbrev pub closed : Driver → Driver
closed d = record d {
  use_count = d.use_count - 1;
  requests = [];
  replies = [];
  heap = failed d;
  shutting_down = false;
  serial_number = 0;
}

pub uvfsd_release-last : (d : Driver) → d.use_count ≡ 1 → uvfsd_release d ≡ closed d
unfolding uvfsd_release
uvfsd_release-last d e = ground arith

closed-Inv :
    (s : System)
    → ((j : ℕ) → s.daemon j ≡ idle)
    → Inv s
    → Inv (record s { driver = closed s.driver })
closed-Inv s q v = record {
  linked_once = λ x. omega (arith, count-nil x);
  linked_live = λ x h. absurd (omega (arith, count-nil x));
  linked_open = λ x h. absurd (omega (arith, count-nil x));
  unread = λ x h. absurd (omega (arith, count-nil x));
  copy_live = λ k x c. ground (arith, q k);
  copy_used = λ k x c. ground (arith, q k);
  reader_linked = λ k x c. ground (arith, q k);
  writer_linked = λ k x c. ground (arith, q k);
  writer_open = λ k x c. ground (arith, q k);
  copy_once = λ k l x c c'. ground (arith, q k);
  owner_live = v.owner_live;
  owner_once = v.owner_once;
  place = λ i.
      Keeps-Place s.driver (closed s.driver) (s.client i)
        (λ x o. record {
          fresh = λ l u w. (
            omega (arith, count-nil x),
            failed-in_use s.driver x ∙ u,
            ground (arith, failed-unlinked s.driver x l),
          );
          answer = failed-answered s.driver x;
          unqueued = λ h. count-nil x;
          done = λ l h. (omega (arith, count-nil x), ground (arith, failed-unlinked s.driver x l));
        })
        (λ x o c u. failed-in_use s.driver x ∙ u) (v.place i);
}

-- The number of open files and the flag of the shutdown are no part of the invariant.
settings-Inv :
    (s : System) (n : ℕ) (b : Bool)
    → Inv s
    → Inv (record s { driver = record s.driver { use_count = n; shutting_down = b } })
settings-Inv s n b v = record {
  linked_once = v.linked_once;
  linked_live = v.linked_live;
  linked_open = v.linked_open;
  unread = v.unread;
  copy_live = v.copy_live;
  copy_used = v.copy_used;
  reader_linked = v.reader_linked;
  writer_linked = v.writer_linked;
  writer_open = v.writer_open;
  copy_once = v.copy_once;
  owner_live = v.owner_live;
  owner_once = v.owner_once;
  place = λ i.
      Keeps-Place s.driver (record s.driver { use_count = n; shutting_down = b }) (s.client i)
        (λ x o. ground arith) (λ x o c u. u) (v.place i);
}

release-Inv :
    (s : System)
    → 0 < s.driver.use_count
    → (s.driver.use_count ≡ 1 → (j : ℕ) → s.daemon j ≡ idle)
    → Inv s
    → Inv (record s { driver = uvfsd_release s.driver })
unfolding uvfsd_release
release-Inv s pos quiet v = elim (Bool-cases (s.driver.use_count - 1 == 0)) [
  | inl e ↦ rw e (closed-Inv s (quiet (ground arith)) v)
  | inr e ↦ rw e (settings-Inv s (s.driver.use_count - 1) s.driver.shutting_down v)
]

pub ioctl-driver :
    (mounted : Bool) (cmd : ℕ) (d : Driver)
    → (uvfsd_ioctl mounted cmd d).1
      ≡ record d { shutting_down = (uvfsd_ioctl mounted cmd d).1.shutting_down }
unfolding uvfsd_ioctl
ioctl-driver mounted cmd d = ground arith

ioctl-Inv :
    (s : System) (mounted : Bool) (cmd : ℕ)
    → Inv s
    → Inv (record s { driver = (uvfsd_ioctl mounted cmd s.driver).1 })
ioctl-Inv s mounted cmd v =
    rw (ioctl-driver mounted cmd s.driver)
      (settings-Inv s s.driver.use_count (uvfsd_ioctl mounted cmd s.driver).1.shutting_down v)

pub Step-Inv : {s t : System} → Step Careful s t → Inv s → Inv t
unfolding uvfsd_open
Step-Inv {s} opens v = settings-Inv s (s.driver.use_count + 1) s.driver.shutting_down v
Step-Inv {s} (releases pos quiet) v = release-Inv s pos quiet v
Step-Inv {s} (controls mounted cmd) v = ioctl-Inv s mounted cmd v
Step-Inv {s} (serves j open_file move) v = DaemonMove-Inv s j refl move v
Step-Inv {s} (accepts j {a} reply open_file e check h careful) v =
    let (linked, _, f) = write_head-some (get32 reply 4) s.driver h in
    rw f (accept-Inv s j a reply careful linked e v)
Step-Inv {s} (calls i move) v = ClientMove-Inv s i refl move v

start-Inv : Inv start
start-Inv = record {
  linked_once = λ x. omega (arith, count-nil x);
  linked_live = λ x h. absurd (omega (arith, count-nil x));
  linked_open = λ x h. absurd (omega (arith, count-nil x));
  unread = λ x h. absurd (omega (arith, count-nil x));
  copy_live = λ k x c. cc;
  copy_used = λ k x c. cc;
  reader_linked = λ k x c. cc;
  writer_linked = λ k x c. cc;
  writer_open = λ k x c. cc;
  copy_once = λ k l x c c'. cc;
  owner_live = λ k x c. cc;
  owner_once = λ k l x c c'. cc;
  place = λ i. tt;
}

pub Reach-Inv : {s : System} → Reach Careful s → Inv s
Reach-Inv here = start-Inv
Reach-Inv (next r st) = Step-Inv st (Reach-Inv r)
