-- ===== src/Driver/Progress/Steps.antt =====
-- Every step keeps every waiting thread attended.
use uvfs.Base.{ℕ, ◌+◌, ◌-◌, ◌≡◌, refl, inl, inr, Bool, true, arith, ◌==◌, get32, Bool-cases, ◌∙◌}
use uvfs.Driver.State.{Driver}
use uvfs.Driver.Daemon.{uvfsd_open, uvfsd_release, uvfsd_ioctl}
use uvfs.Driver.System.{
  System, Step, opens, releases, controls, serves, accepts, calls, start, Reach, here, next,
  Careful,
}
use uvfs.Driver.Invariant.{
  Inv, Reach-Inv, write_head-some, fail_all-abort, fail_all-woken, fail_all-rings, failed-linked,
  failed-in_use, failed-answered, failed, closed, ioctl-driver,
}
use uvfs.Driver.Progress.Defs.{Progress, Attends, Attends-Attended}
use uvfs.Driver.Progress.DaemonMoves.{DaemonMove-Progress, accept-Progress}
use uvfs.Driver.Progress.ClientMoves.{ClientMove-Progress}

failed-woken : (d : Driver) (x : ℕ) → (d.heap x).woken ≡ true → (failed d x).woken ≡ true
failed-woken d x h = fail_all-woken x d.replies _ (fail_all-woken x d.requests d.heap h)

failed-Attends : (d : Driver) (x : ℕ) → Attends d (closed d) x
failed-Attends d x = record {
  pending = elim [
    | inl h ↦ inl (ground (arith, failed-in_use d x, failed-answered d x))
    | inr h ↦ inl (ground (arith, failed-linked d x h))
  ];
  first = λ r. fail_all-rings x d.replies _ (fail_all-rings x d.requests d.heap r);
  asked = λ h. fail_all-abort x d.replies _ ∙ (fail_all-abort x d.requests d.heap ∙ h);
  second = λ h r u. failed-woken d x (r (ground (arith, failed-in_use d x)));
}

closed-Progress : (s : System) → Progress s → Progress (record s { driver = closed s.driver })
closed-Progress s g = record {
  busy = λ x l u. g.busy x l (ground (arith, failed-in_use s.driver x));
  attended = λ i.
      Attends-Attended s.driver (closed s.driver) (s.client i) (λ x o. failed-Attends s.driver x)
        (g.attended i);
}

settings-Progress :
    (s : System) (n : ℕ) (b : Bool)
    → Progress s
    → Progress (record s { driver = record s.driver { use_count = n; shutting_down = b } })
settings-Progress s n b g = record {
  busy = g.busy;
  attended = λ i.
      Attends-Attended s.driver (record s.driver { use_count = n; shutting_down = b }) (s.client i)
        (λ x o. ground arith) (g.attended i);
}

release-Progress :
    (s : System) → Progress s → Progress (record s { driver = uvfsd_release s.driver })
unfolding uvfsd_release
release-Progress s g = elim (Bool-cases (s.driver.use_count - 1 == 0)) [
  | inl e ↦ rw e (closed-Progress s g)
  | inr e ↦ rw e (settings-Progress s (s.driver.use_count - 1) s.driver.shutting_down g)
]

Step-Progress : {s t : System} → Step Careful s t → Inv s → Progress s → Progress t
unfolding uvfsd_open
Step-Progress {s} opens v g = settings-Progress s (s.driver.use_count + 1) s.driver.shutting_down g
Step-Progress {s} (releases pos quiet) v g = release-Progress s g
Step-Progress {s} (controls mounted cmd) v g =
    rw (ioctl-driver mounted cmd s.driver)
      (settings-Progress s s.driver.use_count (uvfsd_ioctl mounted cmd s.driver).1.shutting_down g)
Step-Progress {s} (serves j open_file move) v g = DaemonMove-Progress s j refl move v g
Step-Progress {s} (accepts j {a} reply open_file e check h careful) v g =
    let (_, _, f) = write_head-some (get32 reply 4) s.driver h in
    rw f (accept-Progress s j a reply e g)
Step-Progress {s} (calls i move) v g = ClientMove-Progress s i refl move v g

start-Progress : Progress start
start-Progress = record { busy = λ x l u. cc; attended = λ i. tt }

pub Reach-Progress : {s : System} → Reach Careful s → Progress s
Reach-Progress here = start-Progress
Reach-Progress (next r st) = Step-Progress st (Reach-Inv r) (Reach-Progress r)
