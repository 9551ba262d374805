-- ===== src/Driver/Tests/Life.antt =====
-- The life of a transaction, on the runs of Driver/Runs.antt.
use uvfs.Base.{ℕ, ◌⊎◌, ◌≡◌, refl, true, false, arith, count, remove}
use uvfs.Driver.System.{Client, serves, take, calls, queued, Careful}
use uvfs.Driver.Runs.{fresh, queueing, copying, answered}
use uvfs.Driver.Invariant.{is_writer}
use uvfs.Driver.Lifecycle.{
  Status, absent, handed, settled, status, goes, Creates, Queues, is_created, is_answering,
}
use uvfs.Driver.Lifecycle.Steps.{life_goes_on}
use uvfs.Driver.Integrity.{request_stays_intact}

-- The step that queues the request.
life_goes_on_example :
    let s = (fresh {Allowed = Careful}).last in
    let t = (queueing {Allowed = Careful}).last in
    ((goes (status s.driver 7) (status t.driver 7) ≡ true) ⊎ (Creates s t 7 ⊎ Queues s t 7))
    × ((is_created (t.client 0) 7 ≡ false)
        ⊎ ((is_created (s.client 0) 7 ≡ true)
            ⊎ ((status s.driver 7 ≡ absent) × (s.client 0 ≡ Client.idle))))
    × ((is_answering (status t.driver 7) ≡ false) ⊎ ((j : ℕ) × (is_writer (t.daemon j) 7 ≡ true)))
unfolding fresh queueing
life_goes_on_example = life_goes_on 0 7 (fresh {Allowed = Careful}).reach (calls 0 (queued refl))

request_stays_intact_example :
    (((copying {Allowed = Careful}).last.driver.heap 7).u
      ≡ ((queueing {Allowed = Careful}).last.driver.heap 7).u)
    × (((copying {Allowed = Careful}).last.driver.heap 7).serial
        ≡ ((queueing {Allowed = Careful}).last.driver.heap 7).serial)
unfolding queueing copying count
request_stays_intact_example =
    request_stays_intact 7 (queueing {Allowed = Careful}).reach
      (serves 1 (omega arith) (take refl refl)) (omega arith) (omega arith)

status-queueing : status (queueing {Allowed = Careful}).last.driver 7 ≡ Status.queued
unfolding queueing status count
status-queueing = refl

status-copying : status (copying {Allowed = Careful}).last.driver 7 ≡ handed
unfolding copying status count
status-copying = refl

status-answered : status answered.last.driver 7 ≡ settled
unfolding answered status count remove
status-answered = refl
