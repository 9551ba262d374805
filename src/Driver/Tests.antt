-- ===== src/Driver/Tests.antt =====
-- driver.c on concrete inputs: what it answers, and that what is said of it is said of states that it
-- reaches.
mod Life
use uvfs.Base.{
  ℕ, zero, suc, ◌+◌, ◌≤◌, ◌<◌, ◌≡◌, ◌≢◌, ◌⊎◌, ◌↔◌, refl, Bool, true, false, List, [], ◌∷◌, none,
  some, arith, length, get32, copy_at, count, remove, ◌==◌,
}
use uvfs.Base.Errno.{eio, erestartsys}
use uvfs.Driver.State.{Driver, links, modify, init, blank}
use uvfs.Driver.Daemon.{
  uvfsd_open, uvfsd_release, read_finish, read_result, write_check, write_head, find_serial,
  write_finish,
}
use uvfs.Driver.Request.{uvfs_new_transaction, unlink}
use uvfs.Driver.System.{System, Reach, returned, created, read_done, writing, Careful, Any}
use uvfs.Driver.Invariant.{in_copy, owns}
use uvfs.Driver.Runs.{
  reply, opened, fresh, queueing, copying, copied, delivered, interrupted, let_go, answered,
  returned_run,
}
use uvfs.Driver.Safety.{
  linked_is_open, copies_are_exclusive, returned_is_private, request_not_lost, answer_wakes,
  abort_wakes,
}
use uvfs.Driver.Hazards.{
  late_reply_after_free, size_read_after_free, size_read_of_reply, oversized_reply_overruns,
}
use uvfs.Driver.Serials.{create_all, serials_differ, release_repeats_serial}
use uvfs.Driver.Order.{enter_all, take_all, requests_in_order}
use uvfs.Driver.Liveness.{request_answered}
use uvfs.Driver.Delivery.{
  reply_reaches, stray_reply_refused, reply_is_read_back, last_release_answers,
  interruption_unlinks, write_check_exact,
}

abbrev waiting_state : System
waiting_state = (queueing {Allowed = Careful}).last

abbrev copying_state : System
copying_state = (copying {Allowed = Careful}).last

abbrev interrupted_state : System
interrupted_state = (interrupted {Allowed = Careful}).last

linked_is_open_example :
    (waiting_state.driver.live 7 ≡ true)
    × ((waiting_state.driver.heap 7).answered ≡ false)
    × (links 7 waiting_state.driver ≡ 1)
unfolding queueing count
linked_is_open_example = linked_is_open 7 (queueing {Allowed = Careful}).reach (omega arith)

copies_are_exclusive_example :
    (copying_state.driver.live 7 ≡ true)
    × ((copying_state.driver.heap 7).in_use ≡ true)
    × (◌≡◌ {A = ℕ} 1 1)
unfolding copying
copies_are_exclusive_example =
    copies_are_exclusive 1 1 7 (copying {Allowed = Careful}).reach refl refl

returned_is_private_example :
    (returned_run.last.driver.live 7 ≡ true)
    × (links 7 returned_run.last.driver ≡ 0)
    × (in_copy (returned_run.last.daemon 1) 7 ≡ false)
    × (owns (returned_run.last.client 3) 7 ≡ (0 == 3))
unfolding returned_run
returned_is_private_example = returned_is_private 0 1 3 7 returned_run.reach refl

request_not_lost_example :
    ((waiting_state.driver.heap 7).answered ≡ true)
    ⊎ ((links 7 waiting_state.driver ≡ 1) ⊎ ((j : ℕ) × (in_copy (waiting_state.daemon j) 7 ≡ true)))
unfolding queueing
request_not_lost_example = request_not_lost 0 7 (queueing {Allowed = Careful}).reach refl

answer_wakes_example : (answered.last.driver.heap 7).woken ≡ true
unfolding answered
answer_wakes_example = answer_wakes 0 7 answered.reach refl refl

abort_wakes_example :
    ((interrupted_state.driver.heap 7).abort ≡ true)
    × ((((interrupted_state.driver.heap 7).in_use ≡ false)
          × ((interrupted_state.driver.heap 7).woken ≡ true))
        ⊎ ((j : ℕ) × (in_copy (interrupted_state.daemon j) 7 ≡ true)))
unfolding interrupted
abort_wakes_example = abort_wakes 0 7 (interrupted {Allowed = Careful}).reach refl

late_reply_after_free_example :
    (t : System) × Reach Any t × (t.daemon 1 ≡ writing 7 reply) × (t.driver.live 7 ≡ false)
unfolding let_go write_check get32 find_serial
late_reply_after_free_example =
    late_reply_after_free 0 1 7 reply (let_go {Allowed = Any}).reach refl refl (omega arith) refl
      refl

size_read_after_free_example :
    (t : System) × Reach Careful t × (t.daemon 1 ≡ read_done 7) × (t.driver.live 7 ≡ false)
unfolding copied read_finish
size_read_after_free_example =
    size_read_after_free 0 1 7 (copied {Allowed = Careful}).reach refl refl refl

-- A reply of 4160 bytes, 4 more than the union, whose header says that size.
abbrev blanks : ℕ → List ℕ
blanks zero = []
blanks (suc n) = 0 ∷ blanks n

length-blanks : (n : ℕ) → length (blanks n) ≡ n
length-blanks zero = refl
length-blanks (suc n) = omega (arith, length-blanks n)

abbrev long_reply : List ℕ
long_reply = 3 ∷ 0 ∷ 0 ∷ 0 ∷ 0 ∷ 0 ∷ 0 ∷ 0 ∷ 64 ∷ 16 ∷ 0 ∷ 0 ∷ 0 ∷ 0 ∷ 0 ∷ 0 ∷ blanks (suc 4143)

serials_differ_example :
    let d =
      (uvfs_new_transaction
        (some 8)
        (create_all (9 ∷ 10 ∷ []) (uvfs_new_transaction (some 7) init).1)).1 in
    (d.heap 7).serial ≢ (d.heap 8).serial
unfolding count
serials_differ_example =
    serials_differ init 7 8 (9 ∷ 10 ∷ []) (omega arith) (omega arith) refl (λ e. omega arith)

release_repeats_serial_example :
    (t : System) × Reach Careful t
    × (t.client 0 ≡ created 7)
    × (t.client 2 ≡ created 8)
    × (◌≢◌ {A = ℕ} 7 8)
    × (0 < t.driver.use_count)
    × ((t.driver.heap 7).serial ≡ (t.driver.heap 8).serial)
unfolding fresh uvfs_new_transaction
release_repeats_serial_example =
    release_repeats_serial 0 2 7 8 (fresh {Allowed = Careful}).reach refl refl refl (λ j. refl) refl
      refl

abbrev taken : Driver
taken = (delivered {Allowed = Careful}).last.driver

-- One transaction with a union of 16 bytes waits in the requests, another one in the replies.
abbrev pending : Driver
pending = record {
  use_count = 1;
  shutting_down = false;
  serial_number = 2;
  requests = 7 ∷ [];
  replies = 8 ∷ [];
  heap = λ _. record blank { u = reply };
  live = λ _. true;
}

last_release_answers_example :
    let d = uvfsd_release pending in
    ((d.heap 7).answered ≡ true)
    × (get32 (d.heap 7).u 12 ≡ eio)
    × (links 7 d ≡ 0)
    × (d.use_count ≡ 0)
unfolding count
last_release_answers_example = last_release_answers pending 7 refl (omega arith) (omega arith)

write_check_exact_example :
    (write_check 16 false reply ≡ none)
    ↔ ((◌≤◌ 16 16) × (◌≡◌ {A = Bool} false false) × (get32 reply 8 ≡ 16))
unfolding get32
write_check_exact_example = write_check_exact 16 false reply (omega arith) (omega arith)

requests_in_order_example :
    take_all 3 (enter_all (7 ∷ 9 ∷ 8 ∷ []) (opened {Allowed = Careful}).last.driver)
    ≡ 7 ∷ 9 ∷ 8 ∷ []
unfolding opened uvfsd_open
requests_in_order_example =
    requests_in_order (7 ∷ 9 ∷ 8 ∷ []) (opened {Allowed = Careful}).last.driver (omega arith) refl
      refl

request_answered_example :
    (t : System) × Reach Careful t
    × (t.client 0 ≡ returned 7)
    × ((off : ℕ) → off + 4 ≤ 16 → get32 (t.driver.heap 7).u off ≡ get32 reply off)
unfolding queueing write_check get32 count
request_answered_example =
    request_answered 0 1 7 [] reply (queueing {Allowed = Careful}).reach (omega arith) refl refl
      refl refl refl refl (λ x c. absurd (omega arith))
