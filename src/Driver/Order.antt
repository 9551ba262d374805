-- ===== src/Driver/Order.antt =====
-- driver.c: the order in which the server gets the requests.
use uvfs.Base.{
  ℕ, zero, suc, ◌<◌, ◌≡◌, refl, sym, ◌∙◌, true, false, List, [], ◌∷◌, ◌++◌, arith, length,
}
use mathlib.Core.List.{append-nil, append_assoc}
use uvfs.Driver.State.{Driver, modify}
use uvfs.Driver.Daemon.{read_head, took}
use uvfs.Driver.Request.{enter}

-- Requests queued one after the other, and as many requests taken as there are, up to a number.
unfoldable pub enter_all : List ℕ → Driver → Driver
enter_all [] d = d
enter_all (a ∷ l) d = enter_all l (enter a d).1

unfoldable pub take_all : ℕ → Driver → List ℕ
take_all zero d = []
take_all (suc n) d = elim (read_head d) [ took a d' ↦ a ∷ take_all n d' | _ ↦ [] ]

enter_all-requests :
    (l : List ℕ) (d : Driver) → 0 < d.use_count → (enter_all l d).requests ≡ d.requests ++ l
unfolding enter_all enter
enter_all-requests [] d open_file = sym (append-nil d.requests)
enter_all-requests (a ∷ l) d open_file =
    ground (arith, enter_all-requests l (enter a d).1, append_assoc d.requests (a ∷ []) l)

enter_all-shutting_down :
    (l : List ℕ) (d : Driver) → (enter_all l d).shutting_down ≡ d.shutting_down
unfolding enter_all enter
enter_all-shutting_down [] d = refl
enter_all-shutting_down (a ∷ l) d = ground (arith, enter_all-shutting_down l (enter a d).1)

take_all-requests :
    (l : List ℕ) (d : Driver) → d.shutting_down ≡ false → d.requests ≡ l → take_all (length l) d ≡ l
unfolding take_all read_head
take_all-requests [] d up e = refl
take_all-requests (a ∷ l) d up e =
    let rest =
      take_all-requests l
        (modify a (λ t. record t { in_use = true })
          (record d { requests = l; replies = d.replies ++ a ∷ [] }))
        up refl in
    rw e (ground (arith, rest))

-- With the driver open and not shutting down, the server's threads get the requests that were queued
-- when none were pending in the order in which they were queued.
pub requests_in_order :
    (l : List ℕ) (d : Driver)
    → 0 < d.use_count
    → d.shutting_down ≡ false
    → d.requests ≡ []
    → take_all (length l) (enter_all l d) ≡ l
requests_in_order l d open_file up e =
    take_all-requests l (enter_all l d) (enter_all-shutting_down l d ∙ up)
      (rw (enter_all-requests l d open_file) (rw e refl))
