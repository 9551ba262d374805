-- ===== src/Driver/Invariant/Lists.antt =====
-- What the sections of driver.c do to the two lists, told by the number of links.
use uvfs.Base.{
  ℕ, ◌<◌, ◌≡◌, refl, Bool, true, false, ◌∙◌, List, [], ◌∷◌, ◌++◌, some, arith, ◌==◌, update, count,
}
use uvfs.Driver.State.{Transaction, Driver, modify, list_del_init, set_error}
use uvfs.Driver.Daemon.{took, read_head, fail, fail_all, find_serial, write_head}
use uvfs.Base.{count-nil, count-cons, Bool-cases, inl, inr, ◌⊎◌}
use uvfs.Base.Errno.{eio}
use uvfs.Driver.Request.{enter, check_signal, over, wait, unlink}

-- The driver after `read_head` has taken `a` off the requests.
abbrev pub taken : ℕ → List ℕ → Driver → Driver
taken a rest d =
    modify a (λ t. record t { in_use = true })
      (record d { requests = rest; replies = d.replies ++ a ∷ [] })

pub read_head-took :
    (d : Driver) {a : ℕ} {d' : Driver}
    → read_head d ≡ took a d'
    → (rest : List ℕ) × (d.requests ≡ a ∷ rest) × (d' ≡ taken a rest d)
unfolding read_head
read_head-took d h = ground arith

-- The driver after `write_head` has found `a`.
abbrev pub found : ℕ → Driver → Driver
found a d = modify a (λ t. record t { in_use = true }) (list_del_init a d)

pub find_serial-linked :
    (serial : ℕ) (h : ℕ → Transaction) (l : List ℕ) {a : ℕ}
    → find_serial serial h l ≡ some a
    → (0 < count a l) × ((h a).serial ≡ serial)
unfolding find_serial count
find_serial-linked serial h [] e = cc
find_serial-linked serial h (x ∷ l) {a} e = ground (arith, find_serial-linked serial h l {a = a})

pub write_head-some :
    (serial : ℕ) (d : Driver) {a : ℕ} {d' : Driver}
    → write_head serial d ≡ some (a, d')
    → (0 < count a d.replies) × ((d.heap a).serial ≡ serial) × (d' ≡ found a d)
unfolding write_head
write_head-some serial d {a} h = ground (arith, find_serial-linked serial d.heap d.replies {a = a})

pub fail_all-unlinked :
    (x : ℕ) (l : List ℕ) (h : ℕ → Transaction) → count x l ≡ 0 → fail_all l h x ≡ h x
unfolding fail_all count
fail_all-unlinked x [] h e = refl
fail_all-unlinked x (a ∷ l) h e = ground (arith, fail_all-unlinked x l (update h a (fail (h a))))

pub fail_all-in_use :
    (x : ℕ) (l : List ℕ) (h : ℕ → Transaction) → (fail_all l h x).in_use ≡ (h x).in_use
unfolding fail_all
fail_all-in_use x [] h = refl
fail_all-in_use x (a ∷ l) h = fail_all-in_use x l (update h a (fail (h a))) ∙ (ground arith)

pub fail_all-answered :
    (x : ℕ) (l : List ℕ) (h : ℕ → Transaction)
    → (h x).answered ≡ true
    → (fail_all l h x).answered ≡ true
unfolding fail_all
fail_all-answered x [] h e = e
fail_all-answered x (a ∷ l) h e = fail_all-answered x l (update h a (fail (h a))) (ground arith)

pub fail_all-abort :
    (x : ℕ) (l : List ℕ) (h : ℕ → Transaction) → (fail_all l h x).abort ≡ (h x).abort
unfolding fail_all
fail_all-abort x [] h = refl
fail_all-abort x (a ∷ l) h = fail_all-abort x l (update h a (fail (h a))) ∙ (ground arith)

pub fail_all-serial :
    (x : ℕ) (l : List ℕ) (h : ℕ → Transaction) → (fail_all l h x).serial ≡ (h x).serial
unfolding fail_all
fail_all-serial x [] h = refl
fail_all-serial x (a ∷ l) h = fail_all-serial x l (update h a (fail (h a))) ∙ (ground arith)

pub fail_all-woken :
    (x : ℕ) (l : List ℕ) (h : ℕ → Transaction) → (h x).woken ≡ true → (fail_all l h x).woken ≡ true
unfolding fail_all
fail_all-woken x [] h e = e
fail_all-woken x (a ∷ l) h e = fail_all-woken x l (update h a (fail (h a))) (ground arith)

-- Nothing is answered without being woken up.
pub fail_all-rings :
    (x : ℕ) (l : List ℕ) (h : ℕ → Transaction)
    → ((h x).answered ≡ true → (h x).woken ≡ true)
    → (fail_all l h x).answered ≡ true
    → (fail_all l h x).woken ≡ true
unfolding fail_all
fail_all-rings x [] h r e = r e
fail_all-rings x (a ∷ l) h r e = fail_all-rings x l (update h a (fail (h a))) (ground arith) e

pub fail_all-linked :
    (x : ℕ) (l : List ℕ) (h : ℕ → Transaction) → 0 < count x l → (fail_all l h x).answered ≡ true
unfolding fail_all
fail_all-linked x [] h c = absurd (omega (arith, count-nil x))
fail_all-linked x (a ∷ l) h c = elim (Bool-cases (a == x)) [
  | inl e ↦ fail_all-answered x l (update h a (fail (h a))) (ground arith)
  | inr e ↦ fail_all-linked x l (update h a (fail (h a))) (ground (arith, count-cons x a l))
]

pub enter-refused :
    (a : ℕ) (d : Driver) → (enter a d).0 ≡ false → (enter a d).1 ≡ modify a (set_error eio) d
unfolding enter
enter-refused a d h = ground arith

pub enter-queued :
    (a : ℕ) (d : Driver)
    → (enter a d).0 ≡ true
    → (enter a d).1 ≡ record d { requests = d.requests ++ a ∷ [] }
unfolding enter
enter-queued a d h = ground arith

pub check_signal-over :
    (signal : Bool) (a : ℕ) (d : Driver) {d' : Driver}
    → check_signal signal a d ≡ over d'
    → ((signal ≡ true) × ((d.heap a).in_use ≡ false) × (d' ≡ unlink a d))
      ⊎ ((signal ≡ false) × (d' ≡ d))
unfolding check_signal
check_signal-over true a d h = inl (ground arith)
check_signal-over false a d h = inr (ground arith)

-- The driver after an interrupted thread has found its transaction in use.
abbrev pub aborts : ℕ → Driver → Driver
aborts a d = modify a (λ t. record t { abort = true; woken = false }) d

pub check_signal-wait :
    (signal : Bool) (a : ℕ) (d : Driver) {d' : Driver}
    → check_signal signal a d ≡ wait d'
    → ((d.heap a).in_use ≡ true) × (d' ≡ aborts a d)
unfolding check_signal
check_signal-wait signal a d h = ground arith
