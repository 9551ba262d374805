-- ===== src/Signal.antt =====
-- uvfs_signal.cc: the command-line tool that signals the driver. The system calls that it makes are a
-- parameter, an argument is its bytes without the terminating zero.
pub mod Device
mod Tests
use uvfs.Base.{
  ℕ, Bool, true, false, ◌&&◌, List, [], ◌∷◌, Option, none, some, ◌==◌, if◌then◌else◌, is_negative,
}

-- open, ioctl and close on some state, with descriptors and results as `int`s.
pub record Calls (S : Type 0) : Type 0 where
  pub open_device : List ℕ → S → ℕ × S
  pub ioctl : ℕ → ℕ → S → ℕ × S
  pub close : ℕ → S → S

-- What the tool prints.
pub data Output : Type 0 where
  usage : Output
  unrecognized : List ℕ → Output
  no_device : Output
  ioctl_failed : Output
  opens_on_module : ℕ → Output

-- "shutdown", "status" and "count"
abbrev pub shutdown_text : List ℕ
shutdown_text = 115 ∷ 104 ∷ 117 ∷ 116 ∷ 100 ∷ 111 ∷ 119 ∷ 110 ∷ []

abbrev pub status_text : List ℕ
status_text = 115 ∷ 116 ∷ 97 ∷ 116 ∷ 117 ∷ 115 ∷ []

abbrev pub count_text : List ℕ
count_text = 99 ∷ 111 ∷ 117 ∷ 110 ∷ 116 ∷ []

-- UVFS_IOCTL_SHUTDOWN, UVFS_IOCTL_STATUS and UVFS_IOCTL_USE_COUNT.
abbrev pub ioctl_shutdown : ℕ
ioctl_shutdown = 42

abbrev pub ioctl_status : ℕ
ioctl_status = 43

abbrev pub ioctl_use_count : ℕ
ioctl_use_count = 44

-- `strcmp(a, b) == 0`
unfoldable pub same_text : List ℕ → List ℕ → Bool
same_text [] [] = true
same_text (b ∷ bs) (c ∷ cs) = b == c && same_text bs cs
same_text _ _ = false

unfoldable pub command_of : List ℕ → Option ℕ
unfolding same_text
command_of text =
    if same_text text shutdown_text
    then some ioctl_shutdown
    else if same_text text status_text
    then some ioctl_status
    else if same_text text count_text
    then some ioctl_use_count
    else none

module _ {S : Type 0} (sys : Calls S) where
  -- From the opening of the device on: the exit status, what was printed, and the state.
  unfoldable pub run_command : List ℕ → ℕ → S → (ℕ × List Output) × S
  run_command device cmd s =
      let (fd, s₁) = sys.open_device device s in
      let (result, s₂) = sys.ioctl fd cmd s₁ in
      if is_negative fd
      then ((1, no_device ∷ []), s₁)
      else if is_negative result
      then ((1, ioctl_failed ∷ []), sys.close fd s₂)
      else (
        (0, if cmd == ioctl_use_count then opens_on_module result ∷ [] else []),
        sys.close fd s₂,
      )

  unfoldable pub run_text : List ℕ → List ℕ → S → (ℕ × List Output) × S
  run_text device text s = elim (command_of text) [
    | none ↦ ((1, unrecognized text ∷ []), s)
    | some cmd ↦ run_command device cmd s
  ]

  -- `main`, on argv.
  unfoldable pub main : List (List ℕ) → S → (ℕ × List Output) × S
  main (name ∷ device ∷ text ∷ rest) s = run_text device text s
  main _ s = ((1, usage ∷ []), s)
