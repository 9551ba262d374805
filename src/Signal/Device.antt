-- ===== src/Signal/Device.antt =====
-- uvfs_signal.cc on the driver of driver.c.
use uvfs.Base.{
  ℕ, ◌+◌, ◌^◌, ◌<◌, ◌≡◌, Bool, true, false, List, [], ◌∷◌, none, arith, if◌then◌else◌, is_negative,
}
use uvfs.Driver.State.{Driver}
use uvfs.Driver.Daemon.{uvfsd_open, uvfsd_release, uvfsd_ioctl, ioctl_of, Head, read_head}
use uvfs.Signal.{
  Calls, unrecognized, opens_on_module, shutdown_text, status_text, count_text, command_of,
  same_text, run_command, run_text, main,
}

-- The device, with what `open` returns, and whether a file system is mounted.
abbrev pub pmfs : ℕ → Bool → Calls Driver
pmfs fd mounted = record {
  open_device = λ device d. if is_negative fd then (fd, d) else (fd, uvfsd_open d);
  ioctl = λ fd' cmd d. uvfsd_ioctl mounted cmd d;
  close = λ fd' d. uvfsd_release d;
}

-- The argument vector of a call of the tool with a command.
abbrev pub argv : List ℕ → List ℕ → List ℕ → List (List ℕ)
argv name device text = name ∷ device ∷ text ∷ []

-- If the device opens, a server has it open, and the count of open files stays below 2 ^ 31: the command
-- "shutdown" prints nothing and exits with 0, and leaves the driver shutting down, with no other change,
-- so that each thread of the server that comes to the loop of uvfsd_read is told to shut down; "status"
-- exits with 0 and leaves the driver as it was; "count" does so too, and prints the number of open files
-- with the tool's own among them; a text that is
-- no command makes it exit with 1 before the device is opened.
pub signal_reaches_server :
    (fd : ℕ) (mounted : Bool) (name device text : List ℕ) (d : Driver)
    → is_negative fd ≡ false
    → 0 < d.use_count
    → d.use_count + 1 < 2 ^ 31
    → command_of text ≡ none
    → let run = λ (text : List ℕ). main (pmfs fd mounted) (argv name device text) d in
      let stopped = record d { shutting_down = true } in
      (run shutdown_text ≡ ((0, []), stopped))
      × (read_head stopped ≡ Head.shutdown)
      × (run status_text ≡ ((0, []), d))
      × (run count_text ≡ ((0, opens_on_module (d.use_count + 1) ∷ []), d))
      × (run text ≡ ((1, unrecognized text ∷ []), d))
unfolding main run_text run_command command_of same_text uvfsd_open uvfsd_release uvfsd_ioctl
    ioctl_of read_head
signal_reaches_server fd mounted name device text d opened server few unknown =
    (ground arith, ground arith, ground arith, ground arith, ground arith)

-- If no server has the device open, the tool's own close is the last release: after "shutdown" the
-- driver is not shutting down.
pub signal_without_server :
    (fd : ℕ) (mounted : Bool) (name device : List ℕ) (d : Driver)
    → is_negative fd ≡ false
    → d.use_count ≡ 0
    → let (r, d') = main (pmfs fd mounted) (argv name device shutdown_text) d in
      (r ≡ (0, [])) × (d'.shutting_down ≡ false)
unfolding main run_text run_command command_of same_text uvfsd_open uvfsd_release uvfsd_ioctl
    ioctl_of
signal_without_server fd mounted name device d opened none_open = (ground arith, ground arith)
