-- ===== src/Signal/Tests.antt =====
-- The tool on a driver that one server has open.
use uvfs.Base.{◌≡◌, refl, true, [], ◌∷◌, arith}
use uvfs.Driver.State.{Driver, init}
use uvfs.Driver.Daemon.{Head, read_head}
use uvfs.Signal.{
  unrecognized, opens_on_module, shutdown_text, status_text, count_text, command_of, same_text,
  main,
}
use uvfs.Signal.Device.{pmfs, argv, signal_reaches_server}

abbrev served : Driver
served = record init { use_count = 1 }

signal_reaches_server_example :
    (main (pmfs 3 true) (argv (117 ∷ []) (112 ∷ []) shutdown_text) served
      ≡ ((0, []), record served { shutting_down = true }))
    × (read_head (record served { shutting_down = true }) ≡ Head.shutdown)
    × (main (pmfs 3 true) (argv (117 ∷ []) (112 ∷ []) status_text) served ≡ ((0, []), served))
    × (main (pmfs 3 true) (argv (117 ∷ []) (112 ∷ []) count_text) served
        ≡ ((0, opens_on_module 2 ∷ []), served))
    × (main (pmfs 3 true) (argv (117 ∷ []) (112 ∷ []) (7 ∷ [])) served
        ≡ ((1, unrecognized (7 ∷ []) ∷ []), served))
unfolding command_of same_text
signal_reaches_server_example =
    signal_reaches_server 3 true (117 ∷ []) (112 ∷ []) (7 ∷ []) served refl (omega arith)
      (omega arith) refl
