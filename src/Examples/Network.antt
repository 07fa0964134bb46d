-- ===== src/Examples/Network.antt =====
-- network/manager.go at concrete interfaces, which are numbers; the world is the clock.
use simpleiot.Prelude.{ℕ, ◌+◌, ◌≡◌, ◌≢◌, refl, true, false, [], ◌∷◌, some, arith}
use simpleiot.Network.Manager.{
  not_detected, connecting, connected, errored, InterfaceStatus, Drivers, Manager, Run, new_manager,
  add_interface, run, no_status, no_config, seconds, report_error, set_state,
}
use simpleiot.Network.Manager.Bounds.{IsValid, run-IsValid}
use simpleiot.Network.Manager.Connected.{run-is_connected}
use simpleiot.Network.Manager.Progress.{Works, run-run-connected}
use simpleiot.Network.Manager.Timeouts.{Absent, run-errored}

abbrev good_status : InterfaceStatus
good_status = record no_status { detected = true; is_connected = true }

-- Interfaces that all have the status, and a clock that goes on while they reset.
abbrev drivers_with : InterfaceStatus → Drivers ℕ ℕ
drivers_with s = record {
  clock = λ w. w;
  get_status = λ i w. (record { value = s; failed = false }, w);
  do_configure = λ i w. (record { value = no_config; failed = false }, w + 1);
  do_connect = λ i w. (false, w + 1);
  do_reset = λ i w. w + seconds 1;
}

abbrev working : Drivers ℕ ℕ
working = drivers_with good_status

abbrev missing : Drivers ℕ ℕ
missing = drivers_with no_status

abbrev two_interfaces : Manager ℕ
two_interfaces = record {
  state = not_detected;
  state_start = 0;
  interfaces = 7 ∷ 8 ∷ [];
  err_reset_cnt = 2;
  err_cnt = 0;
  interface_index = 0;
}

two_interfaces_added : add_interface (add_interface (new_manager 0 2) 7) 8 ≡ two_interfaces
unfolding new_manager add_interface
two_interfaces_added = refl

-- The second error resets the interfaces.
report_error_twice :
    report_error missing (report_error missing (record two_interfaces { state = connecting }) 5).0 6
    ≡ (record two_interfaces { state_start = seconds 2 + 6 }, seconds 2 + 6)
unfolding report_error set_state
report_error_twice = refl

run-IsValid_example :
    (r : Run ℕ ℕ) × (run missing two_interfaces (seconds 16) ≡ some r)
    × (IsValid r.manager × (r.manager.interfaces ≡ two_interfaces.interfaces))
run-IsValid_example = run-IsValid missing two_interfaces (seconds 16) (omega arith)

abbrev run_result : Run ℕ ℕ
run_result = record {
  manager = record two_interfaces { state = connected; state_start = 3 };
  config = no_config;
  status = good_status;
  world = 3;
}

abbrev connecting_manager : Manager ℕ
connecting_manager = record two_interfaces { state = connecting }

connecting_run : run working connecting_manager 3 ≡ some run_result
unfolding run set_state
connecting_run = refl

connecting-ne-connected : connecting ≢ connected
connecting-ne-connected e = cc

run-is_connected_example : run_result.status.is_connected ≡ true
run-is_connected_example =
    run-is_connected working connecting_manager 3 run_result connecting-ne-connected connecting_run
      refl

working-Works : Works working 7
working-Works w = (refl, refl, refl, refl)

run-run-connected_example :
    (r r' : Run ℕ ℕ) × (run working two_interfaces 0 ≡ some r)
    × (run working r.manager r.world ≡ some r')
    × (r'.manager.state ≡ connected)
run-run-connected_example = run-run-connected working two_interfaces 0 7 working-Works refl refl

missing-Absent : Absent missing
missing-Absent i w = (refl, refl, omega arith)

run-errored_example :
    (r : Run ℕ ℕ) × (run missing two_interfaces (seconds 16) ≡ some r)
    × (r.manager.state ≡ errored)
    × (r.manager.interface_index ≡ 0)
    × (r.manager.state_start ≡ missing.clock r.world)
run-errored_example =
    run-errored missing two_interfaces (seconds 16) missing-Absent refl (omega arith) (omega arith)
      (omega arith)
