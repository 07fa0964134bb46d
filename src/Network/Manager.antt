-- ===== src/Network/Manager.antt =====
-- network/manager.go: the state machine that brings a network interface up. The interfaces are
-- the argument `drivers`: what their methods return and how they change the world. The world has
-- the clock, in nanoseconds. A durations' limit is added to the start instead of taking a
-- difference. `none` is a panic: an index out of range.
pub mod Connected
pub mod Progress
pub mod Bounds
pub mod Timeouts
use simpleiot.Prelude.{
  ℕ, zero, suc, ◌+◌, ◌*◌, ◌^◌, String, Bool, true, false, not, List, [], ◌∷◌, ◌++◌, Option, none,
  some, ltb, leb, ◌==◌, if◌then◌else◌, length, get_elem?,
}
use simpleiot.Prelude.Options.{◌>>=◌}
use simpleiot.Prelude.Int.{ℤ, pos}

-- `State`
pub data State : Type 0 where
  not_detected configure connecting connected errored : State

-- `InterfaceStatus`
pub record InterfaceStatus : Type 0 where
  pub detected : Bool
  pub is_connected : Bool
  pub operator : String
  pub signal : ℤ
  pub rsrp : ℤ
  pub rsrq : ℤ
  pub ip : String

-- `InterfaceConfig`
pub record InterfaceConfig : Type 0 where
  pub imei : String
  pub sim : String
  pub apn : String
  pub version : String

abbrev pub no_status : InterfaceStatus
no_status = record {
  detected = false;
  is_connected = false;
  operator = "";
  signal = pos 0;
  rsrp = pos 0;
  rsrq = pos 0;
  ip = "";
}

abbrev pub no_config : InterfaceConfig
no_config = record { imei = ""; sim = ""; apn = ""; version = "" }

-- A value and whether there was an error with it
pub record Outcome (A : Type 0) : Type 0 where
  pub value : A
  pub failed : Bool

-- `Interface`, for interfaces named by `I` in a world `W`
pub record Drivers (I W : Type 0) : Type 0 where
  pub clock : W → ℕ
  pub get_status : I → W → Outcome InterfaceStatus × W
  pub do_configure : I → W → Outcome InterfaceConfig × W
  pub do_connect : I → W → Bool × W
  pub do_reset : I → W → W

-- `Manager`
pub record Manager (I : Type 0) : Type 0 where
  pub state : State
  pub state_start : ℕ
  pub interfaces : List I
  pub err_reset_cnt : ℕ
  pub err_cnt : ℕ
  pub interface_index : ℕ

abbrev pub seconds : ℕ → ℕ
seconds n = n * 1000000000

-- The code of a state, by which states are compared
unfoldable pub state_code : State → ℕ
state_code not_detected = 0
state_code configure = 1
state_code connecting = 2
state_code connected = 3
state_code errored = 4

unfoldable pub same_state : State → State → Bool
unfolding state_code
same_state a b = state_code a == state_code b

-- The variables of `Run`, and the world
pub record Run (I W : Type 0) : Type 0 where
  pub manager : Manager I
  pub config : InterfaceConfig
  pub status : InterfaceStatus
  pub world : W

-- `NewManager`
unfoldable pub new_manager : {I : Type 0} → ℕ → ℕ → Manager I
new_manager now err_reset_cnt = record {
  state = not_detected;
  state_start = now;
  interfaces = [];
  err_reset_cnt = err_reset_cnt;
  err_cnt = 0;
  interface_index = 0;
}

-- `Manager.AddInterface`
unfoldable pub add_interface : {I : Type 0} → Manager I → I → Manager I
add_interface m i = record m { interfaces = m.interfaces ++ (i ∷ []) }

-- `Manager.Success`
unfoldable pub success : {I : Type 0} → Manager I → Manager I
success m = record m { err_cnt = 0 }

-- `Manager.setState`; a state that stays keeps its start.
unfoldable pub set_state : {I : Type 0} → ℕ → State → Manager I → Manager I
unfolding same_state
set_state now s m =
    if not (same_state s m.state) then record m { state = s; state_start = now } else m

-- `Manager.nextInterface`
unfoldable pub next_interface : {I : Type 0} → ℕ → Manager I → Manager I
unfolding set_state
next_interface now m =
    let i = m.interface_index + 1 in
    if leb (length m.interfaces) i
    then set_state now errored (record m { interface_index = 0 })
    else set_state now not_detected (record m { interface_index = i })

module _ {I W : Type 0} (drivers : Drivers I W) where
  -- `time.Since(m.stateStart) > limit`
  unfoldable pub overdue : ℕ → Run I W → Bool
  overdue limit r = ltb (r.manager.state_start + limit) (drivers.clock r.world)

  unfoldable pub enter : State → Run I W → Run I W
  enter s r = record r { manager = set_state (drivers.clock r.world) s r.manager }

  unfoldable pub skip_interface : Run I W → Run I W
  skip_interface r = record r { manager = next_interface (drivers.clock r.world) r.manager }

  -- `Manager.Reset`
  unfoldable pub reset_all : List I → W → W
  reset_all [] w = w
  reset_all (i ∷ is) w = reset_all is (drivers.do_reset i w)

  -- `Manager.getStatus`, and whether there was an error
  unfoldable pub poll : Run I W → Option (Run I W × Bool)
  poll r =
      if leb (length r.manager.interfaces) 0
      then some (record r { status = no_status }, false)
      else get_elem? r.manager.interfaces r.manager.interface_index >>= λ i.
          let (o, w) = drivers.get_status i r.world in
          some (record r { status = o.value; world = w }, o.failed)

  -- `Manager.configure`
  unfoldable pub configure_once : Run I W → Option (Run I W × Bool)
  configure_once r =
      if leb (length r.manager.interfaces) 0
      then some (record r { config = no_config }, true)
      else get_elem? r.manager.interfaces r.manager.interface_index >>= λ i.
          let (o, w) = drivers.do_configure i r.world in
          some (record r { config = o.value; world = w }, o.failed)

  -- `Manager.connect`; its error is only logged.
  unfoldable pub connect_once : Run I W → Option (Run I W)
  connect_once r =
      if leb (length r.manager.interfaces) 0
      then some r
      else get_elem? r.manager.interfaces r.manager.interface_index >>= λ i.
          some (record r { world = (drivers.do_connect i r.world).1 })

  -- The loop over `try`, with `n` tries left; whether one has succeeded
  unfoldable pub try_configure : ℕ → Run I W → Option (Run I W × Bool)
  unfolding configure_once
  try_configure zero r = some (r, false)
  try_configure (suc n) r = configure_once r >>= λ (r', failed).
      let rest = try_configure n r' in if failed then rest else some (r', true)

  -- The switch of `Run`; whether the loop continues
  unfoldable pub on_state : State → Run I W → Option (Run I W × Bool)
  unfolding overdue enter skip_interface reset_all connect_once try_configure
  on_state not_detected r =
      if r.status.detected
      then some (enter configure r, true)
      else if overdue (seconds 15) r
      then some (skip_interface r, true)
      else some (r, false)
  on_state configure r = try_configure 3 r >>= λ (r', done).
      if done then some (enter connecting r', false) else some (skip_interface r', false)
  on_state connecting r =
      if r.status.is_connected
      then some (enter connected r, false)
      else if overdue (seconds 60) r
      then some (skip_interface r, true)
      else (connect_once r >>= λ r'. some (r', false))
  on_state connected r =
      if not r.status.is_connected then some (enter connecting r, false) else some (r, false)
  on_state errored r =
      if overdue (seconds 60) r
      then some
          (enter not_detected (record r { world = reset_all r.manager.interfaces r.world }), false)
      else some (r, false)

  -- One round of the loop of `Run`
  unfoldable pub round : Run I W → Option (Run I W × Bool)
  unfolding poll on_state same_state
  round r =
      if same_state r.manager.state errored
      then on_state r.manager.state r
      else poll r >>= λ (r', failed).
          if failed then some (r', true) else on_state r'.manager.state r'

  -- The loop of `Run` with `n` rounds left; at the end it has run too many times.
  unfoldable pub rounds : ℕ → Run I W → Option (Run I W)
  unfolding round skip_interface overdue
  rounds zero r = some (if overdue (seconds 15) r then skip_interface r else r)
  rounds (suc n) r =
      round r >>= λ (r', again). let rest = rounds n r' in if again then rest else some r'

  -- `Manager.Run`
  unfoldable pub run : Manager I → W → Option (Run I W)
  unfolding rounds
  run m w = rounds 10 (record { manager = m; config = no_config; status = no_status; world = w })

  -- `Manager.Error`
  unfoldable pub report_error : Manager I → W → Manager I × W
  unfolding reset_all
  report_error m w =
      let n = m.err_cnt + 1 in
      let w' = reset_all m.interfaces w in
      if leb m.err_reset_cnt n
      then (
        record (set_state (drivers.clock w') not_detected (record m { err_cnt = n })) {
          err_cnt = 0;
        },
        w',
      )
      else (record m { err_cnt = n }, w)
