-- ===== src/Network/Manager/Connected.antt =====
-- network/manager.go: when `Run` says that the network is connected.
use simpleiot.Prelude.{
  ℕ, zero, suc, ◌+◌, ◌≡◌, ◌≢◌, refl, sym, ap, ◌∙◌, Bool, true, false, Option, some, leb,
  if◌then◌else◌, length, get_elem?, Bool-cases, inl, inr, arith,
}
use simpleiot.Prelude.Options.{
  Whenever, bind-Whenever, bind_any-Whenever, if_Whenever, Whenever-some,
}
use simpleiot.Network.Manager.{
  State, not_detected, configure, connecting, connected, errored, Drivers, Manager, Run, set_state,
  next_interface, same_state, state_code, overdue, enter, skip_interface, poll, connect_once,
  try_configure, on_state, round, rounds, run, reset_all, no_status, no_config, seconds,
}

set_state-state :
    {I : Type 0} (now : ℕ) (s : State) (m : Manager I)
    → state_code (set_state now s m).state ≡ state_code s
unfolding set_state
set_state-state now s m = ground arith

next_interface-state :
    {I : Type 0} (now : ℕ) (m : Manager I) → state_code (next_interface now m).state ≢ 3
unfolding next_interface state_code
next_interface-state now m = ground (
  arith,
  set_state-state now errored (record m { interface_index = 0 }),
  set_state-state now not_detected (record m { interface_index = m.interface_index + 1 }),
)

module _ {I W : Type 0} (drivers : Drivers I W) where
  -- The state is not `connected`.
  abbrev Apart : Run I W → Type 0
  Apart r = state_code r.manager.state ≢ 3

  -- In the state `connected` the status says so.
  abbrev Honest : Run I W → Type 0
  Honest r = state_code r.manager.state ≡ 3 → r.status.is_connected ≡ true

  -- The loop goes on outside `connected` only.
  abbrev Checked : Run I W × Bool → Type 0
  Checked (r, more) = Honest r × (more ≡ true → Apart r)

  abbrev ApartStep : Run I W × Bool → Type 0
  ApartStep s = Apart s.0

  Apart-Checked : (r : Run I W) (more : Bool) → Apart r → Checked (r, more)
  Apart-Checked r more a = (λ e. absurd (a e), λ e. a)

  enter-Checked :
      (s : State) (r : Run I W) (more : Bool) → state_code s ≢ 3 → Checked (enter drivers s r, more)
  unfolding enter
  enter-Checked s r more h =
      let e = set_state-state (drivers.clock r.world) s r.manager in
      Apart-Checked (enter drivers s r) more (λ c. h (sym e ∙ c))

  skip-Checked : (r : Run I W) (more : Bool) → Checked (skip_interface drivers r, more)
  unfolding skip_interface
  skip-Checked r more =
      Apart-Checked (skip_interface drivers r) more
        (next_interface-state (drivers.clock r.world) r.manager)

  poll-Apart : (r : Run I W) → Apart r → Whenever ApartStep (poll drivers r)
  unfolding poll
  poll-Apart r a = if_Whenever ApartStep (leb (length r.manager.interfaces) 0) _ _ a (
      bind_any-Whenever ApartStep (get_elem? r.manager.interfaces r.manager.interface_index) _
        (λ i. a))

  connect_once-Apart : (r : Run I W) → Apart r → Whenever Apart (connect_once drivers r)
  unfolding connect_once
  connect_once-Apart r a = if_Whenever Apart (leb (length r.manager.interfaces) 0) _ _ a (
      bind_any-Whenever Apart (get_elem? r.manager.interfaces r.manager.interface_index) _ (λ i. a))

  enter_connected-Checked :
      (r : Run I W) (o : Option (Run I W × Bool))
      → Whenever Checked o
      → Whenever Checked
          (if r.status.is_connected then some (enter drivers connected r, false) else o)
  unfolding enter
  enter_connected-Checked r o h = elim (Bool-cases r.status.is_connected) [
    | inl t ↦ simp t (λ e. refl, λ e. absurd (cc))
    | inr t ↦ simp t h
  ]

  on_state-Checked :
      (s : State) (r : Run I W) → Apart r → s ≢ connected → Whenever Checked (on_state drivers s r)
  unfolding on_state state_code
  on_state-Checked not_detected r a n =
      if_Whenever Checked r.status.detected _ _ (enter-Checked configure r true (omega arith)) (
        if_Whenever Checked (overdue drivers (seconds 15) r) _ _ (skip-Checked r true)
          (Apart-Checked r false a))
  on_state-Checked configure r a n =
      bind_any-Whenever Checked (try_configure drivers 3 r) _ (λ (r', done).
        if_Whenever Checked done _ _ (enter-Checked connecting r' false (omega arith))
          (skip-Checked r' false))
  on_state-Checked connecting r a n = enter_connected-Checked r _ (
      if_Whenever Checked (overdue drivers (seconds 60) r) _ _ (skip-Checked r true) (
        bind-Whenever Apart Checked (connect_once drivers r) _ (connect_once-Apart r a)
          (λ r' h. Apart-Checked r' false h)))
  on_state-Checked connected r a n = absurd (n refl)
  on_state-Checked errored r a n =
      let r' = record r { world = reset_all drivers r.manager.interfaces r.world } in
      if_Whenever Checked (overdue drivers (seconds 60) r) _ _
        (enter-Checked not_detected r' false (omega arith)) (Apart-Checked r false a)

  not_connected : (r : Run I W) → Apart r → r.manager.state ≢ connected
  unfolding state_code
  not_connected r a e = a (ap state_code e)

  round-Checked : (r : Run I W) → Apart r → Whenever Checked (round drivers r)
  unfolding round
  round-Checked r a =
      if_Whenever Checked (same_state r.manager.state errored) _ _
        (on_state-Checked r.manager.state r a (not_connected r a))
        (bind-Whenever ApartStep Checked (poll drivers r) _ (poll-Apart r a) (λ (r', failed) h.
          if_Whenever Checked failed _ _ (Apart-Checked r' true h)
            (on_state-Checked r'.manager.state r' h (not_connected r' h))))

  rounds-Honest : (n : ℕ) (r : Run I W) → Apart r → Whenever Honest (rounds drivers n r)
  unfolding rounds
  rounds-Honest zero r a = last (overdue drivers (seconds 15) r)
    where
      last : (late : Bool) → Honest (if late then skip_interface drivers r else r)
      last true = (skip-Checked r false).0
      last false = (Apart-Checked r false a).0
  rounds-Honest (suc n) r a =
      bind-Whenever Checked Honest (round drivers r) _ (round-Checked r a)
        (λ (r', more) h. rest r' more h (rounds-Honest n r'))
    where
      rest :
          (r' : Run I W) (more : Bool)
          → Checked (r', more)
          → (Apart r' → Whenever Honest (rounds drivers n r'))
          → Whenever Honest (if more then rounds drivers n r' else some r')
      rest r' true h k = k (h.1 refl)
      rest r' false h k = h.0

-- `Run` enters the state `connected` only on the interface's word: if the manager is in another
-- state, `Run` returns, and the state is then `connected`, the status that it returns has
-- `is_connected`.
pub run-is_connected :
    {I W : Type 0} (drivers : Drivers I W) (m : Manager I) (w : W) (r : Run I W)
    → m.state ≢ connected
    → run drivers m w ≡ some r
    → r.manager.state ≡ connected
    → r.status.is_connected ≡ true
unfolding run state_code
run-is_connected drivers m w r n e c =
    Whenever-some (Honest drivers)
      (rounds drivers 10
        (record { manager = m; config = no_config; status = no_status; world = w }))
      r e
      (rounds-Honest drivers 10
        (record { manager = m; config = no_config; status = no_status; world = w })
        (code_ne m.state n))
      (ap state_code c)
  where
    code_ne : (s : State) → s ≢ connected → state_code s ≢ 3
    code_ne not_detected h k = omega arith
    code_ne configure h k = omega arith
    code_ne connecting h k = omega arith
    code_ne connected h k = h refl
    code_ne errored h k = omega arith
