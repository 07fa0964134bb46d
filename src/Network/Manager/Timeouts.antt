-- ===== src/Network/Manager/Timeouts.antt =====
-- network/manager.go: the time that `Run` gives the interfaces to be detected.
use simpleiot.Prelude.{
  ℕ, zero, suc, ◌+◌, ◌≤◌, ◌<◌, ◌≡◌, refl, ap, ◌∙◌, true, false, some, leb, length, arith, lt→ltb,
  ltb-false,
}
use native.Mathlib.Decide.{dec_lt}
use simpleiot.Prelude.Options.{get_elem?-Returns}
use simpleiot.Network.Manager.{
  not_detected, errored, Drivers, Manager, Run, set_state, next_interface, same_state, state_code,
  overdue, skip_interface, poll, on_state, round, rounds, run, no_status, no_config, seconds,
}

-- No interface is detected, and to ask takes no time.
abbrev pub Absent : {I W : Type 0} → Drivers I W → Type 0
Absent {I} {W} drivers =
    (i : I) (w : W)
    → ((drivers.get_status i w).0.failed ≡ false)
      × ((drivers.get_status i w).0.value.detected ≡ false)
      × (drivers.clock w ≤ drivers.clock (drivers.get_status i w).1)

module _ {I W : Type 0} (drivers : Drivers I W) (absent : Absent drivers) where
  -- The manager waits for an interface, for longer than it may.
  record Late (r : Run I W) : Type 0 where
    waiting : r.manager.state ≡ not_detected
    in_range : r.manager.interface_index < length r.manager.interfaces
    late : r.manager.state_start + seconds 15 < drivers.clock r.world

  -- The manager has given up.
  abbrev GivenUp : Run I W → Type 0
  GivenUp r =
      (r.manager.state ≡ errored)
      × (r.manager.interface_index ≡ 0)
      × (r.manager.state_start ≡ drivers.clock r.world)

  -- What `poll` leaves, for the interface `i`
  abbrev polled : I → Run I W → Run I W
  polled i r = let (o, w) = drivers.get_status i r.world in record r { status = o.value; world = w }

  poll_absent : (r : Run I W) → Late r → (i : I) × (poll drivers r ≡ some (polled i r, false))
  unfolding poll
  poll_absent r h =
      let (i, e) = get_elem?-Returns r.manager.interfaces r.manager.interface_index h.in_range in
      let l = some_there (length r.manager.interfaces) r.manager.interface_index h.in_range in
      (i, rw (l, e, (absent i r.world).0) refl)
    where
      some_there : (n k : ℕ) → k < n → leb n 0 ≡ false
      some_there n k h = ground arith

  on_state-Late :
      (i : I) (r : Run I W)
      → Late r
      → on_state drivers not_detected (polled i r)
        ≡ some (skip_interface drivers (polled i r), true)
  unfolding on_state overdue
  on_state-Late i r h =
      let later : r.manager.state_start + seconds 15 < drivers.clock (polled i r).world =
        omega (arith, h.late, (absent i r.world).2) in
      rw ((absent i r.world).1, lt→ltb _ _ later) refl

  -- One round skips the interface.
  round-Late :
      (r : Run I W)
      → Late r
      → (i : I) × (round drivers r ≡ some (skip_interface drivers (polled i r), true))
  unfolding round same_state state_code
  round-Late r h =
      let (i, e) = poll_absent r h in
      (
        i,
        rw (ap (λ t. same_state t errored) h.waiting, e)
            (ap (λ t. on_state drivers t (polled i r)) h.waiting ∙ on_state-Late i r h),
      )

  -- Another interface inherits the time that has passed.
  skip_more :
      (i : I) (r : Run I W)
      → Late r
      → r.manager.interface_index + 1 < length r.manager.interfaces
      → (skip_interface drivers (polled i r)).manager
        ≡ record r.manager { interface_index = r.manager.interface_index + 1 }
  unfolding skip_interface next_interface set_state state_code same_state
  skip_more i r h more =
      rw
        (
          below (length r.manager.interfaces) (r.manager.interface_index + 1) more,
          ap (λ t. same_state not_detected t) h.waiting,
        )
        refl
    where
      below : (n k : ℕ) → k < n → leb n k ≡ false
      below n k l = ground arith

  skip_last :
      (i : I) (r : Run I W)
      → Late r
      → r.manager.interface_index + 1 ≡ length r.manager.interfaces
      → GivenUp (skip_interface drivers (polled i r))
  unfolding skip_interface next_interface set_state state_code same_state
  skip_last i r h e =
      rw
        (
          reached (length r.manager.interfaces) (r.manager.interface_index + 1) e,
          ap (λ t. same_state errored t) h.waiting,
        )
        (refl, refl, refl)
    where
      reached : (n k : ℕ) → k ≡ n → leb n k ≡ true
      reached n k l = ground arith

  rounds-GivenUp : (n : ℕ) (r : Run I W) → GivenUp r → rounds drivers n r ≡ some r
  unfolding rounds round on_state overdue same_state state_code
  rounds-GivenUp zero r (s, k, t) =
      rw (ltb-false (r.manager.state_start + seconds 15) (drivers.clock r.world) (omega (arith, t)))
        refl
  rounds-GivenUp (suc n) r (s, k, t) =
      rw
        (
          s,
          ltb-false (r.manager.state_start + seconds 60) (drivers.clock r.world) (omega (arith, t)),
        )
        refl

  skip_more-Late :
      (i : I) (r : Run I W)
      → Late r
      → r.manager.interface_index + 1 < length r.manager.interfaces
      → Late (skip_interface drivers (polled i r))
  unfolding skip_interface
  skip_more-Late i r h more =
      let e = skip_more i r h more in
      record {
        waiting = ap (λ m. m.state) e ∙ h.waiting;
        in_range = omega (arith, ap (λ m. m.interface_index) e, ap (λ m. length m.interfaces) e);
        late = omega (arith, ap (λ m. m.state_start) e, h.late, (absent i r.world).2);
      }

  bound :
      (i : I) (r : Run I W)
      → Late r
      → r.manager.interface_index + 1 < length r.manager.interfaces
      → (n : ℕ) → length r.manager.interfaces ≤ r.manager.interface_index + suc n
      → let r' = skip_interface drivers (polled i r) in
        length r'.manager.interfaces ≤ r'.manager.interface_index + n
  bound i r h more n b =
      let e = skip_more i r h more in
      omega (arith, ap (λ m. m.interface_index) e, ap (λ m. length m.interfaces) e)

  rounds_again :
      (n : ℕ) (r r' : Run I W)
      → round drivers r ≡ some (r', true)
      → rounds drivers (suc n) r ≡ rounds drivers n r'
  unfolding rounds
  rounds_again n r r' e = rw e refl

  rounds-Late :
      (n : ℕ) (r : Run I W)
      → Late r
      → length r.manager.interfaces ≤ r.manager.interface_index + n
      → (r' : Run I W) × (rounds drivers n r ≡ some r') × (GivenUp r')
  rounds-Late zero r h b = absurd (omega (arith, h.in_range))
  rounds-Late (suc n) r h b =
      let (i, e) = round-Late r h in
      let r' = skip_interface drivers (polled i r) in
      elim (dec_lt (r.manager.interface_index + 1) (length r.manager.interfaces)) [
        | yes more ↦
            let (r'', e', g) =
              rounds-Late n r' (skip_more-Late i r h more) (bound i r h more n b) in
            (r'', rounds_again n r r' e ∙ e', g)
        | no last ↦
            let g = skip_last i r h (omega (arith, h.in_range, last)) in
            (r', rounds_again n r r' e ∙ rounds-GivenUp n r' g, g)
      ]

-- Only the first interface has the 15 seconds: if no interface is detected, to ask takes no time, the
-- manager has waited in `not_detected` for more than 15 seconds, and at most 10 interfaces are
-- left from its index, which is in range, then `Run` skips all of them at once: it returns in the state `errored`, with the index 0 and a wait
-- that starts at the present time.
pub run-errored :
    {I W : Type 0} (drivers : Drivers I W) (m : Manager I) (w : W)
    → Absent drivers
    → m.state ≡ not_detected
    → m.interface_index < length m.interfaces
    → length m.interfaces ≤ m.interface_index + 10
    → m.state_start + seconds 15 < drivers.clock w
    → (r : Run I W) × (run drivers m w ≡ some r)
      × (r.manager.state ≡ errored)
      × (r.manager.interface_index ≡ 0)
      × (r.manager.state_start ≡ drivers.clock r.world)
unfolding run
run-errored {I} {W} drivers m w absent e i l t =
    let start : Run I W = record {
      manager = m;
      config = no_config;
      status = no_status;
      world = w;
    } in
    let (r, k, (s, j, u)) =
      rounds-Late drivers absent 10 start (record { waiting = e; in_range = i; late = t }) l in
    (r, k, s, j, u)
