-- ===== src/Network/Manager/Bounds.antt =====
-- network/manager.go: `Run` stays within the interfaces and ends.
use simpleiot.Prelude.{
  ℕ, zero, suc, ◌+◌, ◌-◌, ◌≤◌, ◌<◌, ◌≡◌, refl, ap, ◌∙◌, Bool, true, false, not, List, Option, some,
  leb, if◌then◌else◌, length, get_elem?, Bool-cases, inl, inr, arith,
}
use simpleiot.Prelude.Options.{
  ◌>>=◌, Ensures, bind-Ensures, Ensures-Returns, if_Ensures, get_elem?-Returns,
}
use simpleiot.Network.Manager.{
  State, not_detected, configure, connecting, connected, errored, Drivers, Manager, Run, set_state,
  next_interface, same_state, overdue, enter, skip_interface, poll, configure_once, connect_once,
  try_configure, on_state, round, rounds, run, reset_all, no_status, no_config, seconds,
}

-- The index is that of an interface, or 0 where there are none (`-` stops at 0).
abbrev pub IsValid : {I : Type 0} → Manager I → Type 0
IsValid m = m.interface_index ≤ length m.interfaces - 1

set_state-kept :
    {I : Type 0} (now : ℕ) (s : State) (m : Manager I)
    → ((set_state now s m).interface_index ≡ m.interface_index)
      × ((set_state now s m).interfaces ≡ m.interfaces)
unfolding set_state
set_state-kept now s m = elim (Bool-cases (same_state s m.state)) [
  | inl t ↦ rw t (refl, refl)
  | inr t ↦ rw t (refl, refl)
]

set_state-IsValid :
    {I : Type 0} (now : ℕ) (s : State) (m : Manager I) → IsValid m → IsValid (set_state now s m)
set_state-IsValid now s m v = let (i, l) = set_state-kept now s m in omega (arith, i, ap length l)

next_interface-IsValid : {I : Type 0} (now : ℕ) (m : Manager I) → IsValid (next_interface now m)
unfolding next_interface
next_interface-IsValid now m =
    elim (Bool-cases (leb (length m.interfaces) (m.interface_index + 1))) [
      | inl t ↦
          rw t (set_state-IsValid now errored (record m { interface_index = 0 }) (omega arith))
      | inr t ↦ rw t (
          set_state-IsValid now not_detected (record m { interface_index = m.interface_index + 1 })
            (within (length m.interfaces) m.interface_index t))
    ]
  where
    within : (n i : ℕ) → leb n (i + 1) ≡ false → i + 1 ≤ n - 1
    within n i t = ground arith

next_interface-kept :
    {I : Type 0} (now : ℕ) (m : Manager I) → (next_interface now m).interfaces ≡ m.interfaces
unfolding next_interface
next_interface-kept now m = elim (Bool-cases (leb (length m.interfaces) (m.interface_index + 1))) [
  | inl t ↦ rw t ((set_state-kept now errored (record m { interface_index = 0 })).1)
  | inr t ↦
      rw t
        ((set_state-kept now not_detected (record m { interface_index = m.interface_index + 1 })).1)
]

module _ {I W : Type 0} (drivers : Drivers I W) (list : List I) where
  -- The manager has these interfaces and a valid index.
  abbrev Good : Manager I → Type 0
  Good m = IsValid m × (m.interfaces ≡ list)

  abbrev GoodRun : Run I W → Type 0
  GoodRun r = Good r.manager

  abbrev GoodStep : Run I W × Bool → Type 0
  GoodStep s = Good ((s.0).manager)

  enter-Good : (s : State) (r : Run I W) → GoodRun r → GoodRun (enter drivers s r)
  unfolding enter
  enter-Good s r (v, e) =
      let now = drivers.clock r.world in
      (set_state-IsValid now s r.manager v, (set_state-kept now s r.manager).1 ∙ e)

  skip-Good : (r : Run I W) → GoodRun r → GoodRun (skip_interface drivers r)
  unfolding skip_interface
  skip-Good r (v, e) =
      let now = drivers.clock r.world in
      (next_interface-IsValid now r.manager, next_interface-kept now r.manager ∙ e)

  -- An interface at a valid index is there.
  at_index :
      {B : Type 0} (m : Manager I) (P : B → Type 0) (none_left : Option B) (f : I → Option B)
      → IsValid m
      → Ensures P none_left
      → ((i : I) → Ensures P (f i))
      → Ensures P (
          if leb (length m.interfaces) 0
          then none_left
          else (get_elem? m.interfaces m.interface_index >>= f))
  at_index m P none_left f v h k = elim (Bool-cases (leb (length m.interfaces) 0)) [
    | inl t ↦ rw t h
    | inr t ↦
        let (i, e) =
          get_elem?-Returns m.interfaces m.interface_index
            (below (length m.interfaces) m.interface_index t v) in
        rw (t, e) (k i)
  ]
    where
      below : (n j : ℕ) → leb n 0 ≡ false → j ≤ n - 1 → j < n
      below n j t v = ground arith

  poll-Good : (r : Run I W) → GoodRun r → Ensures GoodStep (poll drivers r)
  unfolding poll
  poll-Good r g = at_index r.manager GoodStep _ _ (g.0) g (λ i. g)

  configure_once-Good : (r : Run I W) → GoodRun r → Ensures GoodStep (configure_once drivers r)
  unfolding configure_once
  configure_once-Good r g = at_index r.manager GoodStep _ _ (g.0) g (λ i. g)

  connect_once-Good : (r : Run I W) → GoodRun r → Ensures GoodRun (connect_once drivers r)
  unfolding connect_once
  connect_once-Good r g = at_index r.manager GoodRun _ _ (g.0) g (λ i. g)

  try_configure-Good :
      (n : ℕ) (r : Run I W) → GoodRun r → Ensures GoodStep (try_configure drivers n r)
  unfolding try_configure
  try_configure-Good zero r g = g
  try_configure-Good (suc n) r g =
      bind-Ensures GoodStep GoodStep (configure_once drivers r) _ (configure_once-Good r g)
        (λ (r', failed) h. if_Ensures GoodStep failed _ _ (try_configure-Good n r' h) h)

  on_state-Good : (s : State) (r : Run I W) → GoodRun r → Ensures GoodStep (on_state drivers s r)
  unfolding on_state
  on_state-Good not_detected r g =
      if_Ensures GoodStep r.status.detected _ _ (enter-Good configure r g)
        (if_Ensures GoodStep (overdue drivers (seconds 15) r) _ _ (skip-Good r g) g)
  on_state-Good configure r g =
      bind-Ensures GoodStep GoodStep (try_configure drivers 3 r) _ (try_configure-Good 3 r g)
        (λ (r', done) h. if_Ensures GoodStep done _ _ (enter-Good connecting r' h) (skip-Good r' h))
  on_state-Good connecting r g =
      if_Ensures GoodStep r.status.is_connected _ _ (enter-Good connected r g) (
        if_Ensures GoodStep (overdue drivers (seconds 60) r) _ _ (skip-Good r g) (
          bind-Ensures GoodRun GoodStep (connect_once drivers r) _ (connect_once-Good r g)
            (λ r' h. h)))
  on_state-Good connected r g =
      if_Ensures GoodStep (not r.status.is_connected) _ _ (enter-Good connecting r g) g
  on_state-Good errored r g =
      let r' = record r { world = reset_all drivers r.manager.interfaces r.world } in
      if_Ensures GoodStep (overdue drivers (seconds 60) r) _ _ (enter-Good not_detected r' g) g

  round-Good : (r : Run I W) → GoodRun r → Ensures GoodStep (round drivers r)
  unfolding round
  round-Good r g =
      if_Ensures GoodStep (same_state r.manager.state errored) _ _
        (on_state-Good r.manager.state r g)
        (bind-Ensures GoodStep GoodStep (poll drivers r) _ (poll-Good r g) (λ (r', failed) h.
          if_Ensures GoodStep failed _ _ h (on_state-Good r'.manager.state r' h)))

  rounds-Good : (n : ℕ) (r : Run I W) → GoodRun r → Ensures GoodRun (rounds drivers n r)
  unfolding rounds
  rounds-Good zero r g = last (overdue drivers (seconds 15) r)
    where
      last : (late : Bool) → GoodRun (if late then skip_interface drivers r else r)
      last true = skip-Good r g
      last false = g
  rounds-Good (suc n) r g =
      bind-Ensures GoodStep GoodRun (round drivers r) _ (round-Good r g)
        (λ (r', more) h. if_Ensures GoodRun more _ _ (rounds-Good n r' h) h)

-- `Run` ends without an index out of range, whatever the interfaces answer: if the index is that of an
-- interface, or 0 where there are none, `Run` returns, its manager has the same interfaces, and
-- again an index of an interface, or 0 where there are none.
pub run-IsValid :
    {I W : Type 0} (drivers : Drivers I W) (m : Manager I) (w : W)
    → IsValid m
    → (r : Run I W) × (run drivers m w ≡ some r)
      × (IsValid r.manager × (r.manager.interfaces ≡ m.interfaces))
unfolding run
run-IsValid drivers m w v =
    Ensures-Returns (λ r. IsValid r.manager × (r.manager.interfaces ≡ m.interfaces))
      (rounds drivers 10
        (record { manager = m; config = no_config; status = no_status; world = w }))
      (rounds-Good drivers m.interfaces 10
        (record { manager = m; config = no_config; status = no_status; world = w }) (v, refl))
