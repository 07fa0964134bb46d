-- ===== src/Network/Manager/Progress.antt =====
-- network/manager.go: `Run` comes to say that the network is connected.
use simpleiot.Prelude.{
  ℕ, suc, ◌≡◌, refl, ap, ◌∙◌, Bool, true, false, List, [], ◌∷◌, some, leb, length, get_elem?, arith,
}
use simpleiot.Network.Manager.{
  State, not_detected, configure, connecting, connected, errored, Drivers, Manager, Run, set_state,
  same_state, state_code, enter, poll, configure_once, try_configure, on_state, round, rounds, run,
  no_status, no_config,
}

-- The interface that is tried is there, can be configured and gets a connection, in every world.
abbrev pub Works : {I W : Type 0} → Drivers I W → I → Type 0
Works {W = W} drivers i =
    (w : W)
    → ((drivers.get_status i w).0.failed ≡ false)
      × ((drivers.get_status i w).0.value.detected ≡ true)
      × ((drivers.get_status i w).0.value.is_connected ≡ true)
      × ((drivers.do_configure i w).0.failed ≡ false)

some-length :
    {I : Type 0} (xs : List I) (k : ℕ) (i : I) → get_elem? xs k ≡ some i → leb (length xs) 0 ≡ false
some-length [] k i h = cc
some-length (x ∷ xs) k i h = ground arith

module _ {I W : Type 0} (drivers : Drivers I W) (i : I) (works : Works drivers i) where
  -- The manager tries the interface.
  abbrev Tries : Run I W → Type 0
  Tries r =
      (get_elem? r.manager.interfaces r.manager.interface_index ≡ some i)
      × (leb (length r.manager.interfaces) 0 ≡ false)

  -- What `poll` leaves
  abbrev polled : Run I W → Run I W
  polled r = let (o, w) = drivers.get_status i r.world in record r { status = o.value; world = w }

  abbrev configured : Run I W → Run I W
  configured r =
      let (o, w) = drivers.do_configure i r.world in record r { config = o.value; world = w }

  poll_works : (r : Run I W) → Tries r → poll drivers r ≡ some (polled r, false)
  unfolding poll
  poll_works r (e, l) = rw (l, e, (works r.world).0)

  configure_works : (r : Run I W) → Tries r → configure_once drivers r ≡ some (configured r, false)
  unfolding configure_once
  configure_works r (e, l) = rw (l, e, (works r.world).3)

  -- One round takes the manager to the state, still trying the interface.
  abbrev Moves : Run I W → State → Bool → Type 0
  Moves r s more =
      (r' : Run I W) × (round drivers r ≡ some (r', more)) × ((r'.manager.state ≡ s) × Tries r')

  enter-Moves :
      (r : Run I W) (s t : State)
      → r.manager.state ≡ t
      → same_state s t ≡ false
      → Tries r
      → ((enter drivers s r).manager.state ≡ s) × Tries (enter drivers s r)
  unfolding enter set_state
  enter-Moves r s t e d h = rw (e, d) (refl, h)

  round-polled :
      (r : Run I W) (s : State)
      → r.manager.state ≡ s
      → same_state s errored ≡ false
      → Tries r
      → round drivers r ≡ on_state drivers s (polled r)
  unfolding round
  round-polled r s e d h =
      rw (ap (λ t. same_state t errored) e ∙ d, poll_works r h)
        (ap (λ t. on_state drivers t (polled r)) e)

  detect-Moves : (r : Run I W) → r.manager.state ≡ not_detected → Tries r → Moves r configure true
  unfolding on_state state_code same_state
  detect-Moves r e h = (
    enter drivers configure (polled r),
    round-polled r not_detected e refl h ∙ rw ((works r.world).1) refl,
    enter-Moves (polled r) configure not_detected e refl h,
  )

  configure-Moves : (r : Run I W) → r.manager.state ≡ configure → Tries r → Moves r connecting false
  unfolding on_state state_code try_configure same_state
  configure-Moves r e h = (
    enter drivers connecting (configured (polled r)),
    round-polled r configure e refl h ∙ rw (configure_works (polled r) h) refl,
    enter-Moves (configured (polled r)) connecting configure e refl h,
  )

  connecting-Moves :
      (r : Run I W) → r.manager.state ≡ connecting → Tries r → Moves r connected false
  unfolding on_state state_code same_state
  connecting-Moves r e h = (
    enter drivers connected (polled r),
    round-polled r connecting e refl h ∙ rw ((works r.world).2) refl,
    enter-Moves (polled r) connected connecting e refl h,
  )

  rounds_last :
      (n : ℕ) (r r' : Run I W)
      → round drivers r ≡ some (r', false)
      → rounds drivers (suc n) r ≡ some r'
  unfolding rounds
  rounds_last n r r' e = rw e refl

  rounds_more :
      (n : ℕ) (r r' : Run I W)
      → round drivers r ≡ some (r', true)
      → rounds drivers (suc n) r ≡ rounds drivers n r'
  unfolding rounds
  rounds_more n r r' e = rw e refl

-- Two calls bring up an interface that works: if the manager is in the state `not_detected`, the
-- interface at its index always has a status without an error that says detected and connected,
-- and is always configured without an error, then `Run` returns, and `Run` again returns in the state
-- `connected`.
pub run-run-connected :
    {I W : Type 0} (drivers : Drivers I W) (m : Manager I) (w : W) (i : I)
    → Works drivers i
    → m.state ≡ not_detected
    → get_elem? m.interfaces m.interface_index ≡ some i
    → (r r' : Run I W) × (run drivers m w ≡ some r)
      × (run drivers r.manager r.world ≡ some r')
      × (r'.manager.state ≡ connected)
unfolding run
run-run-connected {I} {W} drivers m w i works e h =
    let start : Run I W = record {
      manager = m;
      config = no_config;
      status = no_status;
      world = w;
    } in
    let (r1, e1, (s1, t1)) =
      detect-Moves drivers i works start e (h, some-length m.interfaces m.interface_index i h) in
    let (r2, e2, (s2, t2)) = configure-Moves drivers i works r1 s1 t1 in
    let again : Run I W = record {
      manager = r2.manager;
      config = no_config;
      status = no_status;
      world = r2.world;
    } in
    let (r3, e3, (s3, t3)) = connecting-Moves drivers i works again s2 t2 in
    (
      r2,
      r3,
      rounds_more drivers i works 9 start r1 e1 ∙ rounds_last drivers i works 8 r1 r2 e2,
      rounds_last drivers i works 9 again r3 e3,
      s3,
    )
