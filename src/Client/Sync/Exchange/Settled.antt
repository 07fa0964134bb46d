-- ===== src/Client/Sync/Exchange/Settled.antt =====
-- client/sync.go, `syncNode`: what the exchange of points makes of the readings of both stores.
use simpleiot.Prelude.{
  ℕ, ◌≡◌, refl, sym, ap, ◌∙◌, Bool, true, false, List, [], ◌∷◌, map, Option, none, some, ltb, leb,
  All, arith, Bool-cases, inl, inr, if_eq_true, if_eq_false,
}
use simpleiot.Data.Point.{Point}
use simpleiot.Data.Points.Same.{same, same-subst}
use simpleiot.Client.Sync.Exchange.{
  to_local, compare_times, local_point, local_loop, remote_loop, exchange,
}
use simpleiot.Client.Sync.Exchange.Readings.{
  reading, take_newer, Readings, arrive, arrive_all, settled, IsDistinct, IsTyped,
}
use simpleiot.Client.Sync.Exchange.Matches.{
  arrive_all-append, status, status-map, status-distinct, unmark, unmarked, unmark-local_point,
  local_point-other, local_point-same, all_effect, all_marked,
}

reading-distinct :
    (b p : Point) (ps : List Point)
    → same b p ≡ true
    → All (λ q. same p q ≡ false) ps
    → reading b ps ≡ none
unfolding reading
reading-distinct b p [] h d = refl
reading-distinct b p (q ∷ ps) h d =
    if_eq_false _ _ (same-subst b p q h ∙ d.0) ∙ reading-distinct b p ps h d.1

reading-same : (b p : Point) (ps : List Point) → reading b ps ≡ some p → same b p ≡ true
unfolding reading
reading-same b p [] e = absurd (cc)
reading-same b p (q ∷ ps) e = elim (Bool-cases (same b q)) [
  | inl t ↦
      let k : q ≡ p = point_eq q p (sym (if_eq_true (some q) (reading b ps) t) ∙ e) in
      ap (same b) (sym k) ∙ t
  | inr t ↦ reading-same b p ps (sym (if_eq_false (some q) (reading b ps) t) ∙ e)
]
  where
    point_eq : (q p : Point) → some q ≡ some p → q ≡ p
    point_eq q p h = cc

module _ (b : Point) where
  unmark-map : (us : List Point) → unmark b (map (λ p. (false, p)) us) ≡ us
  unmark-map [] = refl
  unmark-map (u ∷ us) = ap (λ (x : List Point). u ∷ x) (unmark-map us)

  -- The loop over the local points
  local_loop-effect :
      (ps : List Point) (us : List (Bool × Point)) (r : Readings)
      → IsDistinct ps
      → IsTyped (unmark b us)
      → IsDistinct (unmark b us)
      → (arrive_all b (local_loop ps us).0 r ≡ all_effect b (reading b ps) (status b us) r)
        × (status b (local_loop ps us).1 ≡ all_marked b (reading b ps) (status b us))
  unfolding local_loop arrive_all reading
  local_loop-effect [] us r dp y d = (refl, refl)
  local_loop-effect (p ∷ ps) us r dp y d =
      let us' = (local_point p us).1 in
      let (ar, st) =
        local_loop-effect ps us' (arrive_all b (local_point p us).0 r) dp.1
          (rw (unmark-local_point b p us) y) (rw (unmark-local_point b p us) d) in
      elim (Bool-cases (same b p)) [
        | inl t ↦
            let none_left = reading-distinct b p ps t dp.0 in
            let (ar', st') = local_point-same b p us r (status b us) t y d refl in
            rw t (
              arrive_all-append b (local_point p us).0 (local_loop ps us').0 r
                  ∙ ar
                  ∙ ap
                      (λ (x : Option Point).
                        all_effect b x (status b us') (arrive_all b (local_point p us).0 r))
                      none_left
                  ∙ ar',
              st ∙ ap (λ (x : Option Point). all_marked b x (status b us')) none_left ∙ st',
            )
        | inr t ↦
            let (ar', st') = local_point-other b p us r t y in
            rw t (
              arrive_all-append b (local_point p us).0 (local_loop ps us').0 r
                  ∙ ar
                  ∙ ap
                      (λ (x : Option (Bool × Point)).
                        all_effect b (reading b ps) x (arrive_all b (local_point p us).0 r))
                      st'
                  ∙ ap (all_effect b (reading b ps) (status b us)) ar',
              st ∙ ap (all_marked b (reading b ps)) st',
            )
      ]

  -- The loop over the remote points that do not exist locally
  abbrev remote_effect : Option (Bool × Point) → Readings → Readings
  remote_effect none r = r
  remote_effect (some (true, u)) r = r
  remote_effect (some (false, u)) r = arrive b (to_local u) r

  arrive-apart : (u : Point) (r : Readings) → same b u ≡ false → arrive b (to_local u) r ≡ r
  unfolding arrive
  arrive-apart u r h = rw h refl

  remote_loop-effect :
      (us : List (Bool × Point)) (r : Readings)
      → IsDistinct (unmark b us)
      → arrive_all b (remote_loop us) r ≡ remote_effect (status b us) r
  unfolding remote_loop arrive_all
  remote_loop-effect [] r d = refl
  remote_loop-effect ((true, u) ∷ us) r d = elim (Bool-cases (same b u)) [
    | inl t ↦ rw t (
        remote_loop-effect us r d.1
        ∙ ap (λ (x : Option (Bool × Point)). remote_effect x r) (status-distinct b u us t d.0))
    | inr t ↦ rw t (remote_loop-effect us r d.1)
  ]
  remote_loop-effect ((false, u) ∷ us) r d = elim (Bool-cases (same b u)) [
    | inl t ↦ rw t (
        remote_loop-effect us (arrive b (to_local u) r) d.1
        ∙ ap (λ (x : Option (Bool × Point)). remote_effect x (arrive b (to_local u) r))
            (status-distinct b u us t d.0))
    | inr t ↦ rw t (
        remote_loop-effect us (arrive b (to_local u) r) d.1
        ∙ ap (remote_effect (status b us)) (arrive-apart u r t))
  ]

  unmark-local_loop :
      (ps : List Point) (us : List (Bool × Point)) → unmark b (local_loop ps us).1 ≡ unmark b us
  unfolding local_loop
  unmark-local_loop [] us = refl
  unmark-local_loop (p ∷ ps) us =
      unmark-local_loop ps (local_point p us).1 ∙ unmark-local_point b p us

  abbrev before : Option Point → Option Point → Readings
  before l u = record { local = l; remote = u }

  leb-ltb : (m n : ℕ) → ltb m n ≡ true → leb m n ≡ true
  leb-ltb m n h = ground arith

  compared :
      (p u : Point)
      → same b p ≡ true
      → same b u ≡ true
      → arrive_all b (compare_times p u) (before (some p) (some u)) ≡ settled (some p) (some u)
  unfolding compare_times arrive_all arrive take_newer settled
  compared p u h k = elim (Bool-cases (ltb u.time p.time)) [
    | inl t ↦ rw (t, h, leb-ltb u.time p.time t) refl
    | inr t ↦ elim (Bool-cases (ltb p.time u.time)) [
      | inl t' ↦ rw (t, t', k, leb-ltb p.time u.time t') refl
      | inr t' ↦ rw (t, t') refl
    ]
  ]

  -- The effect of both loops on the readings
  effect-settled :
      (l u : Option Point)
      → ((p : Point) → l ≡ some p → same b p ≡ true)
      → ((p : Point) → u ≡ some p → same b p ≡ true)
      → remote_effect (all_marked b l (unmarked b u)) (all_effect b l (unmarked b u) (before l u))
        ≡ settled l u
  unfolding settled arrive take_newer
  effect-settled none none h k = refl
  effect-settled none (some u) h k = rw (k u refl) refl
  effect-settled (some p) none h k = rw (h p refl) refl
  effect-settled (some p) (some u) h k = compared p u (h p refl) (k u refl)

  -- A synchronisation settles all readings: whatever type and key a reader asks for, after the
  -- points that `syncNode` sends have arrived both stores have the newer of the two points that
  -- they had, or the only one; two points of the same time stay as they were. The points of each
  -- store differ in type or key, and no remote point has the empty type.
  pub exchange-settled :
      (points points_up : List Point)
      → IsDistinct points
      → IsDistinct points_up
      → IsTyped points_up
      → arrive_all b
          (exchange points points_up)
          (record { local = reading b points; remote = reading b points_up })
        ≡ settled (reading b points) (reading b points_up)
  unfolding exchange
  exchange-settled ps us d d' y =
      let marks = map (λ (p : Point). (false, p)) us in
      let r = before (reading b ps) (reading b us) in
      let (ar, st) =
        local_loop-effect ps marks r d (rw (unmark-map us) y) (rw (unmark-map us) d') in
      arrive_all-append b (local_loop ps marks).0 (remote_loop (local_loop ps marks).1) r
      ∙ remote_loop-effect (local_loop ps marks).1 (arrive_all b (local_loop ps marks).0 r)
          (rw (unmark-local_loop ps marks, unmark-map us) d')
      ∙ ap (λ (x : Readings). remote_effect (status b (local_loop ps marks).1) x) ar
      ∙ ap
          (λ (x : Option (Bool × Point)).
            remote_effect x (all_effect b (reading b ps) (status b marks) r))
          st
      ∙ ap
          (λ (x : Option (Bool × Point)).
            remote_effect (all_marked b (reading b ps) x) (all_effect b (reading b ps) x r))
          (status-map b us)
      ∙ effect-settled (reading b ps) (reading b us) (λ p e. reading-same b p ps e)
          (λ p e. reading-same b p us e)
