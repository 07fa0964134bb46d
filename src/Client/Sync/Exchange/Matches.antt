-- ===== src/Client/Sync/Exchange/Matches.antt =====
-- client/sync.go, `syncNode`: what one local point does to the readings of both stores.
use simpleiot.Prelude.{
  ◌≡◌, refl, sym, ap, ◌∙◌, Bool, true, false, List, [], ◌∷◌, ◌++◌, map, Option, none, some,
  if◌then◌else◌, ltb, All, Bool-cases, inl, inr, if_eq_true, if_eq_false,
}
use simpleiot.Data.Point.{Point, is_match}
use simpleiot.Data.Points.Same.{same, same-subst, same-subst_right, is_match-same}
use simpleiot.Client.Sync.Exchange.{Transfer, to_remote, compare_times, match_loop, local_point}
use simpleiot.Client.Sync.Exchange.Readings.{
  reading, Readings, arrive, arrive_all, IsDistinct, IsTyped,
}

same_point :
    (n m : Bool) (q u : Point) → ◌≡◌ {A = Option (Bool × Point)} (some (n, q)) (some (m, u)) → q ≡ u
same_point n m q u h = cc

module _ (b : Point) where
  pub arrive_all-append :
      (ts us : List Transfer) (r : Readings)
      → arrive_all b (ts ++ us) r ≡ arrive_all b us (arrive_all b ts r)
  unfolding arrive_all
  arrive_all-append [] us r = refl
  arrive_all-append (t ∷ ts) us r = arrive_all-append ts us (arrive b t r)

  -- The first remote point that is like `b`, with its mark
  abbrev pub status : List (Bool × Point) → Option (Bool × Point)
  status [] = none
  status ((m, u) ∷ us) = if same b u then some (m, u) else status us

  abbrev pub unmarked : Option Point → Option (Bool × Point)
  unmarked none = none
  unmarked (some p) = some (false, p)

  pub status-map : (us : List Point) → status (map (λ p. (false, p)) us) ≡ unmarked (reading b us)
  unfolding reading
  status-map [] = refl
  status-map (u ∷ us) = elim (Bool-cases (same b u)) [
    | inl t ↦ rw t refl
    | inr t ↦ rw t (status-map us)
  ]

  -- The points of a list with marks
  abbrev pub unmark : List (Bool × Point) → List Point
  unmark us = map (λ e. e.1) us

  arrive-other : (t : Point) (r : Readings) → same b t ≡ false → arrive b (to_remote t) r ≡ r
  unfolding arrive
  arrive-other t r h = rw h refl

  compare-other :
      (p u : Point) (r : Readings)
      → same b p ≡ false
      → same b u ≡ false
      → arrive_all b (compare_times p u) r ≡ r
  unfolding compare_times arrive_all arrive
  compare-other p u r h a = elim (Bool-cases (ltb u.time p.time)) [
    | inl t ↦ rw (t, h) refl
    | inr t ↦ elim (Bool-cases (ltb p.time u.time)) [
      | inl t' ↦ rw (t, t', a) refl
      | inr t' ↦ rw (t, t') refl
    ]
  ]

  -- A local point of another type or key
  match_loop-other :
      (p : Point) (us : List (Bool × Point)) (r : Readings)
      → same b p ≡ false
      → IsTyped (unmark us)
      → (arrive_all b (match_loop p us).0 r ≡ r) × (status (match_loop p us).2 ≡ status us)
  unfolding match_loop arrive_all
  match_loop-other p [] r h y = (refl, refl)
  match_loop-other p ((m, u) ∷ us) r h y =
      let (ar, st) = match_loop-other p us r h y.1 in
      elim (Bool-cases (same p u)) [
        | inl t ↦
            let apart : same b u ≡ false = sym (same-subst_right b p u t) ∙ h in
            rw (is_match-same p u y.0, t)
              (
                arrive_all-append (compare_times p u) (match_loop p us).0 r
                    ∙ ap (arrive_all b (match_loop p us).0) (compare-other p u r h apart)
                    ∙ ar,
                rw apart st,
              )
        | inr t ↦
            rw (is_match-same p u y.0, t)
              (ar, ap (λ (x : Option (Bool × Point)). if same b u then some (m, u) else x) st)
      ]

  -- A local point of the same type and key, without a remote one
  match_loop-none :
      (p : Point) (us : List (Bool × Point))
      → same b p ≡ true
      → IsTyped (unmark us)
      → status us ≡ none
      → match_loop p us ≡ ([], false, us)
  unfolding match_loop
  match_loop-none p [] h y e = refl
  match_loop-none p ((m, u) ∷ us) h y e = elim (Bool-cases (same b u)) [
    | inl t ↦ let k = sym (if_eq_true (some (m, u)) (status us) t) ∙ e in absurd (cc)
    | inr t ↦
        let k = sym (if_eq_false (some (m, u)) (status us) t) ∙ e in
        rw (is_match-same p u y.0, sym (same-subst b p u h), t, match_loop-none p us h y.1 k) refl
  ]

  pub status-distinct :
      (u : Point) (us : List (Bool × Point))
      → same b u ≡ true
      → All (λ q. same u q ≡ false) (unmark us)
      → status us ≡ none
  status-distinct u [] h d = refl
  status-distinct u ((m, q) ∷ us) h d =
      if_eq_false _ _ (same-subst b u q h ∙ d.0) ∙ status-distinct u us h d.1

  -- A local point of the same type and key, with a remote one
  match_loop-some :
      (p : Point) (us : List (Bool × Point)) (m : Bool) (u : Point)
      → same b p ≡ true
      → IsTyped (unmark us)
      → IsDistinct (unmark us)
      → status us ≡ some (m, u)
      → ((match_loop p us).0 ≡ compare_times p u)
        × ((match_loop p us).1 ≡ true)
        × (status (match_loop p us).2 ≡ some (true, u))
  unfolding match_loop
  match_loop-some p [] m u h y d e = absurd (cc)
  match_loop-some p ((n, q) ∷ us) m u h y d e = elim (Bool-cases (same b q)) [
    | inl t ↦
        let k : ◌≡◌ {A = Option (Bool × Point)} (some (n, q)) (some (m, u)) =
          sym (if_eq_true (some (n, q)) (status us) t) ∙ e in
        let k' : q ≡ u = same_point n m q u k in
        rw
          (
            is_match-same p q y.0,
            sym (same-subst b p q h),
            t,
            match_loop-none p us h y.1 (status-distinct q us t d.0),
          )
          (
            append_nil (compare_times p q) ∙ ap (compare_times p) k',
            refl,
            if_eq_true (some (true, q)) (status us) t ∙ ap (λ (x : Point). some (true, x)) k',
          )
    | inr t ↦
        let k = sym (if_eq_false (some (n, q)) (status us) t) ∙ e in
        let (a, c, s) = match_loop-some p us m u h y.1 d.1 k in
        rw (is_match-same p q y.0, sym (same-subst b p q h), t) (a, c, if_eq_false _ _ t ∙ s)
  ]
    where
      append_nil : (xs : List Transfer) → xs ++ [] ≡ xs
      append_nil [] = refl
      append_nil (x ∷ xs) = ap (λ (y : List Transfer). x ∷ y) (append_nil xs)

  unmark-match_loop :
      (p : Point) (us : List (Bool × Point)) → unmark (match_loop p us).2 ≡ unmark us
  unfolding match_loop
  unmark-match_loop p [] = refl
  unmark-match_loop p ((m, u) ∷ us) = elim (Bool-cases (is_match p u.typ u.key)) [
    | inl t ↦ rw t (ap (λ (x : List Point). u ∷ x) (unmark-match_loop p us))
    | inr t ↦ rw t (ap (λ (x : List Point). u ∷ x) (unmark-match_loop p us))
  ]

  pub unmark-local_point :
      (p : Point) (us : List (Bool × Point)) → unmark (local_point p us).1 ≡ unmark us
  unfolding local_point
  unmark-local_point p us = elim (Bool-cases (match_loop p us).1) [
    | inl t ↦ rw t (unmark-match_loop p us)
    | inr t ↦ rw t (unmark-match_loop p us)
  ]

  pub local_point-other :
      (p : Point) (us : List (Bool × Point)) (r : Readings)
      → same b p ≡ false
      → IsTyped (unmark us)
      → (arrive_all b (local_point p us).0 r ≡ r) × (status (local_point p us).1 ≡ status us)
  unfolding local_point arrive_all
  local_point-other p us r h y =
      let (ar, st) = match_loop-other p us r h y in
      elim (Bool-cases (match_loop p us).1) [
        | inl t ↦ rw t (ar, st)
        | inr t ↦ rw t (
          arrive_all-append (match_loop p us).0 (to_remote p ∷ []) r
              ∙ ap (arrive b (to_remote p)) ar
              ∙ arrive-other p r h,
          st,
        )
      ]

  -- What the local point with the type and key of `b` makes of the readings and of the mark
  abbrev pub local_effect : Point → Option (Bool × Point) → Readings → Readings
  local_effect p none r = arrive b (to_remote p) r
  local_effect p (some (m, u)) r = arrive_all b (compare_times p u) r

  abbrev pub marked : Option (Bool × Point) → Option (Bool × Point)
  marked none = none
  marked (some (m, u)) = some (true, u)

  abbrev Hit : Point → List (Bool × Point) → Readings → Option (Bool × Point) → Type 0
  Hit p us r st =
      (arrive_all b (local_point p us).0 r ≡ local_effect p st r)
      × (status (local_point p us).1 ≡ marked st)

  pub local_point-same :
      (p : Point) (us : List (Bool × Point)) (r : Readings) (st : Option (Bool × Point))
      → same b p ≡ true
      → IsTyped (unmark us)
      → IsDistinct (unmark us)
      → status us ≡ st
      → Hit p us r st
  unfolding local_point arrive_all
  local_point-same p us r none h y d e = rw (match_loop-none p us h y e) (refl, e)
  local_point-same p us r (some (m, u)) h y d e =
      let (a, c, s) = match_loop-some p us m u h y d e in rw (c, a) (refl, s)

  abbrev pub all_effect : Option Point → Option (Bool × Point) → Readings → Readings
  all_effect none st r = r
  all_effect (some p) st r = local_effect p st r

  abbrev pub all_marked : Option Point → Option (Bool × Point) → Option (Bool × Point)
  all_marked none st = st
  all_marked (some p) st = marked st
