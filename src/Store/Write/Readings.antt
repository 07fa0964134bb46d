-- ===== src/Store/Write/Readings.antt =====
-- store/sqlite.go, `nodePoints`: what a reader finds after a write.
use mathlib.Core.Path.{subst}
use simpleiot.Prelude.{
  ℕ, ◌+◌, String, ◌≡◌, refl, sym, ap, ◌∙◌, true, false, ◌||◌, ◌==◌, List, [], ◌∷◌, Option, none,
  some, if◌then◌else◌, arith, ltb, All, Bool-cases, ◌⊎◌, inl, inr, if_eq_true, if_eq_false,
}
use simpleiot.Data.Point.{Point}
use simpleiot.Data.Points.{with_defaults}
use simpleiot.Data.Points.Same.{same, same-eq}
use simpleiot.Store.{PointRow, column_form}
use simpleiot.Store.Write.{Plan, match_row, upsert, upsert_all, plan_point, plan_points}
use simpleiot.Store.Write.Hashes.{match-rows_of}
use simpleiot.Store.Write.Planned.Loop.{
  Differ, IsInjective, IsMatchIn, Ready, Ready-insert, Ready-update, Ready-skip,
}
use simpleiot.Store.Write.Rows.{held, held-same, After, held-insert, held-update}

-- The point of a row
abbrev pub content : Option PointRow → Option Point
content none = none
content (some r) = some r.point

-- A reading after a point: a point that is not older replaces the one before.
unfoldable pub newest : Option Point → Point → Option Point
newest none q = some (column_form q)
newest (some p) q = if ltb p.time q.time || p.time == q.time then some (column_form q) else some p

-- The reading of `b` after the points that have its type and key
unfoldable pub received : ℕ → Point → Option Point → List Point → Option Point
received now b old [] = old
received now b old (pin ∷ pins) =
    let q = with_defaults now pin in received now b (if same b q then newest old q else old) pins

module _ (now : ℕ) (uuid : ℕ → String) (injective : IsInjective uuid) (o : String)
    (rows : List PointRow) (b : Point) where
  -- The reading of `b` in a table
  abbrev read : List PointRow → Option Point
  read t = content (held o t b)

  -- The later points find in the table what was read at the start.
  abbrev Agree : List PointRow → List Point → Type 0
  Agree t pins =
      All (λ a. held o t (with_defaults now a) ≡ match_row rows (with_defaults now a)) pins

  -- What one write makes of the reading
  read-After :
      (t t' : List PointRow) (q : Point) (id : String)
      → ((x : Point) → After o q x (held o t' x) id (held o t x))
      → newest (content (held o t q)) q ≡ some (column_form q)
      → read t' ≡ (if same b q then newest (read t) q else read t)
  read-After t t' q id h n = elim (Bool-cases (same b q)) [
    | inl e ↦
        ap content (h b ∙ if_eq_true _ _ e)
        ∙ sym (
            if_eq_true _ _ e
            ∙ ap (λ (x : Option PointRow). newest (content x) q) (held-same o t b q e)
            ∙ n)
    | inr e ↦ ap content (h b ∙ if_eq_false _ _ e) ∙ sym (if_eq_false _ _ e)
  ]

  Agree-After :
      (t t' : List PointRow) (pin : Point) (pins : List Point) (id : String)
      → ((x : Point) → After o (with_defaults now pin) x (held o t' x) id (held o t x))
      → All (λ a. Differ now pin a) pins
      → Agree t pins
      → Agree t' pins
  Agree-After t t' pin [] id h d a = tt
  Agree-After t t' pin (x ∷ pins) id h d a = (
    h (with_defaults now x)
        ∙ if_eq_false _ _ (apart (Bool-cases (same (with_defaults now x) (with_defaults now pin))))
        ∙ a.0,
    Agree-After t t' pin pins id h d.1 a.1,
  )
    where
      apart :
          (same (with_defaults now x) (with_defaults now pin) ≡ true)
            ⊎ (same (with_defaults now x) (with_defaults now pin) ≡ false)
          → same (with_defaults now x) (with_defaults now pin) ≡ false
      apart (inl e) =
          let (ty, k) = same-eq (with_defaults now x) (with_defaults now pin) e in
          absurd (d.0 (sym ty) (sym k))
      apart (inr e) = e

  -- One incoming point, given the rest of the loop
  read-plan_point :
      (t : List PointRow) (k h : ℕ) (pin : Point) (pins : List Point) (m : Option PointRow)
      (rest : ℕ → Plan)
      → Ready now uuid o rows t k (pin ∷ pins)
      → Agree t pins
      → held o t (with_defaults now pin) ≡ m
      → ((t' : List PointRow) (h' : ℕ)
          → Ready now uuid o rows t' (k + 1) pins
          → Agree t' pins
          → read (upsert_all o t' (rest h').writes) ≡ received now b (read t') pins)
      → read (upsert_all o t (plan_point m (uuid k) (with_defaults now pin) h rest).writes)
        ≡ received now b (read t) (pin ∷ pins)
  unfolding plan_point upsert_all received newest
  read-plan_point t k h pin pins none rest y a e ih =
      let q = with_defaults now pin in
      let t' = upsert o t (uuid k) q in
      let after = λ (x : Point). held-insert o q x t (uuid k) (y.fresh k (omega arith)) e in
      ih t' _ (Ready-insert now uuid injective o rows o t k pin pins y)
        (Agree-After t t' pin pins (uuid k) after y.distinct.0 a)
      ∙ ap (λ (x : Option Point). received now b x pins)
          (read-After t t' q (uuid k) after (ap (λ (x : Option PointRow). newest (content x) q) e))
  read-plan_point t k h pin pins (some r) rest y a e ih =
      let q = with_defaults now pin in
      let t' = upsert o t r.id q in
      let after = λ (x : Point). held-update o q x t r y.unique e in
      elim (Bool-cases (ltb r.point.time q.time || r.point.time == q.time)) [
        | inl n ↦ rw n (
            ih t' _
              (Ready-update now uuid injective o rows o t k pin pins r y
                (subst (IsMatchIn o t q) e (match-rows_of o q t)))
              (Agree-After t t' pin pins r.id after y.distinct.0 a)
            ∙ ap (λ (x : Option Point). received now b x pins)
                (read-After t t' q r.id after
                  (ap (λ (x : Option PointRow). newest (content x) q) e ∙ if_eq_true _ _ n)))
        | inr n ↦ rw n (
            ih t h (Ready-skip now uuid injective o rows o t k pin pins y) a
            ∙ ap (λ (x : Option Point). received now b x pins) (older t q r e n))
      ]
    where
      older :
          (t : List PointRow) (q : Point) (r : PointRow)
          → held o t q ≡ some r
          → (ltb r.point.time q.time || r.point.time == q.time) ≡ false
          → read t ≡ (if same b q then newest (read t) q else read t)
      older t q r e n = elim (Bool-cases (same b q)) [
        | inl s ↦
            let found : read t ≡ some r.point = ap content (held-same o t b q s ∙ e) in
            found
            ∙ sym
                (if_eq_true _ _ s ∙ ap (λ (x : Option Point). newest x q) found ∙ if_eq_false _ _ n)
        | inr s ↦ sym (if_eq_false _ _ s)
      ]

  -- The whole loop
  pub read-plan_points :
      (t : List PointRow) (k h : ℕ) (pins : List Point)
      → Ready now uuid o rows t k pins
      → Agree t pins
      → read (upsert_all o t (plan_points now uuid k rows pins h).writes)
        ≡ received now b (read t) pins
  unfolding plan_points upsert_all received
  read-plan_points t k h [] y a = refl
  read-plan_points t k h (pin ∷ pins) y a =
      read-plan_point t k h pin pins (match_row rows (with_defaults now pin))
        (plan_points now uuid (k + 1) rows pins) y a.1 a.0
        (λ t' h' y' a'. read-plan_points t' (k + 1) h' pins y' a')
