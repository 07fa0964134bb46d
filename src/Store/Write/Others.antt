-- ===== src/Store/Write/Others.antt =====
-- store/sqlite.go, `nodePoints`: a write to one node leaves the rows of the other nodes.
use mathlib.Core.List.{Memᴰ}
use simpleiot.Prelude.{
  ℕ, ◌+◌, String, ◌≡◌, ◌≢◌, refl, sym, ap, ◌∙◌, ◌||◌, ◌==◌, List, [], ◌∷◌, Option, none, some,
  arith, ltb, All, Bool-cases, inl, inr, ne→str_eq, eq_refl,
}
use simpleiot.Prelude.Perms.{All-mem}
use simpleiot.Data.Point.{Point}
use simpleiot.Data.Points.{with_defaults}
use simpleiot.Store.{PointRow, rows_of}
use simpleiot.Store.Write.{Plan, match_row, upsert, upsert_all, plan_point, plan_points}
use simpleiot.Store.Write.Planned.{HasUniqueRows}
use simpleiot.Store.Write.Planned.Loop.{
  IsInjective, IsMatchIn, Ready, Ready-insert, Ready-update, Ready-skip,
}

module _ (o x : String) (apart : o ≢ x) where
  rows_of-insert :
      (t : List PointRow) (id : String) (q : Point)
      → All (λ r. r.id ≢ id) t
      → rows_of x (upsert o t id q) ≡ rows_of x t
  unfolding rows_of upsert
  rows_of-insert [] id q f = rw (ne→str_eq o x apart) refl
  rows_of-insert (a ∷ rs) id q f = rw (ne→str_eq a.id id f.0, rows_of-insert rs id q f.1) refl

  rows_of-update :
      (t : List PointRow) (r : PointRow) (q : Point)
      → HasUniqueRows t
      → Memᴰ r t
      → r.owner ≡ o
      → rows_of x (upsert o t r.id q) ≡ rows_of x t
  unfolding rows_of upsert
  rows_of-update [] r q u m w = elim m [ ]
  rows_of-update (a ∷ l) r q u (Memᴰ.head e) w =
      let owned : a.owner ≡ o = ap (λ (y : PointRow). y.owner) (sym e) ∙ w in
      let here : a.id ≡ r.id = ap (λ (y : PointRow). y.id) (sym e) in
      rw (here, eq_refl r.id, owned, ne→str_eq o x apart) refl
  rows_of-update (a ∷ l) r q u (Memᴰ.tail m) w =
      rw (ne→str_eq a.id r.id (All-mem (λ s. a.id ≢ s.id) l r u.0 m), rows_of-update l r q u.1 m w)
        refl

  module _ (now : ℕ) (uuid : ℕ → String) (injective : IsInjective uuid) (rows : List PointRow) where
    abbrev Kept : List PointRow → Plan → Type 0
    Kept t plan = rows_of x (upsert_all o t plan.writes) ≡ rows_of x t

    Kept-plan_point :
        (t : List PointRow) (k h : ℕ) (pin : Point) (pins : List Point) (m : Option PointRow)
        (rest : ℕ → Plan)
        → Ready now uuid o rows t k (pin ∷ pins)
        → IsMatchIn o t (with_defaults now pin) m
        → ((t' : List PointRow) (h' : ℕ)
            → Ready now uuid o rows t' (k + 1) pins
            → Kept t' (rest h'))
        → Kept t (plan_point m (uuid k) (with_defaults now pin) h rest)
    unfolding plan_point upsert_all
    Kept-plan_point t k h pin pins none rest y m ih =
        let q = with_defaults now pin in
        ih (upsert o t (uuid k) q) _ (Ready-insert now uuid injective o rows o t k pin pins y)
        ∙ rows_of-insert t (uuid k) q (y.fresh k (omega arith))
    Kept-plan_point t k h pin pins (some r) rest y m ih =
        let q = with_defaults now pin in
        elim (Bool-cases (ltb r.point.time q.time || r.point.time == q.time)) [
          | inl e ↦ rw e (
              ih (upsert o t r.id q) _ (Ready-update now uuid injective o rows o t k pin pins r y m)
              ∙ rows_of-update t r q y.unique m.0 m.1)
          | inr e ↦ rw e (ih t h (Ready-skip now uuid injective o rows o t k pin pins y))
        ]

    -- The whole loop
    pub Kept-plan_points :
        (t : List PointRow) (k h : ℕ) (pins : List Point)
        → Ready now uuid o rows t k pins
        → rows_of x (upsert_all o t (plan_points now uuid k rows pins h).writes) ≡ rows_of x t
    unfolding plan_points upsert_all
    Kept-plan_points t k h [] y = refl
    Kept-plan_points t k h (pin ∷ pins) y =
        Kept-plan_point t k h pin pins (match_row rows (with_defaults now pin))
          (plan_points now uuid (k + 1) rows pins) y y.matches.0
          (λ t' h' y'. Kept-plan_points t' (k + 1) h' pins y')
