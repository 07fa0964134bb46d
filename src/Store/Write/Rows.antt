-- ===== src/Store/Write/Rows.antt =====
-- store/sqlite.go: what a write of a point changes in what the table holds of a node.
use mathlib.Core.Path.{subst}
use simpleiot.Prelude.{
  String, ◌≡◌, ◌≢◌, ◌⊎◌, refl, sym, ap, ap₂, ◌∙◌, Bool, true, false, ◌&&◌, List, [], ◌∷◌, Option,
  none, some, str_eq, eq_iff, eq_refl, if◌then◌else◌, All, Bool-cases, inl, inr, ne→str_eq,
  if_eq_true, if_eq_false,
}
use simpleiot.Prelude.Perms.{All-mem}
use simpleiot.Data.Point.{Point}
use simpleiot.Data.Points.Same.{same, both_true, same-subst, same-subst_right}
use simpleiot.Store.{PointRow, rows_of, column_form}
use simpleiot.Store.Write.{match_row, upsert}
use simpleiot.Store.Write.Planned.{HasUniqueRows}
use simpleiot.Store.Write.Hashes.{match-rows_of}
use simpleiot.Store.Write.Planned.Loop.{IsMatchIn}

-- What the table holds for the type and key of a point
abbrev pub held : String → List PointRow → Point → Option PointRow
held o t b = match_row (rows_of o t) b

held-cons :
    (o : String) (a : PointRow) (rs : List PointRow) (b : Point)
    → held o (a ∷ rs) b ≡ (if str_eq a.owner o && same b a.point then some a else held o rs b)
unfolding match_row rows_of
held-cons o a rs b = elim (Bool-cases (str_eq a.owner o)) [ inl t ↦ rw t refl | inr t ↦ rw t refl ]

match_row-same :
    (rs : List PointRow) (b p : Point) → same b p ≡ true → match_row rs b ≡ match_row rs p
unfolding match_row
match_row-same [] b p h = refl
match_row-same (r ∷ rs) b p h =
    ap₂ (λ (x : Bool) (y : Option PointRow). if x then some r else y) (same-subst b p r.point h)
      (match_row-same rs b p h)

-- What is held depends on the type and the key only.
pub held-same :
    (o : String) (t : List PointRow) (b p : Point) → same b p ≡ true → held o t b ≡ held o t p
held-same o t b p h = match_row-same (rows_of o t) b p h

-- The row that a write leaves
abbrev pub written : String → String → Point → PointRow
written o id q = record { id = id; owner = o; point = column_form q }

pub some-eq : {A : Type 0} {x y : A} → some x ≡ some y → x ≡ y
some-eq h = cc

module _ (o : String) (q b : Point) where
  abbrev pub After : Option PointRow → String → Option PointRow → Type 0
  After new id old = new ≡ (if same b q then some (written o id q) else old)

  -- A row that is not written, in front
  After-cons :
      (a : PointRow) (new old : Option PointRow) (id : String)
      → (str_eq a.owner o && same q a.point) ≡ false
      → After new id old
      → After
          (if str_eq a.owner o && same b a.point then some a else new)
          id
          (if str_eq a.owner o && same b a.point then some a else old)
  After-cons a new old id d h = elim (Bool-cases (str_eq a.owner o && same b a.point)) [
    | inl t ↦
        let (ow, sa) = both_true (str_eq a.owner o) (same b a.point) t in
        if_eq_true _ _ t
        ∙ sym (if_eq_false _ _ (clash ow sa (Bool-cases (same b q))) ∙ if_eq_true _ _ t)
    | inr t ↦
        if_eq_false _ _ t
        ∙ h
        ∙ ap (λ (x : Option PointRow). if same b q then some (written o id q) else x)
            (sym (if_eq_false _ _ t))
  ]
    where
      clash :
          str_eq a.owner o ≡ true
          → same b a.point ≡ true
          → (same b q ≡ true) ⊎ (same b q ≡ false)
          → same b q ≡ false
      clash ow sa (inl e) =
          let k : (str_eq a.owner o && same q a.point) ≡ true =
            ap₂ (λ (x y : Bool). x && y) ow (sym (same-subst b q a.point e) ∙ sa) in
          absurd (cc (sym d ∙ k))
      clash ow sa (inr e) = e

  held-nil : (x : Point) → held o [] x ≡ none
  unfolding match_row rows_of
  held-nil x = refl

  abbrev hits : Point → PointRow → Bool
  hits x a = str_eq a.owner o && same x a.point

  hits-written : (id : String) → hits b (written o id q) ≡ same b q
  unfolding column_form
  hits-written id = rw (eq_refl o) refl

  -- A row that is not written stays in front.
  After-held :
      (a : PointRow) (rs rs' : List PointRow) (id : String)
      → hits q a ≡ false
      → After (held o rs' b) id (held o rs b)
      → After (held o (a ∷ rs') b) id (held o (a ∷ rs) b)
  After-held a rs rs' id d h =
      held-cons o a rs' b
      ∙ After-cons a (held o rs' b) (held o rs b) id d h
      ∙ ap (λ (x : Option PointRow). if same b q then some (written o id q) else x)
          (sym (held-cons o a rs b))

  -- A new row
  pub held-insert :
      (t : List PointRow) (id : String)
      → All (λ r. r.id ≢ id) t
      → held o t q ≡ none
      → After (held o (upsert o t id q) b) id (held o t b)
  unfolding upsert
  held-insert [] id f e =
      held-cons o (written o id q) [] b
      ∙ ap (λ (x : Bool). if x then some (written o id q) else held o [] b) (hits-written id)
  held-insert (a ∷ rs) id f e =
      let k = sym (held-cons o a rs q) ∙ e in
      elim (Bool-cases (hits q a)) [
        | inl t ↦ let k' = sym (if_eq_true (some a) (held o rs q) t) ∙ k in absurd (cc)
        | inr t ↦ rw (ne→str_eq a.id id f.0) (
            After-held a rs (upsert o rs id q) id t
              (held-insert rs id f.1 (sym (if_eq_false (some a) (held o rs q) t) ∙ k)))
      ]

  -- The row that holds the point is written.
  update_here :
      (a : PointRow) (rs : List PointRow)
      → hits q a ≡ true
      → After (held o (record a { point = column_form q } ∷ rs) b) a.id (held o (a ∷ rs) b)
  update_here a rs h =
      let (ow, sq) = both_true (str_eq a.owner o) (same q a.point) h in
      let owned : record a { point = column_form q } ≡ written o a.id q =
        ap (λ (x : String). record a { owner = x; point = column_form q })
          ((eq_iff a.owner o).0 ow) in
      ap (λ (x : PointRow). held o (x ∷ rs) b) owned
      ∙ held-cons o (written o a.id q) rs b
      ∙ ap (λ (x : Bool). if x then some (written o a.id q) else held o rs b) (hits-written a.id)
      ∙ elsewhere ow sq (Bool-cases (same b q))
    where
      elsewhere :
          str_eq a.owner o ≡ true
          → same q a.point ≡ true
          → (same b q ≡ true) ⊎ (same b q ≡ false)
          → (if same b q then some (written o a.id q) else held o rs b)
            ≡ (if same b q then some (written o a.id q) else held o (a ∷ rs) b)
      elsewhere ow sq (inl e) = if_eq_true _ _ e ∙ sym (if_eq_true _ _ e)
      elsewhere ow sq (inr e) =
          let missed : hits b a ≡ false =
            ap₂ (λ (x y : Bool). x && y) ow (sym (same-subst_right b q a.point sq) ∙ e) in
          if_eq_false _ _ e ∙ sym (if_eq_false _ _ e ∙ held-cons o a rs b ∙ if_eq_false _ _ missed)

  -- A row that is replaced
  pub held-update :
      (t : List PointRow) (r : PointRow)
      → HasUniqueRows t
      → held o t q ≡ some r
      → After (held o (upsert o t r.id q) b) r.id (held o t b)
  unfolding upsert
  held-update [] r u e = let k = sym (held-nil q) ∙ e in absurd (cc)
  held-update (a ∷ rs) r u e =
      let k = sym (held-cons o a rs q) ∙ e in
      elim (Bool-cases (hits q a)) [
        | inl t ↦
            let k' : a ≡ r = some-eq (sym (if_eq_true (some a) (held o rs q) t) ∙ k) in
            subst
              (λ (x : PointRow).
                After (held o (upsert o (a ∷ rs) x.id q) b) x.id (held o (a ∷ rs) b))
              k' (rw (eq_refl a.id) (update_here a rs t))
        | inr t ↦
            let k' = sym (if_eq_false (some a) (held o rs q) t) ∙ k in
            let m = subst (IsMatchIn o rs q) k' (match-rows_of o q rs) in
            rw (ne→str_eq a.id r.id (All-mem (λ x. a.id ≢ x.id) rs r u.0 m.0))
              (After-held a rs (upsert o rs r.id q) r.id t (held-update rs r u.1 k'))
      ]
