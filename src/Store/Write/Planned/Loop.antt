-- ===== src/Store/Write/Planned/Loop.antt =====
-- store/sqlite.go, the loop `NextPin` over all incoming points.
use mathlib.Core.List.{Memᴰ}
use mathlib.Core.Path.{subst}
use simpleiot.Prelude.{
  ℕ, ◌+◌, ◌<◌, ◌≤◌, String, ◌≡◌, ◌≢◌, refl, sym, ap, ◌∙◌, Bool, true, false, ◌||◌, ◌==◌, List, [],
  ◌∷◌, Option, none, some, str_eq, eq_iff, arith, All, Bool-cases, inl, inr, ne→str_eq, ltb,
}
use simpleiot.Prelude.Bits.{xor_cancel_right, ◌⊕◌, bit_xor-zero, bit_xor_assoc, xor_right_comm}
use simpleiot.Prelude.Perms.{AllPairs, All-mem, All-map, unique_by_key}
use simpleiot.Data.Point.{Point, crc}
use simpleiot.Data.Points.{with_defaults}
use simpleiot.Store.{PointRow}
use simpleiot.Store.Hash.{mark}
use simpleiot.Store.Write.{Plan, upsert, upsert_all, match_row, plan_point, plan_points}
use simpleiot.Store.Write.Planned.{owner_hash, owner_hash-insert, owner_hash-update, HasUniqueRows}

-- What a lookup found is a row of the table, of the owner, with the type and key of the point.
abbrev pub IsMatchIn : String → List PointRow → Point → Option PointRow → Type 0
IsMatchIn o t q none = Unit
IsMatchIn o t q (some r) = Memᴰ r t × (r.owner ≡ o) × (q.typ ≡ r.point.typ) × (q.key ≡ r.point.key)

mem-upsert :
    (o : String) (t : List PointRow) (id : String) (p : Point) (s : PointRow)
    → Memᴰ s t
    → s.id ≢ id
    → Memᴰ s (upsert o t id p)
unfolding upsert
mem-upsert o [] id p s m n = elim m [ ]
mem-upsert o (r ∷ rs) id p s (Memᴰ.head e) n =
    rw (ne→str_eq r.id id (λ q. n (ap (λ a. a.id) e ∙ q))) (Memᴰ.head e)
mem-upsert o (r ∷ rs) id p s (Memᴰ.tail m) n = elim (Bool-cases (str_eq r.id id)) [
  | inl t ↦ rw t (Memᴰ.tail m)
  | inr t ↦ rw t (Memᴰ.tail (mem-upsert o rs id p s m n))
]

-- A property of row IDs holds after a write if it holds of the rows and of the new ID.
All-upsert :
    (P : String → Type 0) (o : String) (t : List PointRow) (id : String) (p : Point)
    → P id
    → All (λ r. P r.id) t
    → All (λ r. P r.id) (upsert o t id p)
unfolding upsert
All-upsert P o [] id p a h = (a, tt)
All-upsert P o (r ∷ rs) id p a h = elim (Bool-cases (str_eq r.id id)) [
  | inl t ↦ rw t h
  | inr t ↦ rw t (h.0, All-upsert P o rs id p a h.1)
]

HasUniqueRows-upsert :
    (o : String) (t : List PointRow) (id : String) (p : Point)
    → HasUniqueRows t
    → HasUniqueRows (upsert o t id p)
unfolding upsert
HasUniqueRows-upsert o [] id p u = (tt, tt)
HasUniqueRows-upsert o (r ∷ rs) id p u = elim (Bool-cases (str_eq r.id id)) [
  | inl t ↦ rw t u
  | inr t ↦ rw t (
    All-upsert (λ i. r.id ≢ i) o rs id p (λ e. cc (t, (eq_iff r.id id).1 e)) u.0,
    HasUniqueRows-upsert o rs id p u.1,
  )
]

-- The incoming points, with their defaults, differ in type or key.
abbrev pub Differ : ℕ → Point → Point → Type 0
Differ now a b =
    (with_defaults now a).typ ≡ (with_defaults now b).typ
    → (with_defaults now a).key ≢ (with_defaults now b).key

-- What the loop needs of the table and of the points still to come.
pub record Ready (now : ℕ) (uuid : ℕ → String) (o : String) (rows t : List PointRow) (k : ℕ)
    (pins : List Point) : Type 0 where
  pub unique : HasUniqueRows t
  pub distinct : AllPairs (Differ now) pins
  pub matches :
      All (λ p. IsMatchIn o t (with_defaults now p) (match_row rows (with_defaults now p))) pins
  pub fresh : (j : ℕ) → k ≤ j → All (λ r. r.id ≢ uuid j) t

abbrev pub IsInjective : (ℕ → String) → Type 0
IsInjective uuid = (i j : ℕ) → i < j → uuid i ≢ uuid j

-- A write under the ID `id` keeps the later matches, if none of them has that ID.
matches-upsert :
    (now : ℕ) (o : String) (rows t : List PointRow) (id : String) (p : Point) (pins : List Point)
    → All (λ a. (r : PointRow) → match_row rows (with_defaults now a) ≡ some r → r.id ≢ id) pins
    → All (λ a. IsMatchIn o t (with_defaults now a) (match_row rows (with_defaults now a))) pins
    → All
        (λ a.
          IsMatchIn o
            (upsert o t id p)
            (with_defaults now a)
            (match_row rows (with_defaults now a)))
        pins
matches-upsert now o rows t id p [] n h = tt
matches-upsert now o rows t id p (a ∷ l) n h =
    (go (match_row rows (with_defaults now a)) n.0 h.0, matches-upsert now o rows t id p l n.1 h.1)
  where
    go :
        (m : Option PointRow)
        → ((r : PointRow) → m ≡ some r → r.id ≢ id)
        → IsMatchIn o t (with_defaults now a) m
        → IsMatchIn o (upsert o t id p) (with_defaults now a) m
    go none n h = tt
    go (some r) n h = (mem-upsert o t id p r h.0 (n r refl), h.1, h.2, h.3)

cancel_plan :
    (a b h d k : ℕ) (m : Bool)
    → a ⊕ mark (h ⊕ d) m ≡ (b ⊕ mark d m) ⊕ mark k m
    → a ⊕ mark h m ≡ b ⊕ mark k m
cancel_plan a b h d k false e = e ∙ ap (λ (t : ℕ). t ⊕ 0) (bit_xor-zero b)
cancel_plan a b h d k true e =
    xor_cancel_right (a ⊕ h) (b ⊕ k) d (bit_xor_assoc a h d ∙ e ∙ xor_right_comm b d k)

module _ (now : ℕ) (uuid : ℕ → String) (injective : IsInjective uuid) (o : String)
    (rows : List PointRow) where
  -- The row that a later point matches is none of those written for an earlier one.
  later_match :
      (t : List PointRow) (q : Point) (r : PointRow) (pins : List Point)
      → HasUniqueRows t
      → IsMatchIn o t q (some r)
      → All (λ b. q.typ ≡ (with_defaults now b).typ → q.key ≢ (with_defaults now b).key) pins
      → All (λ a. IsMatchIn o t (with_defaults now a) (match_row rows (with_defaults now a))) pins
      → All (λ a. (s : PointRow) → match_row rows (with_defaults now a) ≡ some s → s.id ≢ r.id) pins
  later_match t q r [] u m d h = tt
  later_match t q r (a ∷ l) u m d h = (
    (λ s e i.
        clash (with_defaults now a) s d.0 (subst (IsMatchIn o t (with_defaults now a)) e h.0) i),
    later_match t q r l u m d.1 h.1,
  )
    where
      clash :
          (b : Point) (s : PointRow)
          → (q.typ ≡ b.typ → q.key ≢ b.key)
          → IsMatchIn o t b (some s)
          → s.id ≡ r.id
          → ⊥
      clash b s d k i =
          let e : s ≡ r = unique_by_key (λ x. x.id) t s r u k.0 m.0 i in
          d (m.2 ∙ sym (ap (λ x. x.point.typ) e) ∙ sym k.2)
            (m.3 ∙ sym (ap (λ x. x.point.key) e) ∙ sym k.3)

  module _ (n : String) where
    -- The writes of a plan change the hash of the node `n` as `hash_update` says.
    abbrev pub Accounts : List PointRow → ℕ → Plan → Type 0
    Accounts t h plan =
        (owner_hash (upsert_all o t plan.writes) n ⊕ mark h (str_eq o n)
          ≡ owner_hash t n ⊕ mark plan.hash_update (str_eq o n))
        × HasUniqueRows (upsert_all o t plan.writes)

    Accounts-write :
        (t : List PointRow) (h d : ℕ) (id : String) (q : Point) (plan : Plan)
        → owner_hash (upsert o t id q) n ≡ owner_hash t n ⊕ mark d (str_eq o n)
        → Accounts (upsert o t id q) (h ⊕ d) plan
        → Accounts t h (record plan { writes = (id, q) ∷ plan.writes })
    unfolding upsert_all
    Accounts-write t h d id q plan e a = (
      cancel_plan _ (owner_hash t n) h d plan.hash_update (str_eq o n)
          (a.0 ∙ ap (λ (x : ℕ). x ⊕ mark plan.hash_update (str_eq o n)) e),
      a.1,
    )

    pub Ready-insert :
        (t : List PointRow) (k : ℕ) (pin : Point) (pins : List Point)
        → Ready now uuid o rows t k (pin ∷ pins)
        → Ready now uuid o rows (upsert o t (uuid k) (with_defaults now pin)) (k + 1) pins
    Ready-insert t k pin pins y = record {
      unique = HasUniqueRows-upsert o t (uuid k) _ y.unique;
      distinct = y.distinct.1;
      matches =
          matches-upsert now o rows t (uuid k) _ pins
            (All-map
              (λ a. IsMatchIn o t (with_defaults now a) (match_row rows (with_defaults now a)))
              (λ a m s e.
                All-mem (λ x. x.id ≢ uuid k) t s (y.fresh k (omega arith))
                  (subst (IsMatchIn o t (with_defaults now a)) e m).0)
              pins y.matches.1)
            y.matches.1;
      fresh = λ j l.
          All-upsert (λ i. i ≢ uuid j) o t (uuid k) _ (injective k j (omega arith))
            (y.fresh j (omega arith));
    }

    pub Ready-update :
        (t : List PointRow) (k : ℕ) (pin : Point) (pins : List Point) (r : PointRow)
        → Ready now uuid o rows t k (pin ∷ pins)
        → IsMatchIn o t (with_defaults now pin) (some r)
        → Ready now uuid o rows (upsert o t r.id (with_defaults now pin)) (k + 1) pins
    Ready-update t k pin pins r y m = record {
      unique = HasUniqueRows-upsert o t r.id _ y.unique;
      distinct = y.distinct.1;
      matches =
          matches-upsert now o rows t r.id _ pins
            (later_match t (with_defaults now pin) r pins y.unique m y.distinct.0 y.matches.1)
            y.matches.1;
      fresh = λ j l.
          All-upsert (λ i. i ≢ uuid j) o t r.id _
            (All-mem (λ s. s.id ≢ uuid j) t r (y.fresh j (omega arith)) m.0)
            (y.fresh j (omega arith));
    }

    pub Ready-skip :
        (t : List PointRow) (k : ℕ) (pin : Point) (pins : List Point)
        → Ready now uuid o rows t k (pin ∷ pins)
        → Ready now uuid o rows t (k + 1) pins
    Ready-skip t k pin pins y = record {
      unique = y.unique;
      distinct = y.distinct.1;
      matches = y.matches.1;
      fresh = λ j l. y.fresh j (omega arith);
    }

    -- One point: what the plan writes for it accounts for the hash, if the rest does.
    Accounts-plan_point :
        (t : List PointRow) (k h : ℕ) (pin : Point) (pins : List Point) (m : Option PointRow)
        (rest : ℕ → Plan)
        → Ready now uuid o rows t k (pin ∷ pins)
        → IsMatchIn o t (with_defaults now pin) m
        → ((t' : List PointRow) (h' : ℕ)
            → Ready now uuid o rows t' (k + 1) pins
            → Accounts t' h' (rest h'))
        → Accounts t h (plan_point m (uuid k) (with_defaults now pin) h rest)
    unfolding plan_point
    Accounts-plan_point t k h pin pins none rest y m ih =
        let q = with_defaults now pin in
        Accounts-write t h (crc q) (uuid k) q (rest (h ⊕ crc q))
          (owner_hash-insert o n t (uuid k) q (y.fresh k (omega arith)))
          (ih (upsert o t (uuid k) q) (h ⊕ crc q) (Ready-insert t k pin pins y))
    Accounts-plan_point t k h pin pins (some r) rest y m ih =
        let q = with_defaults now pin in
        elim (Bool-cases (ltb r.point.time q.time || r.point.time == q.time)) [
          | inl e ↦ rw e (
              Accounts-write t h (crc r.point ⊕ crc q) r.id q (rest ((h ⊕ crc r.point) ⊕ crc q))
                (owner_hash-update o n t r q y.unique m.0 m.1)
                (subst (λ x. Accounts (upsert o t r.id q) x (rest ((h ⊕ crc r.point) ⊕ crc q)))
                  (bit_xor_assoc h (crc r.point) (crc q))
                  (ih (upsert o t r.id q) ((h ⊕ crc r.point) ⊕ crc q)
                    (Ready-update t k pin pins r y m))))
          | inr e ↦ rw e (ih t h (Ready-skip t k pin pins y))
        ]

    -- The whole loop accounts for the hash, and keeps the row IDs unique.
    pub Accounts-plan_points :
        (t : List PointRow) (k h : ℕ) (pins : List Point)
        → Ready now uuid o rows t k pins
        → Accounts t h (plan_points now uuid k rows pins h)
    unfolding plan_points upsert_all
    Accounts-plan_points t k h [] y = (refl, y.unique)
    Accounts-plan_points t k h (pin ∷ pins) y =
        Accounts-plan_point t k h pin pins (match_row rows (with_defaults now pin))
          (plan_points now uuid (k + 1) rows pins) y y.matches.0
          (λ t' h' y'. Accounts-plan_points t' (k + 1) h' pins y')
