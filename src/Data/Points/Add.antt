-- ===== src/Data/Points/Add.antt =====
-- What `Points.Add` makes of an array of points, as a reader of one type and key sees it.
use simpleiot.Prelude.{
  ℕ, ◌<◌, ◌≤◌, ◌≡◌, ◌≢◌, refl, sym, ap, ap₂, ◌∙◌, inl, inr, true, false, List, [], ◌∷◌, Option,
  none, some, if◌then◌else◌, str_eq, eq_iff, arith, All, Bool-cases,
}
use mathlib.Core.List.{Permᴰ}
use simpleiot.Prelude.Perms.{AllPairs, All-perm, AllPairs-perm}
use simpleiot.Data.Point.{Point, same_id}
use simpleiot.Data.Points.{update_point, add_loop, add, with_defaults}

-- The stored point with the type and key of `q`.
unfoldable pub stored : List Point → Point → Option Point
stored [] q = none
stored (p ∷ ps) q = if same_id p q then some p else stored ps q

-- The point that a reader finds once `q` has come in over what was stored.
abbrev pub merged : Option Point → Point → Point
merged none q = q
merged (some p) q = update_point p q

pub stored-add_loop :
    (ps : List Point) (q r : Point)
    → stored (add_loop ps q) r
      ≡ (if same_id q r then some (merged (stored ps q) q) else stored ps r)
unfolding stored add_loop same_id update_point
stored-add_loop [] q r = refl
stored-add_loop (p ∷ ps) q r = ground (
  arith,
  eq_iff p.key q.key,
  eq_iff q.key r.key,
  eq_iff p.key r.key,
  eq_iff p.typ q.typ,
  eq_iff q.typ r.typ,
  eq_iff p.typ r.typ,
  stored-add_loop ps q r,
)

pub stored_same : (ps : List Point) (a b : Point) → same_id a b ≡ true → stored ps a ≡ stored ps b
unfolding stored same_id
stored_same [] a b h = refl
stored_same (p ∷ ps) a b h =
    ground (arith, eq_iff a.key b.key, eq_iff a.typ b.typ, stored_same ps a b h)

merged_comm :
    (o : Option Point) (a b : Point)
    → a.time ≢ b.time
    → merged (some (merged o a)) b ≡ merged (some (merged o b)) a
unfolding update_point
merged_comm none a b h = ground arith
merged_comm (some p) a b h = ground arith

-- Two points of one type and key have different times, or they are not of one type and key.
abbrev pub Distinct : Point → Point → Type 0
Distinct a b = same_id a b ≡ true → a.time ≢ b.time

pub same_id_sym : (a b : Point) → same_id a b ≡ same_id b a
unfolding same_id
same_id_sym a b =
    ground (arith, eq_iff a.key b.key, eq_iff b.key a.key, eq_iff a.typ b.typ, eq_iff b.typ a.typ)

pub same_id_trans : (a b c : Point) → same_id a b ≡ true → same_id b c ≡ same_id a c
unfolding same_id
same_id_trans a b c h = ground (arith, eq_iff a.key b.key, eq_iff a.typ b.typ)

-- The order of two points does not show.
stored_swap :
    (ps : List Point) (a b r : Point)
    → Distinct a b
    → stored (add_loop (add_loop ps a) b) r ≡ stored (add_loop (add_loop ps b) a) r
stored_swap ps a b r d = elim (Bool-cases (same_id a b)) [
  | inl e ↦
      simp
        (
          stored-add_loop,
          same_id_trans a b r e,
          e,
          same_id_sym b a,
          stored_same ps b a (same_id_sym b a ∙ e),
        )
        (ground (arith, merged_comm (stored ps a) a b (d e)))
  | inr e ↦
      simp (stored-add_loop, e, same_id_sym b a)
        (ground (arith, e, same_id_trans a r b, same_id_sym r b))
]

-- `Add` for every point of a list, in its order.
unfoldable pub add_all : ℕ → List Point → List Point → List Point
add_all now ps [] = ps
add_all now ps (q ∷ qs) = add_all now (add now ps q) qs

-- Each point has defaults filled in already, as one that was sent has.
abbrev pub IsComplete : Point → Type 0
IsComplete q = (str_eq q.key "" ≡ false) × (0 < q.time)

abbrev pub AllDistinct : List Point → Type 0
AllDistinct = AllPairs Distinct

-- What every reader sees of the two arrays is the same.
abbrev pub SameView : List Point → List Point → Type 0
SameView ps ps' = (r : Point) → stored ps r ≡ stored ps' r

add_complete : (now : ℕ) (ps : List Point) (q : Point) → IsComplete q → add now ps q ≡ add_loop ps q
unfolding add
add_complete now ps q h = ground arith

add_loop-SameView :
    (ps ps' : List Point) (q : Point) → SameView ps ps' → SameView (add_loop ps q) (add_loop ps' q)
add_loop-SameView ps ps' q h r = simp stored-add_loop (rw (h q, h r))

add_all-SameView :
    (now : ℕ) (ps ps' : List Point) (qs : List Point)
    → All IsComplete qs
    → SameView ps ps'
    → SameView (add_all now ps qs) (add_all now ps' qs)
unfolding add_all
add_all-SameView now ps ps' [] c h = h
add_all-SameView now ps ps' (q ∷ qs) c h =
    rw (add_complete now ps q c.0, add_complete now ps' q c.0)
      (add_all-SameView now (add_loop ps q) (add_loop ps' q) qs c.1 (add_loop-SameView ps ps' q h))

pub Distinct-sym : (a b : Point) → Distinct a b → Distinct b a
Distinct-sym a b d h e = d (same_id_sym a b ∙ h) (sym e)

-- Whatever the order in which complete points arrive, every reader ends with the same points,
-- provided that points of one type and key carry different times.
pub add_all-perm :
    (now : ℕ) {qs qs' : List Point}
    → Permᴰ qs qs'
    → All IsComplete qs
    → AllDistinct qs
    → (ps : List Point) → SameView (add_all now ps qs) (add_all now ps qs')
unfolding add_all
add_all-perm now Permᴰ.nil c d ps r = refl
add_all-perm now (Permᴰ.cons {a = a} {l₂ = ys} e p) c d ps r =
    add_all-perm now p c.1 d.1 (add now ps a) r
    ∙ ap (λ q. stored (add_all now (add now ps q) ys) r) e
add_all-perm now (Permᴰ.swap {a = a} {b = b} {a' = a'} {b' = b'} {l = l} e f) c d ps r =
    add_all-SameView now (add now (add now ps a) b) (add now (add now ps b) a) l c.1.1
      (λ s.
        rw
          (
            add_complete now ps a c.0,
            add_complete now ps b c.1.0,
            add_complete now (add_loop ps a) b c.1.0,
            add_complete now (add_loop ps b) a c.0,
          )
          (stored_swap ps a b s d.0.0))
      r
    ∙ ap₂ (λ x y. stored (add_all now (add now (add now ps x) y) l) r) f e
add_all-perm now (Permᴰ.trans p q) c d ps r =
    add_all-perm now p c d ps r
    ∙ add_all-perm now q (All-perm IsComplete p c) (AllPairs-perm Distinct Distinct-sym p d) ps r

-- What is stored is at least as new, and at least as often deleted, as `q`.
abbrev pub Covers : Option Point → Point → Type 0
Covers none q = ⊥
Covers (some p) q = (q.time ≤ p.time) × (q.tombstone ≤ p.tombstone)

Covers-add_loop :
    (ps : List Point) (q r : Point) → Covers (stored ps r) r → Covers (stored (add_loop ps q) r) r
unfolding update_point
Covers-add_loop ps q r h = elim (Bool-cases (same_id q r)) [
  | inl e ↦ rw (stored-add_loop, e, stored_same ps q r e) (go (stored ps r) h)
  | inr e ↦ rw (stored-add_loop, e) h
]
  where
    go : (o : Option Point) → Covers o r → Covers (some (merged o q)) r
    go none c = absurd c
    go (some p) c = ground arith

Covers-add_all :
    (now : ℕ) (ps : List Point) (qs : List Point) (r : Point)
    → Covers (stored ps r) r
    → Covers (stored (add_all now ps qs) r) r
unfolding add_all add
Covers-add_all now ps [] r h = h
Covers-add_all now ps (q ∷ qs) r h =
    Covers-add_all now (add now ps q) qs r (Covers-add_loop ps (with_defaults now q) r h)

pub same_id_refl : (q : Point) → same_id q q ≡ true
unfolding same_id
same_id_refl q = ground (arith, eq_iff q.key q.key, eq_iff q.typ q.typ)

Covers-merged : (o : Option Point) (q : Point) → Covers (some (merged o q)) q
unfolding update_point
Covers-merged none q = omega arith
Covers-merged (some p) q = ground arith

Covers-add_loop_self : (ps : List Point) (q : Point) → Covers (stored (add_loop ps q) q) q
Covers-add_loop_self ps q = rw (stored-add_loop, same_id_refl q) (Covers-merged (stored ps q) q)

-- Whatever else arrives, an array that was given a complete point holds one of its type and key
-- that is at least as new and whose tombstone is at least as large.
pub add_all-Covers :
    (now : ℕ) (ps qs : List Point)
    → All IsComplete qs
    → All (λ q. Covers (stored (add_all now ps qs) q) q) qs
unfolding add_all
add_all-Covers now ps [] c = tt
add_all-Covers now ps (q ∷ qs) c = (
  Covers-add_all now (add now ps q) qs q
      (rw (add_complete now ps q c.0) (Covers-add_loop_self ps q)),
  add_all-Covers now (add now ps q) qs c.1,
)

-- No two points of the array have one type and key.
abbrev pub HasUniqueIds : List Point → Type 0
HasUniqueIds = AllPairs (λ p q. same_id p q ≡ false)

update_id :
    (p r q : Point)
    → same_id p q ≡ false
    → same_id p r ≡ false
    → same_id p (update_point r q) ≡ false
unfolding update_point same_id
update_id p r q e f = ground arith

fresh-add_loop :
    (p : Point) (ps : List Point) (q : Point)
    → same_id p q ≡ false
    → All (λ r. same_id p r ≡ false) ps
    → All (λ r. same_id p r ≡ false) (add_loop ps q)
unfolding add_loop
fresh-add_loop p [] q e h = (e, tt)
fresh-add_loop p (r ∷ rs) q e h = elim (Bool-cases (same_id r q)) [
  | inl m ↦ rw m (update_id p r q e h.0, h.1)
  | inr m ↦ rw m (h.0, fresh-add_loop p rs q e h.1)
]

unique_update :
    (p q : Point) (ps : List Point)
    → same_id p q ≡ true
    → All (λ r. same_id p r ≡ false) ps
    → All (λ r. same_id (update_point p q) r ≡ false) ps
unfolding update_point same_id
unique_update p q [] e h = tt
unique_update p q (r ∷ rs) e h =
    (ground (arith, h.0, eq_iff p.key q.key, eq_iff p.typ q.typ), unique_update p q rs e h.1)

-- `Add` keeps the types and keys of an array unique.
add-HasUniqueIds :
    (now : ℕ) (ps : List Point) (q : Point) → HasUniqueIds ps → HasUniqueIds (add now ps q)
unfolding add
add-HasUniqueIds now ps q h = go ps (with_defaults now q) h
  where
    go : (ps : List Point) (q : Point) → HasUniqueIds ps → HasUniqueIds (add_loop ps q)
    go [] q h = (tt, tt)
    go (p ∷ ps) q h = elim (Bool-cases (same_id p q)) [
      | inl m ↦ rw m (unique_update p q ps m h.0, h.1)
      | inr m ↦ rw m (fresh-add_loop p ps q m h.0, go ps q h.1)
    ]
