-- ===== src/Data/Points/Merge.antt =====
-- data/point.go, `Points.Merge`: the update that reports what it changed.
use simpleiot.Prelude.{
  ◌⊎◌, ℕ, ◌-◌, ◌^◌, ◌<◌, ◌≤◌, ◌≡◌, refl, Bool, true, false, not, ◌&&◌, ◌||◌, List, [], ◌∷◌, ◌++◌,
  Option, none, some, ltb, ◌==◌, if◌then◌else◌, str_eq, eq_iff, arith, ◌∙◌, Bool-cases, inl, inr,
}
use simpleiot.Prelude.Float.{f64_eq}
use simpleiot.Data.Point.{Point, same_id}
use simpleiot.Data.Points.Add.{stored, stored_same, same_id_sym, same_id_trans}

-- `t.Sub(u)` for a later `t`: a duration is at most 2 ^ 63 - 1 ns.
unfoldable pub duration_since : ℕ → ℕ → ℕ
duration_since t u = if ltb (2 ^ 63 - 1) (t - u) then 2 ^ 63 - 1 else t - u

-- The tests that set `modified` for a newer point `q` over `p`.
unfoldable pub is_change : ℕ → Point → Point → Bool
unfolding duration_since
is_change max_time p q =
    ltb p.tombstone q.tombstone
    || not (f64_eq q.value p.value)
    || (ltb 0 max_time && ltb max_time (duration_since q.time p.time))
    || not (str_eq q.text p.text)

-- What comes out of the loop over the array: the array, `pFound` and `modified`.
pub record Pass : Type 0 where
  pub points : List Point
  pub found : Bool
  pub modified : Bool

-- The loop over the array for one incoming point. A point that is not newer ends it (`break`).
unfoldable pub merge_loop : ℕ → List Point → Point → Pass
merge_loop max_time [] q = record { points = []; found = false; modified = false }
merge_loop max_time (p ∷ ps) q =
    let rest = merge_loop max_time ps q in
    let raised = ltb p.tombstone q.tombstone in
    if same_id p q
    then (if not (ltb p.time q.time)
        then record {
          points = (if raised then record p { tombstone = q.tombstone } else p) ∷ ps;
          found = true;
          modified = raised;
        }
        else record {
          points = q ∷ rest.points;
          found = true;
          modified = is_change max_time p q || rest.modified;
        })
    else record { points = p ∷ rest.points; found = rest.found; modified = rest.modified }

-- A point with no match is appended.
unfoldable pub settle : List Point → Point → Pass → List Point × Bool
settle ps q pass = if not pass.found then (ps ++ (q ∷ []), true) else (pass.points, pass.modified)

-- One round of the outer loop: the array, and whether the point is returned.
unfoldable pub merge_point : ℕ → ℕ → List Point → Point → List Point × Bool
unfolding settle
merge_point now max_time ps pin =
    let q = record pin { time = if pin.time == 0 then now else pin.time } in
    settle ps q (merge_loop max_time ps q)

-- `Points.Merge`: the array, and the points that are returned.
unfoldable pub merge : ℕ → ℕ → List Point → List Point → List Point × List Point
unfolding merge_point
merge now max_time ps [] = (ps, [])
merge now max_time ps (pin ∷ ins) =
    let (ps', modified) = merge_point now max_time ps pin in
    let (out, ret) = merge now max_time ps' ins in
    let q = record pin { time = if pin.time == 0 then now else pin.time } in
    (out, if modified then q ∷ ret else ret)

-- The point that a reader finds once the point `q` has been merged over what was stored.
abbrev pub merge_over : Option Point → Point → Point
merge_over none q = q
merge_over (some p) q =
    if ltb p.time q.time
    then q
    else record p { tombstone = if ltb p.tombstone q.tombstone then q.tombstone else p.tombstone }

abbrev is_some : Option Point → Bool
is_some none = false
is_some (some p) = true

found-merge_loop :
    (t : ℕ) (ps : List Point) (q : Point) → (merge_loop t ps q).found ≡ is_some (stored ps q)
unfolding merge_loop stored
found-merge_loop t [] q = refl
found-merge_loop t (p ∷ ps) q = ground (arith, found-merge_loop t ps q)

same_id_tombstone : (p r : Point) (t : ℕ) → same_id (record p { tombstone = t }) r ≡ same_id p r
unfolding same_id
same_id_tombstone p r t = refl

-- A reader of another type or key sees no change.
other-merge_loop :
    (t : ℕ) (ps : List Point) (q r : Point)
    → same_id q r ≡ false
    → stored (merge_loop t ps q).points r ≡ stored ps r
unfolding merge_loop stored
other-merge_loop t [] q r h = refl
other-merge_loop t (p ∷ ps) q r h = elim (Bool-cases (same_id p q)) [
  | inl e ↦ ground (
    arith,
    e,
    same_id_tombstone p r q.tombstone,
    same_id_trans p q r e,
    other-merge_loop t ps q r h,
  )
  | inr e ↦ rw e (ground (arith, other-merge_loop t ps q r h))
]

-- Where the type and key are stored, the loop merges the point into the first match.
stored-merge_loop :
    (t : ℕ) (ps : List Point) (q r : Point) (p : Point)
    → stored ps q ≡ some p
    → stored (merge_loop t ps q).points r
      ≡ (if same_id q r then some (merge_over (some p) q) else stored ps r)
unfolding merge_loop stored
stored-merge_loop t [] q r p h = cc
stored-merge_loop t (p' ∷ ps) q r p h = elim (Bool-cases (same_id p' q)) [
  | inl e ↦
      rw (same_id_trans p' q r e) (
        ground
          (arith, e, same_id_tombstone p' r q.tombstone, same_id_trans p' q r e, stored_rest e))
  | inr e ↦ ground (arith, e, stored-merge_loop t ps q r p, same_id_trans p' r q, same_id_sym q r)
]
  where
    stored_rest :
        same_id p' q ≡ true
        → same_id p' r ≡ false
        → stored (merge_loop t ps q).points r ≡ stored ps r
    stored_rest e f = other-merge_loop t ps q r (same_id_trans p' q r e ∙ f)

stored-append :
    (ps : List Point) (q r : Point)
    → stored ps q ≡ none
    → stored (ps ++ (q ∷ [])) r ≡ (if same_id q r then some q else stored ps r)
unfolding stored same_id
stored-append [] q r h = refl
stored-append (p ∷ ps) q r h = ground (
  arith,
  eq_iff p.key q.key,
  eq_iff q.key r.key,
  eq_iff p.key r.key,
  eq_iff p.typ q.typ,
  eq_iff q.typ r.typ,
  eq_iff p.typ r.typ,
  stored-append ps q r,
)

timed :
    (now : ℕ) (q : Point) → 0 < q.time → record q { time = if q.time == 0 then now else q.time } ≡ q
timed now q h = ground arith

-- After a timed point has been merged, a reader of its type and key finds the point itself if it
-- is newer than what was stored or nothing was, else the stored point with the larger tombstone
-- of the two; a reader of another type or key finds what it found before.
pub stored-merge_point :
    (now t : ℕ) (ps : List Point) (q r : Point)
    → 0 < q.time
    → stored (merge_point now t ps q).0 r
      ≡ (if same_id q r then some (merge_over (stored ps q) q) else stored ps r)
unfolding merge_point
stored-merge_point now t ps q r h = rw (timed now q h) (go (stored ps q) refl)
  where
    go :
        (o : Option Point)
        → stored ps q ≡ o
        → stored (settle ps q (merge_loop t ps q)).0 r
          ≡ (if same_id q r then some (merge_over (stored ps q) q) else stored ps r)
    go none e = rw (found-merge_loop t ps q, e) (stored-append ps q r e)
    go (some p) e = rw (found-merge_loop t ps q, e) (stored-merge_loop t ps q r p e)

-- What two readings of a sensor have in common if nothing was reported: the text, the value by
-- Go's `==`, and a tombstone that has not grown.
abbrev pub SameReading : Option Point → Option Point → Type 0
SameReading none none = Unit
SameReading none (some p') = ⊥
SameReading (some p) none = ⊥
SameReading (some p) (some p') =
    (p'.text ≡ p.text)
    × ((p'.value ≡ p.value) ⊎ (f64_eq p'.value p.value ≡ true))
    × (p'.tombstone ≤ p.tombstone)

SameReading-refl : (o : Option Point) → SameReading o o
SameReading-refl none = tt
SameReading-refl (some p) = (refl, inl refl, omega arith)

modified-merge_loop :
    (t : ℕ) (ps : List Point) (q p : Point)
    → stored ps q ≡ some p
    → (merge_loop t ps q).modified ≡ false
    → SameReading (some p) (some (merge_over (some p) q))
unfolding merge_loop stored is_change
modified-merge_loop t [] q p h m = cc
modified-merge_loop t (p' ∷ ps) q p h m =
    ground (arith, modified-merge_loop t ps q p, eq_iff q.text p'.text)

returned-merge_point :
    (now t : ℕ) (ps : List Point) (q : Point)
    → 0 < q.time
    → stored ps q ≡ none
    → ¬ ((merge_point now t ps q).1 ≡ false)
unfolding merge_point
returned-merge_point now t ps q h e = rw (timed now q h) (rw (found-merge_loop t ps q, e) (λ x. cc))

modified-merge_point :
    (now t : ℕ) (ps : List Point) (q p : Point)
    → 0 < q.time
    → stored ps q ≡ some p
    → (merge_loop t ps q).modified ≡ (merge_point now t ps q).1
unfolding merge_point
modified-merge_point now t ps q p h e = rw (timed now q h) (rw (found-merge_loop t ps q, e) refl)

-- A point with a time that `Merge` does not return has changed no reading: every type and key is
-- stored afterwards where it was before, with the same text and the same value, bit for bit or by
-- Go's `==`, and with a tombstone that has not grown. That tombstone may be smaller, and the blob
-- and the origin may be those of the new point.
pub merge_point-SameReading :
    (now t : ℕ) (ps : List Point) (q r : Point)
    → 0 < q.time
    → (merge_point now t ps q).1 ≡ false
    → SameReading (stored ps r) (stored (merge_point now t ps q).0 r)
merge_point-SameReading now t ps q r h m = elim (Bool-cases (same_id q r)) [
  | inl e ↦
      rw (stored-merge_point now t ps q r h, e, ← stored_same ps q r e) (go (stored ps q) refl)
  | inr e ↦ rw (stored-merge_point now t ps q r h, e) (SameReading-refl (stored ps r))
]
  where
    go : (o : Option Point) → stored ps q ≡ o → SameReading o (some (merge_over o q))
    go none e = absurd (returned-merge_point now t ps q h e m)
    go (some p) e = modified-merge_loop t ps q p e (modified-merge_point now t ps q p h e ∙ m)
