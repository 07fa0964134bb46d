-- ===== src/Examples/Points.antt =====
-- data/point.go on concrete points.
use mathlib.Core.List.{Memᴰ, Permᴰ}
use mathlib.Core.List.Permᴰ as PermD
use simpleiot.Prelude.{
  ℕ, ◌≡◌, ◌≢◌, refl, true, false, List, [], ◌∷◌, some, arith, All, if◌then◌else◌,
}
use simpleiot.Prelude.Float.{f64_eq}
use simpleiot.Data.Point.{Point, zero_point, is_match, same_id}
use simpleiot.Data.Points.{add, find, update_point, with_defaults}
use simpleiot.Data.Points.Add.{stored, SameView, Covers, add_all, add_all-perm, add_all-Covers}
use simpleiot.Data.Points.Merge.{
  merge_point, merge_loop, is_change, merge_over, SameReading, stored-merge_point,
  merge_point-SameReading,
}
use simpleiot.Data.Points.Collapse.{
  collapse, map_key, IsKept, HasUniqueKeys, collapse-collision, collapse-IsKept,
  collapse-HasUniqueKeys,
}

abbrev reading : ℕ → ℕ → Point
reading t v = record zero_point { typ = "temp"; key = "0"; time = t; value = v }

abbrev deleted : ℕ → Point
deleted t = record zero_point { typ = "temp"; key = "0"; time = t; tombstone = 1 }

abbrev level : ℕ → Point
level t = record zero_point { typ = "level"; key = "0"; time = t; value = 7 }

latest_wins :
    stored (add_all 9 [] (reading 5 1 ∷ level 5 ∷ reading 3 2 ∷ [])) (reading 0 0)
    ≡ some (reading 5 1)
unfolding add_all add stored update_point same_id with_defaults
latest_wins = refl

found : find (add_all 9 [] (reading 5 1 ∷ level 5 ∷ [])) "level" "" ≡ (level 5, true)
unfolding add_all add find update_point with_defaults same_id is_match
found = refl

differ_level : same_id (reading 5 1) (level 5) ≡ false
unfolding same_id
differ_level = refl

add_all-perm_example :
    SameView
      (add_all 9 [] (reading 5 1 ∷ reading 3 2 ∷ []))
      (add_all 9 [] (reading 3 2 ∷ reading 5 1 ∷ []))
add_all-perm_example =
    add_all-perm 9 (Permᴰ.swap refl refl) ((refl, omega arith), ((refl, omega arith), tt))
      (((λ e. omega arith), tt), (tt, tt)) []

add_all-Covers_example :
    All
      (λ q. Covers (stored (add_all 9 [] (reading 5 1 ∷ deleted 3 ∷ [])) q) q)
      (reading 5 1 ∷ deleted 3 ∷ [])
add_all-Covers_example =
    add_all-Covers 9 [] (reading 5 1 ∷ deleted 3 ∷ [])
      ((refl, omega arith), ((refl, omega arith), tt))

stored-merge_point_example :
    stored (merge_point 9 0 (reading 5 1 ∷ []) (deleted 3)).0 (reading 0 0) ≡ (
      if same_id (deleted 3) (reading 0 0)
      then some (merge_over (stored (reading 5 1 ∷ []) (deleted 3)) (deleted 3))
      else stored (reading 5 1 ∷ []) (reading 0 0))
stored-merge_point_example =
    stored-merge_point 9 0 (reading 5 1 ∷ []) (deleted 3) (reading 0 0) (omega arith)

quiet : (merge_point 9 0 (reading 5 1 ∷ []) (reading 6 1)).1 ≡ false
unfolding merge_point same_id merge_loop is_change f64_eq
quiet = refl

merge_point-SameReading_example :
    SameReading
      (stored (reading 5 1 ∷ []) (level 0))
      (stored (merge_point 9 0 (reading 5 1 ∷ []) (reading 6 1)).0 (level 0))
merge_point-SameReading_example =
    merge_point-SameReading 9 0 (reading 5 1 ∷ []) (reading 6 1) (level 0) (omega arith) quiet

-- The type "temp" with the key "10", and the type "temp1" with the key "0".
abbrev tenth : Point
tenth = record zero_point { typ = "temp"; key = "10"; time = 3; value = 1 }

abbrev first : Point
first = record zero_point { typ = "temp1"; key = "0"; time = 4; value = 2 }

abbrev in_order : List Point → List Point
in_order m = m

collapse-collision_example :
    (tenth.typ ≢ first.typ)
    × ((r : Point) → Memᴰ r (collapse in_order (tenth ∷ first ∷ [])) → tenth.typ ≢ r.typ)
collapse-collision_example =
    collapse-collision in_order tenth first "1" PermD.refl (λ e. cc e) refl refl (omega arith)

collapse-IsKept_example :
    All
      (IsKept
        (reading 5 1 ∷ level 5 ∷ reading 3 2 ∷ [])
        (collapse in_order (reading 5 1 ∷ level 5 ∷ reading 3 2 ∷ [])))
      (reading 5 1 ∷ level 5 ∷ reading 3 2 ∷ [])
collapse-IsKept_example =
    collapse-IsKept in_order (reading 5 1 ∷ level 5 ∷ reading 3 2 ∷ []) PermD.refl

abbrev several : List Point
several = reading 5 1 ∷ level 5 ∷ reading 3 2 ∷ []

collapse-HasUniqueKeys_example :
    HasUniqueKeys (collapse in_order several)
    × ((r : Point) → Memᴰ r (collapse in_order several) → Memᴰ r several)
    × All (λ p. (r : Point) × Memᴰ r (collapse in_order several) × (map_key r ≡ map_key p)) several
collapse-HasUniqueKeys_example = collapse-HasUniqueKeys in_order several PermD.refl
