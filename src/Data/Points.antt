-- ===== src/Data/Points.antt =====
-- data/point.go, the type Points: lookups, `Add`, `Hash`, `LatestTime` and the order of points.
-- `time.Now()` is the argument `now`. A write through the pointer `*ps` is the returned list.
pub mod Add
pub mod Merge
pub mod Collapse
pub mod Same
use simpleiot.Prelude.{
  ℕ, String, Bool, true, false, not, List, [], ◌∷◌, str_eq, ltb, if◌then◌else◌, ◌==◌, Option, none,
  some, ◌&&◌,
}
use Prim.Native.Nat.{bit_xor}
use Prim.Native.String.{◌++◌, compare}
use package.text.Mathlib.Text.{is_lt}
use simpleiot.Data.Point.{Point, zero_point, is_match, same_id, crc, float_to_bool}

find_loop : List Point → String → String → Point × Bool
find_loop [] typ key = (zero_point, false)
find_loop (p ∷ ps) typ key = if not (is_match p typ key) then find_loop ps typ key else (p, true)

-- `Points.Find`
unfoldable pub find : List Point → String → String → Point × Bool
unfolding find_loop
find ps typ key = find_loop ps typ (if str_eq key "" then "0" else key)

-- `Points.Value`, `Points.ValueBool` and `Points.Text`
unfoldable pub value : List Point → String → String → ℕ × Bool
value ps typ key = let (p, found) = find ps typ key in (p.value, found)

unfoldable pub value_bool : List Point → String → String → Bool × Bool
value_bool ps typ key = let (f, found) = value ps typ key in (float_to_bool f, found)

unfoldable pub text : List Point → String → String → String × Bool
text ps typ key = let (p, found) = find ps typ key in (p.text, found)

-- `Points.Desc`
unfoldable pub desc : List Point → String
unfolding text
desc ps =
    let first_name = (text ps "firstName" "").0 in
    let last_name = (text ps "lastName" "").0 in
    let description = (text ps "description" "").0 in
    if not (str_eq first_name "")
    then (if str_eq last_name "" then first_name else first_name ++ " " ++ last_name)
    else if not (str_eq description "")
    then description
    else ""

latest_loop : ℕ → List Point → ℕ
latest_loop ret [] = ret
latest_loop ret (p ∷ ps) = latest_loop (if ltb ret p.time then p.time else ret) ps

-- `Points.LatestTime`
unfoldable pub latest_time : List Point → ℕ
unfolding latest_loop
latest_time ps = latest_loop 0 ps

hash_loop : ℕ → List Point → ℕ
hash_loop ret [] = ret
hash_loop ret (p ∷ ps) = hash_loop (bit_xor ret (crc p)) ps

-- `Points.Hash`
unfoldable pub hash : List Point → ℕ
unfolding hash_loop
hash ps = hash_loop 0 ps

-- The defaults that `Add` and the store give a point: the key "0" and the current time.
unfoldable pub with_defaults : ℕ → Point → Point
with_defaults now p = record p {
  key = if str_eq p.key "" then "0" else p.key;
  time = if p.time == 0 then now else p.time;
}

-- What `Add` makes of the point `p` in the array when `q` comes in for it.
unfoldable pub update_point : Point → Point → Point
update_point p q =
    let t = if ltb p.tombstone q.tombstone then q.tombstone else p.tombstone in
    let r = if ltb p.time q.time then q else p in record r { tombstone = t }

unfoldable pub add_loop : List Point → Point → List Point
add_loop [] q = q ∷ []
add_loop (p ∷ ps) q = if same_id p q then update_point p q ∷ ps else p ∷ add_loop ps q

-- `Points.Add`
unfoldable pub add : ℕ → List Point → Point → List Point
unfolding add_loop with_defaults
add now ps q = add_loop ps (with_defaults now q)

-- `ByTypeKey.Less`
unfoldable pub type_key_less : Point → Point → Bool
type_key_less p q =
    if not (str_eq p.typ q.typ) then is_lt (compare p.typ q.typ) else is_lt (compare p.key q.key)
