-- ===== src/Data/Point.antt =====
-- data/point.go, the type Point and its methods.
-- A `time.Time` is the number of nanoseconds since Go's zero time (year 1), so `IsZero` is 0 and
-- `After` is `<` turned round. A `float64` is its bit pattern (Prelude/Float).
-- `Tombstone`, an int that is only ever counted up from 0, is a natural number.
use simpleiot.Prelude.{
  ℕ, ◌+◌, ◌-◌, ◌*◌, ◌%◌, ◌^◌, ◌≤◌, ◌<◌, String, ◌≡◌, Bool, true, false, not, ◌&&◌, List, [], ◌++◌,
  arith, str_eq, ltb, if◌then◌else◌,
}
use simpleiot.Prelude.Float.{f64_eq, f64_one, f64_zero}
use simpleiot.Prelude.Crc32.{crc32, le_bytes, utf8_bytes}

pub record Point : Type 0 where
  pub typ : String
  pub key : String
  pub time : ℕ
  pub value : ℕ
  pub text : String
  pub blob : List ℕ
  pub tombstone : ℕ
  pub origin : String

-- `Point{}`
abbrev pub zero_point : Point
zero_point = record {
  typ = "";
  key = "";
  time = 0;
  value = f64_zero;
  text = "";
  blob = [];
  tombstone = 0;
  origin = "";
}

abbrev pub point_type_node_type : String
point_type_node_type = "nodeType"

abbrev pub point_type_tombstone : String
point_type_tombstone = "tombstone"

-- The nanoseconds from Go's zero time to the Unix epoch.
abbrev pub unix_epoch : ℕ
unix_epoch = 62135596800000000000

-- `uint64(t.UnixNano())`: the difference to the epoch, wrapped to 64 bits.
unfoldable pub unix_nano : ℕ → ℕ
unix_nano t = (t + 4 * 2 ^ 64 - unix_epoch) % 2 ^ 64

-- `time.Unix(0, ns)`, for the bit pattern of an int64.
unfoldable pub from_unix_nano : ℕ → ℕ
from_unix_nano ns = if ltb ns (2 ^ 63) then unix_epoch + ns else unix_epoch + ns - 2 ^ 64

-- Times within 2 ^ 63 ns of the epoch, the years 1678 to 2262, fit `UnixNano`.
abbrev pub IsNanoTime : ℕ → Type 0
IsNanoTime t = (unix_epoch ≤ t + 2 ^ 63) × (t < unix_epoch + 2 ^ 63)

-- What goes through the database's integer column comes back.
from_unix_nano-unix_nano : (t : ℕ) → IsNanoTime t → from_unix_nano (unix_nano t) ≡ t
unfolding from_unix_nano unix_nano
from_unix_nano-unix_nano t h = ground arith

-- `Point.CRC`; the five writes to the hash are one write of the joined bytes.
unfoldable pub crc : Point → ℕ
unfolding unix_nano
crc p =
    if str_eq p.typ point_type_node_type
    then 0
    else crc32 (
        le_bytes 8 (unix_nano p.time)
        ++ utf8_bytes p.typ
        ++ utf8_bytes p.key
        ++ utf8_bytes p.text
        ++ le_bytes 8 p.value)

-- `Point.IsMatch`
unfoldable pub is_match : Point → String → String → Bool
is_match p typ key =
    if not (str_eq typ "") && not (str_eq typ p.typ)
    then false
    else if not (str_eq key p.key)
    then false
    else true

-- `Point.Bool`
unfoldable pub to_bool : Point → Bool
to_bool p = f64_eq p.value f64_one

-- `FloatToBool` and `BoolToFloat`
unfoldable pub float_to_bool : ℕ → Bool
float_to_bool v = f64_eq v f64_one

unfoldable pub bool_to_float : Bool → ℕ
bool_to_float v = if not v then f64_zero else f64_one

-- The test `p.Key == pIn.Key && p.Type == pIn.Type` of `Add`, `Merge` and the store.
unfoldable pub same_id : Point → Point → Bool
same_id p q = str_eq p.key q.key && str_eq p.typ q.typ
