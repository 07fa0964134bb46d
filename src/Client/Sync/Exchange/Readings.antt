-- ===== src/Client/Sync/Exchange/Readings.antt =====
-- client/sync.go, `syncNode`: the readings of both stores, and how the transfers arrive.
use simpleiot.Prelude.{
  ◌≢◌, ◌≡◌, false, List, [], ◌∷◌, Option, none, some, if◌then◌else◌, ltb, leb, All,
}
use simpleiot.Prelude.Perms.{AllPairs}
use simpleiot.Data.Point.{Point}
use simpleiot.Data.Points.Same.{same}
use simpleiot.Client.Sync.Exchange.{Transfer, to_remote, to_local}

-- The point with the type and the key of `b`
unfoldable pub reading : Point → List Point → Option Point
reading b [] = none
reading b (p ∷ ps) = if same b p then some p else reading b ps

-- A store takes a point that is not older than the one it has.
unfoldable pub take_newer : Option Point → Point → Option Point
take_newer none q = some q
take_newer (some p) q = if leb p.time q.time then some q else some p

-- The readings of both stores
pub record Readings : Type 0 where
  pub local : Option Point
  pub remote : Option Point

-- A transfer arrives.
unfoldable pub arrive : Point → Transfer → Readings → Readings
arrive b (to_remote p) r = if same b p then record r { remote = take_newer r.remote p } else r
arrive b (to_local p) r = if same b p then record r { local = take_newer r.local p } else r

unfoldable pub arrive_all : Point → List Transfer → Readings → Readings
arrive_all b [] r = r
arrive_all b (t ∷ ts) r = arrive_all b ts (arrive b t r)

-- The newer of two points on both sides; two points of the same time stay.
unfoldable pub settled : Option Point → Option Point → Readings
settled none none = record { local = none; remote = none }
settled (some p) none = record { local = some p; remote = some p }
settled none (some u) = record { local = some u; remote = some u }
settled (some p) (some u) =
    if ltb u.time p.time
    then record { local = some p; remote = some p }
    else if ltb p.time u.time
    then record { local = some u; remote = some u }
    else record { local = some p; remote = some u }

-- Points of one store differ in type or key.
abbrev pub IsDistinct : List Point → Type 0
IsDistinct = AllPairs (λ p q. same p q ≡ false)

-- No point has the empty type.
abbrev pub IsTyped : List Point → Type 0
IsTyped us = All (λ u. u.typ ≢ "") us
