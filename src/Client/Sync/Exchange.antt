-- ===== src/Client/Sync/Exchange.antt =====
-- client/sync.go, `syncNode`: the points of a node that are sent to the remote and to the local store.
pub mod Readings
pub mod Matches
pub mod Settled
use simpleiot.Prelude.{ℕ, Bool, true, false, List, [], ◌∷◌, ◌++◌, map, if◌then◌else◌, ltb}
use simpleiot.Data.Point.{Point, is_match}

-- A point that is sent
pub data Transfer : Type 0 where
  to_remote to_local : Point → Transfer

-- Two points of the same type and key: the later one is sent to the other side.
unfoldable pub compare_times : Point → Point → List Transfer
compare_times p p_up =
    if ltb p_up.time p.time
    then to_remote p ∷ []
    else if ltb p.time p_up.time
    then to_local p_up ∷ []
    else []

-- A local point against all points of the remote node: what is sent, whether one matches, and the
-- remote points with `upstreamProcessed`.
unfoldable pub match_loop : Point → List (Bool × Point) → List Transfer × Bool × List (Bool × Point)
unfolding is_match compare_times
match_loop p [] = ([], false, [])
match_loop p ((m, p_up) ∷ ups) =
    let (sent, hit, rest) = match_loop p ups in
    if is_match p p_up.typ p_up.key
    then (compare_times p p_up ++ sent, true, (true, p_up) ∷ rest)
    else (sent, hit, (m, p_up) ∷ rest)

-- A local point that has no match is sent to the remote store.
unfoldable pub local_point : Point → List (Bool × Point) → List Transfer × List (Bool × Point)
unfolding match_loop
local_point p ups =
    let (sent, hit, ups') = match_loop p ups in
    if hit then (sent, ups') else (sent ++ (to_remote p ∷ []), ups')

-- The loop over the local points
unfoldable pub local_loop : List Point → List (Bool × Point) → List Transfer × List (Bool × Point)
unfolding local_point
local_loop [] ups = ([], ups)
local_loop (p ∷ ps) ups =
    let (sent, ups') = local_point p ups in
    let (rest, ups'') = local_loop ps ups' in (sent ++ rest, ups'')

-- The loop over the remote points that do not exist locally
unfoldable pub remote_loop : List (Bool × Point) → List Transfer
remote_loop [] = []
remote_loop ((m, p_up) ∷ ups) = if m then remote_loop ups else to_local p_up ∷ remote_loop ups

-- The four loops over points, which are twice the same two
unfoldable pub exchange : List Point → List Point → List Transfer
unfolding local_loop remote_loop
exchange points points_up =
    let (sent, ups) = local_loop points (map (λ p. (false, p)) points_up) in sent ++ remote_loop ups
