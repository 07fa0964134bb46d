-- ===== src/Data/Points/Collapse.antt =====
-- data/point.go, `Points.Collapse`. The Go map `pts` is an association list; the order in which
-- `range pts` goes through it is not fixed by Go, and is the argument `iterate`.
use Prim.Native.String.{◌++◌ as append}
use mathlib.Core.Path.{subst}
use mathlib.Core.List.{Memᴰ, Permᴰ}
use mathlib.Core.List.Permᴰ as PermD
use text.Mathlib.TextLemmas.{append-nil, append_assoc, append_cancel_left}
use simpleiot.Prelude.{
  ◌⊎◌, ◌≢◌, ◌≤◌, String, ◌≡◌, refl, sym, ap, ◌∙◌, Bool, true, false, ◌||◌, List, [], ◌∷◌, leb, ltb,
  ◌==◌, if◌then◌else◌, str_eq, eq_iff, arith, Bool-cases, inl, inr, length, All,
}
use native.Mathlib.Nat.{le_refl}
use simpleiot.Prelude.Perms.{AllPairs, AllPairs-perm, All-map, mem-perm}
use simpleiot.Data.Point.{Point}

-- The key of the map, `p.Type+p.Key`.
unfoldable pub map_key : Point → String
map_key p = append p.typ p.key

-- One round: the point goes in if its key is new, or if it is not older than the one that is in.
unfoldable pub put_latest : List Point → Point → List Point
put_latest [] p = p ∷ []
put_latest (a ∷ m) p =
    if str_eq (map_key a) (map_key p)
    then (if ltb a.time p.time || a.time == p.time then p ∷ m else a ∷ m)
    else a ∷ put_latest m p

collapse_loop : List Point → List Point → List Point
unfolding put_latest
collapse_loop m [] = m
collapse_loop m (p ∷ ps) = collapse_loop (put_latest m p) ps

-- `Points.Collapse`
unfoldable pub collapse : (List Point → List Point) → List Point → List Point
unfolding collapse_loop
collapse iterate ps = if leb (length ps) 1 then ps else iterate (collapse_loop [] ps)

-- Go goes through a map in some order.
abbrev pub IsOrder : (List Point → List Point) → Type 0
IsOrder iterate = (m : List Point) → Permᴰ m (iterate m)

-- `r` stands in the list for `p`: it has the key of `p`, and is not older.
abbrev pub Represents : List Point → Point → Type 0
Represents m p = (r : Point) × Memᴰ r m × (map_key r ≡ map_key p) × (p.time ≤ r.time)

Represents-cons : (a : Point) (m : List Point) (p : Point) → Represents m p → Represents (a ∷ m) p
Represents-cons a m p h = (h.0, Memᴰ.tail h.1, h.2, h.3)

Represents-put_self : (m : List Point) (p : Point) → Represents (put_latest m p) p
unfolding put_latest
Represents-put_self [] p = (p, Memᴰ.head refl, refl, omega arith)
Represents-put_self (a ∷ m) p = elim (Bool-cases (str_eq (map_key a) (map_key p))) [
  | inl e ↦ elim (Bool-cases (ltb a.time p.time || a.time == p.time)) [
    | inl f ↦ rw (e, f) (p, Memᴰ.head refl, refl, omega arith)
    | inr f ↦ rw (e, f) (a, Memᴰ.head refl, (eq_iff _ _).0 e, ground arith)
  ]
  | inr e ↦ rw e (Represents-cons a (put_latest m p) p (Represents-put_self m p))
]

Represents-put : (m : List Point) (p q : Point) → Represents m q → Represents (put_latest m p) q
unfolding put_latest
Represents-put [] p q (r, h, k, l) = elim h [ ]
Represents-put (a ∷ m) p q (r, Memᴰ.head i, k, l) =
    elim (Bool-cases (str_eq (map_key a) (map_key p))) [
      | inl e ↦ elim (Bool-cases (ltb a.time p.time || a.time == p.time)) [
        | inl f ↦
            rw (e, f)
              (
                p,
                Memᴰ.head refl,
                sym ((eq_iff _ _).0 e) ∙ ap map_key (sym i) ∙ k,
                later r a p q i l (ground arith),
              )
        | inr f ↦ rw (e, f) (r, Memᴰ.head i, k, l)
      ]
      | inr e ↦ rw e (r, Memᴰ.head i, k, l)
    ]
  where
    later : (r a p q : Point) → r ≡ a → q.time ≤ r.time → a.time ≤ p.time → q.time ≤ p.time
    later r a p q i l f =
        subst (λ s. q.time ≤ s.time → q.time ≤ p.time) (sym i) (λ x. omega arith) l
Represents-put (a ∷ m) p q (r, Memᴰ.tail h, k, l) =
    elim (Bool-cases (str_eq (map_key a) (map_key p))) [
      | inl e ↦ elim (Bool-cases (ltb a.time p.time || a.time == p.time)) [
        | inl f ↦ rw (e, f) (r, Memᴰ.tail h, k, l)
        | inr f ↦ rw (e, f) (r, Memᴰ.tail h, k, l)
      ]
      | inr e ↦ rw e (Represents-cons a (put_latest m p) q (Represents-put m p q (r, h, k, l)))
    ]

mem-put_latest : (m : List Point) (p r : Point) → Memᴰ r (put_latest m p) → (r ≡ p) ⊎ Memᴰ r m
unfolding put_latest
mem-put_latest [] p r (Memᴰ.head e) = inl e
mem-put_latest [] p r (Memᴰ.tail h) = elim h [ ]
mem-put_latest (a ∷ m) p r h =
    by_test (str_eq (map_key a) (map_key p)) (ltb a.time p.time || a.time == p.time)
      (mem-put_latest m p r) h
  where
    by_test :
        (same newer : Bool)
        → (Memᴰ r (put_latest m p) → (r ≡ p) ⊎ Memᴰ r m)
        → Memᴰ r (if same then (if newer then p ∷ m else a ∷ m) else a ∷ put_latest m p)
        → (r ≡ p) ⊎ Memᴰ r (a ∷ m)
    by_test true true ih (Memᴰ.head e) = inl e
    by_test true true ih (Memᴰ.tail h) = inr (Memᴰ.tail h)
    by_test true false ih h = inr h
    by_test false newer ih (Memᴰ.head e) = inr (Memᴰ.head e)
    by_test false newer ih (Memᴰ.tail h) = elim (ih h) [ inl e ↦ inl e | inr k ↦ inr (Memᴰ.tail k) ]

mem-collapse_loop :
    (m ps : List Point) (r : Point) → Memᴰ r (collapse_loop m ps) → Memᴰ r m ⊎ Memᴰ r ps
unfolding collapse_loop
mem-collapse_loop m [] r h = inl h
mem-collapse_loop m (p ∷ ps) r h = elim (mem-collapse_loop (put_latest m p) ps r h) [
  | inl k ↦ elim (mem-put_latest m p r k) [ inl e ↦ inr (Memᴰ.head e) | inr l ↦ inl l ]
  | inr k ↦ inr (Memᴰ.tail k)
]

Represents-collapse_loop :
    (m ps : List Point) (q : Point) → Represents m q → Represents (collapse_loop m ps) q
unfolding collapse_loop
Represents-collapse_loop m [] q h = h
Represents-collapse_loop m (p ∷ ps) q h =
    Represents-collapse_loop (put_latest m p) ps q (Represents-put m p q h)

All-Represents : (m ps : List Point) → All (Represents (collapse_loop m ps)) ps
unfolding collapse_loop
All-Represents m [] = tt
All-Represents m (p ∷ ps) = (
  Represents-collapse_loop (put_latest m p) ps p (Represents-put_self m p),
  All-Represents (put_latest m p) ps,
)

-- The keys of the map are unique.
abbrev pub HasUniqueKeys : List Point → Type 0
HasUniqueKeys = AllPairs (λ p q. map_key p ≢ map_key q)

fresh-put_latest :
    (k : String) (m : List Point) (p : Point)
    → k ≢ map_key p
    → All (λ q. k ≢ map_key q) m
    → All (λ q. k ≢ map_key q) (put_latest m p)
unfolding put_latest
fresh-put_latest k [] p e h = (e, tt)
fresh-put_latest k (a ∷ m) p e h = elim (Bool-cases (str_eq (map_key a) (map_key p))) [
  | inl f ↦ elim (Bool-cases (ltb a.time p.time || a.time == p.time)) [
    | inl g ↦ rw (f, g) (e, h.1)
    | inr g ↦ rw (f, g) h
  ]
  | inr f ↦ rw f (h.0, fresh-put_latest k m p e h.1)
]

HasUniqueKeys-put_latest :
    (m : List Point) (p : Point) → HasUniqueKeys m → HasUniqueKeys (put_latest m p)
unfolding put_latest
HasUniqueKeys-put_latest [] p h = (tt, tt)
HasUniqueKeys-put_latest (a ∷ m) p h = elim (Bool-cases (str_eq (map_key a) (map_key p))) [
  | inl f ↦ elim (Bool-cases (ltb a.time p.time || a.time == p.time)) [
    | inl g ↦ rw (f, g) (subst (λ k. All (λ q. k ≢ map_key q) m) ((eq_iff _ _).0 f) h.0, h.1)
    | inr g ↦ rw (f, g) h
  ]
  | inr f ↦ rw f (
    fresh-put_latest (map_key a) m p (λ e. cc (f, (eq_iff _ _).1 e)) h.0,
    HasUniqueKeys-put_latest m p h.1,
  )
]

HasUniqueKeys-collapse_loop :
    (m ps : List Point) → HasUniqueKeys m → HasUniqueKeys (collapse_loop m ps)
unfolding collapse_loop
HasUniqueKeys-collapse_loop m [] h = h
HasUniqueKeys-collapse_loop m (p ∷ ps) h =
    HasUniqueKeys-collapse_loop (put_latest m p) ps (HasUniqueKeys-put_latest m p h)

-- Every point is represented by one of the given points that is at least as new.
abbrev pub IsKept : List Point → List Point → Point → Type 0
IsKept ps out p = (r : Point) × Memᴰ r out × Memᴰ r ps × (map_key r ≡ map_key p) × (p.time ≤ r.time)

IsKept-self : (ps : List Point) → All (IsKept ps ps) ps
IsKept-self ps = go ps (λ r h. h)
  where
    go : (qs : List Point) → ((r : Point) → Memᴰ r qs → Memᴰ r ps) → All (IsKept ps ps) qs
    go [] f = tt
    go (q ∷ qs) f = (
      (q, f q (Memᴰ.head refl), f q (Memᴰ.head refl), refl, le_refl q.time),
      go qs (λ r h. f r (Memᴰ.tail h)),
    )

given : (ps : List Point) (r : Point) → Memᴰ r (collapse_loop [] ps) → Memᴰ r ps
given ps r h = elim (mem-collapse_loop [] ps r h) [ inl k ↦ elim k [ ] | inr k ↦ k ]

-- In whatever order Go goes through its map, `Collapse` keeps for every point one of the given
-- points with the same map key that is at least as new.
pub collapse-IsKept :
    (iterate : List Point → List Point) (ps : List Point)
    → IsOrder iterate
    → All (IsKept ps (collapse iterate ps)) ps
unfolding collapse
collapse-IsKept iterate ps order = elim (Bool-cases (leb (length ps) 1)) [
  | inl e ↦ rw e (IsKept-self ps)
  | inr e ↦ rw e (
      All-map (Represents (collapse_loop [] ps))
        (λ p k. (k.0, mem-perm (order (collapse_loop [] ps)) k.1, given ps k.0 k.1, k.2, k.3)) ps
        (All-Represents [] ps))
]

short_unique : (ps : List Point) → leb (length ps) 1 ≡ true → HasUniqueKeys ps
short_unique [] h = tt
short_unique (p ∷ []) h = (tt, tt)
short_unique (p ∷ q ∷ ps) h = absurd (ground arith)

unique-collapse :
    (iterate : List Point → List Point) (ps : List Point)
    → IsOrder iterate
    → HasUniqueKeys (collapse iterate ps)
unfolding collapse
unique-collapse iterate ps order = elim (Bool-cases (leb (length ps) 1)) [
  | inl e ↦ rw e (short_unique ps e)
  | inr e ↦ rw e (
      AllPairs-perm (λ p q. map_key p ≢ map_key q) (λ p q n e. n (sym e))
        (order (collapse_loop [] ps)) (HasUniqueKeys-collapse_loop [] ps tt))
]

mem-collapse :
    (iterate : List Point → List Point) (ps : List Point) (r : Point)
    → IsOrder iterate
    → Memᴰ r (collapse iterate ps)
    → Memᴰ r ps
unfolding collapse
mem-collapse iterate ps r order = elim (Bool-cases (leb (length ps) 1)) [
  | inl e ↦ rw e (λ h. h)
  | inr e ↦ rw e (λ h. given ps r (mem-perm (PermD.symm (order (collapse_loop [] ps))) h))
]

-- In whatever order Go goes through its map, `Collapse` leaves one point for each map key: the
-- points that are left are given ones and have different map keys, and for every given point one
-- with its map key is left.
pub collapse-HasUniqueKeys :
    (iterate : List Point → List Point) (ps : List Point)
    → IsOrder iterate
    → HasUniqueKeys (collapse iterate ps)
      × ((r : Point) → Memᴰ r (collapse iterate ps) → Memᴰ r ps)
      × All (λ p. (r : Point) × Memᴰ r (collapse iterate ps) × (map_key r ≡ map_key p)) ps
collapse-HasUniqueKeys iterate ps order = (
  unique-collapse iterate ps order,
  λ r h. mem-collapse iterate ps r order h,
  All-map (IsKept ps (collapse iterate ps)) (λ p k. (k.0, k.1, k.3)) ps
      (collapse-IsKept iterate ps order),
)

map_key-split :
    (p q : Point) (y : String)
    → p.key ≡ append y q.key
    → q.typ ≡ append p.typ y
    → map_key p ≡ map_key q
unfolding map_key
map_key-split p q y k t =
    ap (append p.typ) k
    ∙ sym (append_assoc p.typ y q.key)
    ∙ ap (λ (x : String). append x q.key) (sym t)

collapse_pair :
    (iterate : List Point → List Point) (p q : Point)
    → map_key p ≡ map_key q
    → p.time ≤ q.time
    → collapse iterate (p ∷ q ∷ []) ≡ iterate (q ∷ [])
unfolding collapse
collapse_pair iterate p q k h = ground (arith, eq_iff (map_key p) (map_key q))

longer_typ : (x y : String) → y ≢ "" → x ≢ append x y
longer_typ x y n e = n (append_cancel_left x y "" (sym e ∙ sym (append-nil x)))

-- Let the type of a second point, which is not older than the first, be longer than the first's by
-- a text that is not empty, and the first's key be that text and the second's key. Then the types
-- differ, and `Collapse` of the two, in whatever order Go goes through its map, loses the first: no
-- point of its type is left.
pub collapse-collision :
    (iterate : List Point → List Point) (p q : Point) (y : String)
    → IsOrder iterate
    → y ≢ ""
    → q.typ ≡ append p.typ y
    → p.key ≡ append y q.key
    → p.time ≤ q.time
    → (p.typ ≢ q.typ) × ((r : Point) → Memᴰ r (collapse iterate (p ∷ q ∷ [])) → p.typ ≢ r.typ)
collapse-collision iterate p q y order n t k h =
    (differ, λ r m e. differ (e ∙ ap (λ (x : Point). x.typ) (left r m)))
  where
    differ : p.typ ≢ q.typ
    differ e = longer_typ p.typ y n (e ∙ t)

    only : {r : Point} → Memᴰ r (q ∷ []) → r ≡ q
    only (Memᴰ.head e) = e
    only (Memᴰ.tail m) = elim m [ ]

    left : (r : Point) → Memᴰ r (collapse iterate (p ∷ q ∷ [])) → r ≡ q
    left r m = only (
        mem-perm (PermD.symm (order (q ∷ [])))
          (subst (Memᴰ r) (collapse_pair iterate p q (map_key-split p q y k t) h) m))
