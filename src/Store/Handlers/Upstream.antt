-- ===== src/Store/Handlers/Upstream.antt =====
-- store/store.go: who receives the points that a handler sends on.
use mathlib.Core.List.{Memᴰ}
use mathlib.Core.Path.{subst}
use simpleiot.Prelude.{
  ℕ, zero, suc, ◌<◌, ◌≡◌, refl, sym, ap, ◌∙◌, String, Bool, true, false, ◌||◌, ◌⊎◌, inl, inr, List,
  [], ◌∷◌, ◌++◌, map, Option, none, some, str_eq, if◌then◌else◌, select, All, Bool-cases, eq_iff,
  arith, if_eq_true, if_eq_false,
}
use simpleiot.Prelude.Options.{◌>>=◌, Returns, Option-cases}
use simpleiot.Store.{Db, EdgeRow, edges_down}
use simpleiot.Store.Handlers.Loop.{Memᴰ-cons, each_up-from, each_up-has}
use simpleiot.Store.Handlers.{Message, is_live, up, each_up, upstream}

-- `a` is reached from a node along edges, which are live unless deleted ones count too; nothing lies
-- above the node "none".
pub data Above (db : Db) (include_deleted : Bool) (a : String) : String → Type 0 where
  self : {u : String} → u ≡ a → Above db include_deleted a u
  through :
      {u : String} (b : String)
      → str_eq u "none" ≡ false
      → Memᴰ b (up db u include_deleted)
      → Above db include_deleted a b
      → Above db include_deleted a u

-- The edges above a node lead to smaller ranks.
up-All :
    (rank : String → ℕ) (db : Db) (incl : Bool) (u : String)
    → All (λ e. rank e.up < rank e.down) db.edges
    → All (λ b. rank b < rank u) (up db u incl)
unfolding up edges_down
up-All rank db incl u h = ranks db.edges h
  where
    ranks :
        (es : List EdgeRow)
        → All (λ e. rank e.up < rank e.down) es
        → All
            (λ b. rank b < rank u)
            (map
              (λ e. e.up)
              (select (λ e. incl || is_live db e) (select (λ e. str_eq e.down u) es)))
    ranks [] k = tt
    ranks (e ∷ es) k = elim (Bool-cases (str_eq e.down u)) [
      | inl t ↦ rw t (elim (Bool-cases (incl || is_live db e)) [
        | inl l ↦ rw l (rw (ap rank ((eq_iff e.down u).0 t)) at k.0, ranks es k.1)
        | inr l ↦ rw l (ranks es k.1)
      ])
      | inr t ↦ rw t (ranks es k.1)
    ]

module _ (accepts : Message → Bool) (db : Db) (incl : Bool) (message : String → Message)
    (accepted : (m : Message) → accepts m ≡ true) where
  each_up-Returns :
      (walk : String → Option (List Message)) (us : List String)
      → All (λ u. Returns (walk u)) us
      → Returns (each_up walk us)
  unfolding each_up
  each_up-Returns walk [] h = ([], refl)
  each_up-Returns walk (u ∷ us) h =
      let (sent, e) = h.0 in
      let (rest, k) = each_up-Returns walk us h.1 in (sent ++ rest, rw (e, k) refl)

  abbrev pub walk : ℕ → String → Option (List Message)
  walk f u = upstream accepts db incl message f u

  walk-suc :
      (f : ℕ) (u : String)
      → walk (suc f) u ≡ (
          if str_eq u "none"
          then some (message u ∷ [])
          else (each_up (walk f) (up db u incl) >>= λ rest. some (message u ∷ rest)))
  unfolding upstream
  walk-suc f u = rw (accepted (message u)) refl

  pub walk-Returns :
      (rank : String → ℕ) (f : ℕ) (u : String)
      → All (λ e. rank e.up < rank e.down) db.edges
      → rank u < f
      → Returns (walk f u)
  walk-Returns rank zero u h l = absurd (omega arith)
  walk-Returns rank (suc f) u h l = elim (Bool-cases (str_eq u "none")) [
    | inl t ↦ (message u ∷ [], walk-suc f u ∙ if_eq_true _ _ t)
    | inr t ↦
        let (rest, e) =
          each_up-Returns (walk f) (up db u incl) (
            below f (up db u incl) (up-All rank db incl u h) l
              (λ b k. walk-Returns rank f b h k)) in
        (message u ∷ rest, walk-suc f u ∙ if_eq_false _ _ t ∙ rw e refl)
  ]
    where
      below :
          (f : ℕ) (bs : List String)
          → All (λ b. rank b < rank u) bs
          → rank u < suc f
          → ((b : String) → rank b < f → Returns (walk f b))
          → All (λ b. Returns (walk f b)) bs
      below f [] a l k = tt
      below f (b ∷ bs) a l k = (k b (omega (arith, a.0)), below f bs a.1 l k)

  -- What a walk that returns has published
  abbrev Walked : ℕ → String → List Message → Type 0
  Walked f u out =
      ((str_eq u "none" ≡ true) × (out ≡ message u ∷ []))
      ⊎ ((str_eq u "none" ≡ false)
          × (rest : List Message) × (each_up (walk f) (up db u incl) ≡ some rest)
          × (out ≡ message u ∷ rest))

  walk-Walked :
      (f : ℕ) (u : String) (out : List Message) → walk (suc f) u ≡ some out → Walked f u out
  walk-Walked f u out h = elim (Bool-cases (str_eq u "none")) [
    | inl t ↦ inl (t, cc (sym h ∙ walk-suc f u ∙ if_eq_true _ _ t))
    | inr t ↦ elim (Option-cases (each_up (walk f) (up db u incl))) [
      | inl e ↦ absurd (lost e (sym h ∙ walk-suc f u ∙ if_eq_false _ _ t))
      | inr (rest, e) ↦ inr (t, rest, e, found rest e (sym h ∙ walk-suc f u ∙ if_eq_false _ _ t))
    ]
  ]
    where
      lost :
          each_up (walk f) (up db u incl) ≡ none
          → some out ≡ (each_up (walk f) (up db u incl) >>= λ rest. some (message u ∷ rest))
          → ⊥
      lost e k = let k' : some out ≡ none = rw e at k in cc

      found :
          (rest : List Message)
          → each_up (walk f) (up db u incl) ≡ some rest
          → some out ≡ (each_up (walk f) (up db u incl) >>= λ rest. some (message u ∷ rest))
          → out ≡ message u ∷ rest
      found rest e k = let k' : some out ≡ some (message u ∷ rest) = rw e at k in cc

  walk-zero : (u : String) (out : List Message) → ¬ (walk zero u ≡ some out)
  unfolding upstream
  walk-zero u out h = cc

  -- Every message of a walk goes to a node above.
  pub walk-from :
      (f : ℕ) (u : String) (out : List Message) (m : Message)
      → walk f u ≡ some out
      → Memᴰ m out
      → (a : String) × Above db incl a u × (m ≡ message a)
  walk-from zero u out m h i = absurd (walk-zero u out h)
  walk-from (suc f) u out m h i = elim (walk-Walked f u out h) [
    | inl (t, e) ↦ elim (Memᴰ-cons (subst (λ (l : List Message). Memᴰ m l) e i)) [
      | inl j ↦ (u, self refl, j)
      | inr j ↦ elim j [ ]
    ]
    | inr (t, rest, e, k) ↦ elim (Memᴰ-cons (subst (λ (l : List Message). Memᴰ m l) k i)) [
      | inl j ↦ (u, self refl, j)
      | inr j ↦
          let (b, sent, l, e', j') = each_up-from (walk f) (up db u incl) rest m e j in
          let (a, above, e'') = walk-from f b sent m e' j' in (a, through b t l above, e'')
    ]
  ]

  -- Every node above has its message in a walk.
  pub walk-has :
      (f : ℕ) (u a : String) (out : List Message)
      → walk f u ≡ some out
      → Above db incl a u
      → Memᴰ (message a) out
  walk-has zero u a out h above = absurd (walk-zero u out h)
  walk-has (suc f) u a out h (self e) = elim (walk-Walked f u out h) [
    | inl (t, k) ↦
        subst (λ (l : List Message). Memᴰ (message a) l) (sym k) (Memᴰ.head (ap message (sym e)))
    | inr (t, rest, e', k) ↦
        subst (λ (l : List Message). Memᴰ (message a) l) (sym k) (Memᴰ.head (ap message (sym e)))
  ]
  walk-has (suc f) u a out h (through b t l above) = elim (walk-Walked f u out h) [
    | inl (t', k) ↦ absurd (cc)
    | inr (t', rest, e, k) ↦
        let (sent, e', has) = each_up-has (walk f) (up db u incl) rest b e l in
        subst (λ (l : List Message). Memᴰ (message a) l) (sym k)
          (Memᴰ.tail (has (message a) (walk-has f b a sent e' above)))
  ]
