-- ===== src/Data/Points/Same.antt =====
-- data/point.go: points of the same type and key.
use simpleiot.Prelude.{
  String, Bool, true, false, not, ◌≡◌, ◌≢◌, refl, sym, ap₂, ◌∙◌, ◌&&◌, str_eq, eq_iff, eq_refl,
  Bool-cases, inl, inr, ne→str_eq, if◌then◌else◌,
}
use simpleiot.Data.Point.{Point, is_match}

-- The type and the key agree.
abbrev pub same : Point → Point → Bool
same b p = str_eq b.typ p.typ && str_eq b.key p.key

pub both_true : (a b : Bool) → (a && b) ≡ true → (a ≡ true) × (b ≡ true)
both_true true true h = (refl, refl)
both_true true false h = absurd (cc)
both_true false b h = absurd (cc)

pub same-eq : (b p : Point) → same b p ≡ true → (b.typ ≡ p.typ) × (b.key ≡ p.key)
same-eq b p h =
    let (t, k) = both_true (str_eq b.typ p.typ) (str_eq b.key p.key) h in
    ((eq_iff b.typ p.typ).0 t, (eq_iff b.key p.key).0 k)

pub same-subst : (b p q : Point) → same b p ≡ true → same b q ≡ same p q
same-subst b p q h =
    let (t, k) = same-eq b p h in
    ap₂ (λ (x : String) (y : String). str_eq x q.typ && str_eq y q.key) t k

pub same-subst_right : (b p q : Point) → same p q ≡ true → same b p ≡ same b q
same-subst_right b p q h =
    let (t, k) = same-eq p q h in
    ap₂ (λ (x : String) (y : String). str_eq b.typ x && str_eq b.key y) t k

str_eq_sym : (a b : String) → str_eq a b ≡ str_eq b a
str_eq_sym a b = elim (Bool-cases (str_eq a b)) [
  | inl t ↦ t ∙ sym ((eq_iff b a).1 (sym ((eq_iff a b).0 t)))
  | inr t ↦ t ∙ sym (ne→str_eq b a (λ e. cc (t, (eq_iff a b).1 (sym e))))
]

match_test :
    (a b c : Bool)
    → a ≡ false
    → (if not a && not b then false else if not c then false else true) ≡ (b && c)
match_test false true true h = refl
match_test false true false h = refl
match_test false false true h = refl
match_test false false false h = refl
match_test true b c h = absurd (cc)

-- The empty type matches every type, and any other only itself.
pub is_match-same : (p q : Point) → q.typ ≢ "" → is_match p q.typ q.key ≡ same p q
unfolding is_match
is_match-same p q n =
    match_test (str_eq q.typ "") (str_eq q.typ p.typ) (str_eq q.key p.key) (ne→str_eq q.typ "" n)
    ∙ ap₂ (λ (x y : Bool). x && y) (str_eq_sym q.typ p.typ) (str_eq_sym q.key p.key)

pub same_refl : (p : Point) → same p p ≡ true
same_refl p = rw (eq_refl p.typ, eq_refl p.key) refl
