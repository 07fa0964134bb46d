-- ===== src/Client/Rule/Listed.antt =====
-- client/rule.go: changes of one of the two lists of actions.
use simpleiot.Prelude.{
  ℕ, zero, suc, ◌≡◌, refl, ap, ◌∙◌, Bool, List, [], ◌∷◌, map, some, length, get_elem?, All,
  Bool-cases, inl, inr,
}
use simpleiot.Client.Rule.{Action, modify}
use simpleiot.Client.Rule.Conditions.{each_index}
use simpleiot.Client.Rule.Actions.{ActionList, when_active, when_inactive}
use simpleiot.Client.Rule.Effects.{set_enabled, IsQuiet, Both, by_list, pick}
use simpleiot.Client.Rule.Modify.{each_index-modify}

pub All-get_elem? :
    {A : Type 0} (P : A → Type 0) (xs : List A) (i : ℕ) (x : A)
    → All P xs
    → get_elem? xs i ≡ some x
    → P x
All-get_elem? P [] i x h e = absurd (cc)
All-get_elem? P (y ∷ ys) zero x h e = rw (← e') h.0
  where
    e' : y ≡ x
    e' = cc
All-get_elem? P (y ∷ ys) (suc i) x h e = All-get_elem? P ys i x h.1 e

pub All-modify :
    {A : Type 0} (P : A → Type 0) (f : A → A) (i : ℕ) (xs : List A)
    → ((x : A) → P x → P (f x))
    → All P xs
    → All P (modify f i xs)
unfolding modify
All-modify P f i [] k h = tt
All-modify P f zero (x ∷ xs) k h = (k x h.0, h.1)
All-modify P f (suc i) (x ∷ xs) k h = (h.0, All-modify P f i xs k h.1)

pub set_enabled-IsQuiet : (b : Bool) (a : Action) → IsQuiet a → IsQuiet (set_enabled b a)
unfolding set_enabled
set_enabled-IsQuiet b a q = elim (Bool-cases a.disabled) [
  | inl t ↦ rw t (λ e. absurd (cc))
  | inr t ↦ rw t (λ e. q t)
]

pub by_list-pick :
    (w : ActionList) (f : List Action → List Action) (l : Both)
    → pick w (by_list w f l) ≡ f (pick w l)
by_list-pick when_active f (xs, ys) = refl
by_list-pick when_inactive f (xs, ys) = refl

pub by_list-id :
    (w : ActionList) (f : List Action → List Action) (l : Both)
    → f (pick w l) ≡ pick w l
    → by_list w f l ≡ l
by_list-id when_active f (xs, ys) e = ap (λ (l : List Action). (l, ys)) e
by_list-id when_inactive f (xs, ys) e = ap (λ (l : List Action). (xs, l)) e

pub by_list-loop :
    (w : ActionList) (f : Action → Action) (n i : ℕ) (l : Both)
    → by_list w (each_index (modify f) n (suc i)) (by_list w (modify f i) l)
      ≡ by_list w (each_index (modify f) (suc n) i) l
unfolding each_index
by_list-loop when_active f n i (xs, ys) = refl
by_list-loop when_inactive f n i (xs, ys) = refl

pub by_list-none :
    (w : ActionList) (f : Action → Action) (i : ℕ) (l : Both)
    → by_list w (each_index (modify f) zero i) l ≡ l
unfolding each_index
by_list-none when_active f i (xs, ys) = refl
by_list-none when_inactive f i (xs, ys) = refl

pub by_list-map :
    (w : ActionList) (f : Action → Action) (n : ℕ) (l : Both)
    → n ≡ length (pick w l)
    → by_list w (each_index (modify f) n 0) l ≡ by_list w (map f) l
by_list-map when_active f n (xs, ys) e =
    ap (λ (l : List Action). (l, ys))
      (ap (λ k. each_index (modify f) k 0 xs) e ∙ each_index-modify f xs)
by_list-map when_inactive f n (xs, ys) e =
    ap (λ (l : List Action). (xs, l))
      (ap (λ k. each_index (modify f) k 0 ys) e ∙ each_index-modify f ys)
