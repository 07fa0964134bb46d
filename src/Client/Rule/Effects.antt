-- ===== src/Client/Rule/Effects.antt =====
-- client/rule.go: what the round of an action does to the actions, apart from their errors.
use simpleiot.Prelude.{
  ℕ, ◌≡◌, refl, sym, ap, ◌∙◌, String, Bool, true, false, not, List, [], ◌∷◌, map, Option, some,
  get_elem?, str_eq, if◌then◌else◌, if_view,
}
use simpleiot.Data.Node.{NodeEdge}
use simpleiot.Client.Rule.{
  Action, Rule, Outside, RuleClient, Reply, refusal, answer, modify, send_error, process_error,
}
use simpleiot.Client.Rule.Actions.{
  ActionList, when_active, when_inactive, actions_of, Performed, performed, continues, returns,
  exits, modify_action, action_error, action_failed, set_value, notify_nodes, notify, perform,
  mark_active, finish_action,
}
use simpleiot.Client.Rule.Frame.{send_point-config, send_error-config, process_error-view}
use simpleiot.Client.Rule.Modify.{modify_id, map-modify_same, map-modify, modify_ext}

-- An action without its error
abbrev pub bare : Action → Action
bare a = record a { error = "" }

-- An enabled action is set.
unfoldable pub set_enabled : Bool → Action → Action
set_enabled b a = if a.disabled then a else record a { active = b }

-- A notification can always be published.
abbrev pub Delivers : {W : Type 0} → Outside W → Type 0
Delivers {W} outside = (s m : String) (w : W) → (outside.publish_notification s m w).0 ≡ false

-- An action that does not play audio, if it is enabled
abbrev pub IsQuiet : Action → Type 0
IsQuiet a = a.disabled ≡ false → str_eq a.action "playAudio" ≡ false

abbrev pub activate : Bool → Action → Action
activate b a = record a { active = b }

-- Both lists of actions
abbrev pub Both : Type 0
Both = List Action × List Action

abbrev pub both : Rule → Both
both r = (map bare r.actions, map bare r.actions_inactive)

abbrev pub by_list : ActionList → (List Action → List Action) → Both → Both
by_list when_active f (xs, ys) = (f xs, ys)
by_list when_inactive f (xs, ys) = (xs, f ys)

abbrev pub pick : ActionList → Both → List Action
pick when_active (xs, ys) = xs
pick when_inactive (xs, ys) = ys

pub pick-actions_of :
    (which : ActionList) (r : Rule) → pick which (both r) ≡ map bare (actions_of which r)
unfolding actions_of
pick-actions_of when_active r = refl
pick-actions_of when_inactive r = refl

-- The action is carried out, with a client that has the property.
abbrev pub Lands : {W : Type 0} → (RuleClient W → Type 0) → Performed W → Type 0
Lands P (performed e rc) = P rc
Lands P (continues rc) = ⊥
Lands P (returns rc) = ⊥
Lands P exits = ⊥

-- The next action follows, with a client that has the property.
abbrev pub Proceeds : {W : Type 0} → (RuleClient W → Type 0) → Performed W → Type 0
Proceeds P (performed e rc) = P rc
Proceeds P (continues rc) = P rc
Proceeds P (returns rc) = ⊥
Proceeds P exits = ⊥

module _ {W : Type 0} (outside : Outside W) (which : ActionList) where
  abbrev pub seen : RuleClient W → Both
  seen rc = both rc.config

  process_error-seen :
      (text : String) (rc : RuleClient W) → seen (process_error outside text rc) ≡ seen rc
  process_error-seen = process_error-view outside both (λ r e. refl)

  modify_action-seen :
      (f f' : Action → Action) (i : ℕ) (rc : RuleClient W)
      → ((a : Action) → bare (f a) ≡ f' (bare a))
      → seen (modify_action outside which f i rc) ≡ by_list which (modify f' i) (seen rc)
  unfolding modify_action
  modify_action-seen f f' i rc h = by_which which
    where
      by_which :
          (w : ActionList)
          → seen (modify_action outside w f i rc) ≡ by_list w (modify f' i) (seen rc)
      by_which when_active =
          ap (λ (xs : List Action). (xs, map bare rc.config.actions_inactive))
            (map-modify f bare f' i rc.config.actions h)
      by_which when_inactive =
          ap (λ (ys : List Action). (map bare rc.config.actions, ys))
            (map-modify f bare f' i rc.config.actions_inactive h)

  modify_action-same :
      (f : Action → Action) (i : ℕ) (rc : RuleClient W)
      → ((a : Action) → bare (f a) ≡ bare a)
      → seen (modify_action outside which f i rc) ≡ seen rc
  unfolding modify_action
  modify_action-same f i rc h = by_which which
    where
      by_which : (w : ActionList) → seen (modify_action outside w f i rc) ≡ seen rc
      by_which when_active =
          ap (λ (xs : List Action). (xs, map bare rc.config.actions_inactive))
            (map-modify_same f bare i rc.config.actions h)
      by_which when_inactive =
          ap (λ (ys : List Action). (map bare rc.config.actions, ys))
            (map-modify_same f bare i rc.config.actions_inactive h)

  action_error-seen :
      (i : ℕ) (a : Action) (text : String) (rc : RuleClient W)
      → seen (action_error outside which i a text rc) ≡ seen rc
  unfolding action_error
  action_error-seen i a text rc =
      let same = ap both (send_error-config outside a.id text rc) in
      let (lost, rc') = send_error outside a.id text rc in
      if_view seen lost rc' _ same
        (modify_action-same (λ a. record a { error = text }) i rc' (λ a. refl) ∙ same)

  abbrev pub Same : RuleClient W → RuleClient W → Type 0
  Same rc rc' = seen rc' ≡ seen rc

  action_failed-Lands :
      (i : ℕ) (a : Action) (text : String) (rc : RuleClient W)
      → Lands (Same rc) (action_failed outside which i a text rc)
  unfolding action_failed
  action_failed-Lands i a text rc =
      process_error-seen text _
      ∙ if_view seen (not (str_eq a.error text)) _ rc (action_error-seen i a text rc) refl

  if_Lands :
      (P : RuleClient W → Type 0) (b : Bool) (x y : Performed W)
      → Lands P x
      → Lands P y
      → Lands P (if b then x else y)
  if_Lands P true x y h k = h
  if_Lands P false x y h k = k

  set_value-Lands :
      (i : ℕ) (a : Action) (rc : RuleClient W) → Lands (Same rc) (set_value outside which i a rc)
  unfolding set_value
  set_value-Lands i a rc =
      if_Lands (Same rc) (str_eq a.node_id "") _ _ (action_failed-Lands i a _ rc) (
        if_Lands (Same rc) (str_eq a.point_type "") _ _ (action_failed-Lands i a _ rc)
          (ap both (send_point-config outside a.node_id _ rc)))

  notify_nodes-Lands :
      (i : ℕ) (a : Action) (reply : Reply (List NodeEdge)) (rc : RuleClient W)
      → Delivers outside
      → Lands (Same rc) (notify_nodes outside which i a reply rc)
  unfolding notify_nodes
  notify_nodes-Lands i a (refusal text) rc d = action_failed-Lands i a text rc
  notify_nodes-Lands i a (answer []) rc d = action_failed-Lands i a _ rc
  notify_nodes-Lands i a (answer (n ∷ ns)) rc d = rw (d a.node_id _ rc.world) refl

  pub perform-Lands :
      (trigger : String) (i : ℕ) (a : Action) (rc : RuleClient W)
      → Delivers outside
      → str_eq a.action "playAudio" ≡ false
      → Lands (Same rc) (perform outside which trigger i a rc)
  unfolding perform notify
  perform-Lands trigger i a rc d q =
      if_Lands (Same rc) (str_eq a.action "setValue") _ _ (set_value-Lands i a rc) (
        if_Lands (Same rc) (str_eq a.action "notify") _ _ (notify_nodes-Lands i a _ _ d)
          (rw q (action_failed-Lands i a _ rc)))

  pub mark_active-seen :
      (b : Bool) (i : ℕ) (a : Action) (rc : RuleClient W)
      → seen (mark_active outside which b i a rc) ≡ by_list which (modify (activate b) i) (seen rc)
  unfolding mark_active
  mark_active-seen b i a rc =
      modify_action-seen (activate b) (activate b) i _ (λ a. refl)
      ∙ ap (by_list which (modify (activate b) i)) (ap both (send_point-config outside a.id _ rc))

  -- The round has set the action.
  abbrev pub Marked : ℕ → RuleClient W → RuleClient W → Type 0
  Marked i rc rc' = seen rc' ≡ by_list which (modify (activate true) i) (seen rc)

  pub finish_action-Proceeds :
      (i : ℕ) (a : Action) (p : Performed W) (rc : RuleClient W)
      → Lands (Same rc) p
      → Proceeds (Marked i rc) (finish_action outside which i a p)
  unfolding finish_action
  finish_action-Proceeds i a (performed e rc') rc h =
      let marked =
        mark_active-seen true i a rc' ∙ ap (by_list which (modify (activate true) i)) h in
      if_view seen e _ _ marked (
        if_view seen (str_eq a.error "") _ _ marked
          (process_error-seen "" _ ∙ action_error-seen i a "" _ ∙ marked))
  finish_action-Proceeds i a (continues rc') rc h = absurd h
  finish_action-Proceeds i a (returns rc') rc h = absurd h
  finish_action-Proceeds i a exits rc h = absurd h

  -- The round has set the action, if it is enabled.
  abbrev pub Stepped : Bool → ℕ → RuleClient W → RuleClient W → Type 0
  Stepped b i rc rc' = seen rc' ≡ by_list which (modify (set_enabled b) i) (seen rc)

  -- The view of the list has this at the index.
  abbrev pub At : ℕ → Option Action → RuleClient W → Type 0
  At i o rc = get_elem? (pick which (seen rc)) i ≡ o

  pub disabled_stays :
      (b : Bool) (i : ℕ) (a : Action) (rc : RuleClient W)
      → At i (some (bare a)) rc
      → a.disabled ≡ true
      → seen rc ≡ by_list which (modify (set_enabled b) i) (seen rc)
  unfolding set_enabled
  disabled_stays b i a rc e d = by_which which (seen rc) e
    where
      stays : set_enabled b (bare a) ≡ bare a
      stays = rw d refl

      by_which :
          (w : ActionList) (l : Both)
          → get_elem? (pick w l) i ≡ some (bare a)
          → l ≡ by_list w (modify (set_enabled b) i) l
      by_which when_active (xs, ys) k =
          ap (λ (l : List Action). (l, ys)) (sym (modify_id (set_enabled b) i xs (bare a) k stays))
      by_which when_inactive (xs, ys) k =
          ap (λ (l : List Action). (xs, l)) (sym (modify_id (set_enabled b) i ys (bare a) k stays))

  pub enabled_set :
      (b : Bool) (i : ℕ) (a : Action) (rc : RuleClient W)
      → At i (some (bare a)) rc
      → a.disabled ≡ false
      → by_list which (modify (activate b) i) (seen rc)
        ≡ by_list which (modify (set_enabled b) i) (seen rc)
  unfolding set_enabled
  enabled_set b i a rc e d = by_which which (seen rc) e
    where
      same : activate b (bare a) ≡ set_enabled b (bare a)
      same = rw d refl

      by_which :
          (w : ActionList) (l : Both)
          → get_elem? (pick w l) i ≡ some (bare a)
          → by_list w (modify (activate b) i) l ≡ by_list w (modify (set_enabled b) i) l
      by_which when_active (xs, ys) k =
          ap (λ (l : List Action). (l, ys))
            (modify_ext (activate b) (set_enabled b) i xs (bare a) k same)
      by_which when_inactive (xs, ys) k =
          ap (λ (l : List Action). (xs, l))
            (modify_ext (activate b) (set_enabled b) i ys (bare a) k same)
