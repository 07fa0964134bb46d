-- ===== src/Client/Rule/Flags.antt =====
-- client/rule.go: which actions are active once `run` has acted on the state of the rule.
use simpleiot.Prelude.{
  ℕ, zero, suc, ◌≡◌, refl, sym, ap, ◌∙◌, String, Bool, true, false, List, map, Option, none, some,
  length, get_elem?, All, Bool-cases, inl, inr,
}
use simpleiot.Prelude.Options.{Option-cases}
use mathlib.Core.Path.{subst}
use simpleiot.Client.Rule.{Action, Outside, RuleClient, modify}
use simpleiot.Client.Rule.Conditions.{each_index}
use simpleiot.Client.Rule.Actions.{
  ActionList, actions_of, Performed, performed, continues, returns, exits, follow, perform,
  finish_action, run_action, run_actions, rule_run_actions, deactivate_at, deactivate,
  rule_inactive_actions,
}
use simpleiot.Client.Rule.Effects.{
  bare, set_enabled, Delivers, IsQuiet, by_list, pick, pick-actions_of, Proceeds, seen, Marked,
  Stepped, At, mark_active-seen, finish_action-Proceeds, perform-Lands, disabled_stays, enabled_set,
}
use simpleiot.Client.Rule.Modify.{modify-none, get_elem?-map, get_elem?-map-none, length-map}
use simpleiot.Client.Rule.Listed.{
  All-get_elem?, All-modify, set_enabled-IsQuiet, by_list-pick, by_list-id, by_list-loop,
  by_list-none, by_list-map,
}

module _ {W : Type 0} (outside : Outside W) (which : ActionList) where
  -- What stands in the list stands in the view.
  At-some :
      (i : ℕ) (a : Action) (rc : RuleClient W)
      → get_elem? (actions_of which rc.config) i ≡ some a
      → At outside which i (some (bare a)) rc
  At-some i a rc e =
      ap (λ (l : List Action). get_elem? l i) (pick-actions_of which rc.config)
      ∙ get_elem?-map bare (actions_of which rc.config) i a e

  At-none :
      (i : ℕ) (rc : RuleClient W)
      → get_elem? (actions_of which rc.config) i ≡ none
      → At outside which i none rc
  At-none i rc e =
      ap (λ (l : List Action). get_elem? l i) (pick-actions_of which rc.config)
      ∙ get_elem?-map-none bare (actions_of which rc.config) i e

  Proceeds-map :
      (P Q : RuleClient W → Type 0) (p : Performed W)
      → ((rc : RuleClient W) → P rc → Q rc)
      → Proceeds P p
      → Proceeds Q p
  Proceeds-map P Q (performed e rc) k h = k rc h
  Proceeds-map P Q (continues rc) k h = k rc h
  Proceeds-map P Q (returns rc) k h = absurd h
  Proceeds-map P Q exits k h = absurd h

  run_action-Proceeds :
      (trigger : String) (i : ℕ) (a : Action) (rc : RuleClient W)
      → Delivers outside
      → IsQuiet a
      → At outside which i (some (bare a)) rc
      → Proceeds (Stepped outside which true i rc) (run_action outside which trigger i (some a) rc)
  unfolding run_action
  run_action-Proceeds trigger i a rc d q e = elim (Bool-cases a.disabled) [
    | inl t ↦ let same = disabled_stays outside which true i a rc e t in simp t same
    | inr t ↦
        let ended =
          Proceeds-map (Marked outside which i rc) (Stepped outside which true i rc)
            (finish_action outside which i a (perform outside which trigger i a rc))
            (λ rc' m. m ∙ enabled_set outside which true i a rc e t)
            (finish_action-Proceeds outside which i a (perform outside which trigger i a rc) rc
              (perform-Lands outside which trigger i a rc d (q t))) in
        simp t ended
  ]

  -- The actions from an index on are set, and the program goes on.
  abbrev Sets : (n i : ℕ) → RuleClient W → Option (RuleClient W) → Type 0
  Sets n i rc o =
      (rc' : RuleClient W) × (o ≡ some rc')
      × (seen outside which rc'
          ≡ by_list which (each_index (modify (set_enabled true)) n i) (seen outside which rc))

  abbrev AllQuiet : RuleClient W → Type 0
  AllQuiet rc = All IsQuiet (pick which (seen outside which rc))

  Stepped-AllQuiet :
      (i : ℕ) (rc rc' : RuleClient W)
      → Stepped outside which true i rc rc'
      → AllQuiet rc
      → AllQuiet rc'
  Stepped-AllQuiet i rc rc' s q =
      subst (λ (l : List Action). All IsQuiet l)
        (sym (
          ap (pick which) s
          ∙ by_list-pick which (modify (set_enabled true) i) (seen outside which rc)))
        (All-modify IsQuiet (set_enabled true) i (pick which (seen outside which rc))
          (set_enabled-IsQuiet true) q)

  Sets-suc :
      (n i : ℕ) (rc rc' : RuleClient W) (o : Option (RuleClient W))
      → Stepped outside which true i rc rc'
      → Sets n (suc i) rc' o
      → Sets (suc n) i rc o
  Sets-suc n i rc rc' o h (last, e, s) = (
    last,
    e,
    s
        ∙ ap (by_list which (each_index (modify (set_enabled true)) n (suc i))) h
        ∙ by_list-loop which (set_enabled true) n i (seen outside which rc),
  )

  follow-Sets :
      (n i : ℕ) (rc : RuleClient W) (next : RuleClient W → Option (RuleClient W)) (p : Performed W)
      → Proceeds (Stepped outside which true i rc) p
      → ((rc' : RuleClient W) → Stepped outside which true i rc rc' → Sets n (suc i) rc' (next rc'))
      → Sets (suc n) i rc (follow next p)
  unfolding follow
  follow-Sets n i rc next (performed e rc') h k = Sets-suc n i rc rc' (next rc') h (k rc' h)
  follow-Sets n i rc next (continues rc') h k = Sets-suc n i rc rc' (next rc') h (k rc' h)
  follow-Sets n i rc next (returns rc') h k = absurd h
  follow-Sets n i rc next exits h k = absurd h

  round-Proceeds :
      (trigger : String) (i : ℕ) (rc : RuleClient W)
      → Delivers outside
      → AllQuiet rc
      → Proceeds
          (Stepped outside which true i rc)
          (run_action outside which trigger i (get_elem? (actions_of which rc.config) i) rc)
  unfolding run_action
  round-Proceeds trigger i rc d q = elim (Option-cases (get_elem? (actions_of which rc.config) i)) [
    | inl e ↦ rw e (sym (by_list-id which _ _ (modify-none _ i _ (At-none i rc e))))
    | inr (a, e) ↦
        let at = At-some i a rc e in
        rw e (
          run_action-Proceeds trigger i a rc d
            (All-get_elem? IsQuiet (pick which (seen outside which rc)) i (bare a) q at) at)
  ]

  run_actions-Sets :
      (trigger : String) (n i : ℕ) (rc : RuleClient W)
      → Delivers outside
      → AllQuiet rc
      → Sets n i rc (run_actions outside which trigger n i rc)
  unfolding run_actions
  run_actions-Sets trigger zero i rc d q =
      (rc, refl, sym (by_list-none which (set_enabled true) i (seen outside which rc)))
  run_actions-Sets trigger (suc n) i rc d q =
      follow-Sets n i rc (run_actions outside which trigger n (suc i)) _
        (round-Proceeds trigger i rc d q)
        (λ rc' s. run_actions-Sets trigger n (suc i) rc' d (Stepped-AllQuiet i rc rc' s q))

  length-pick :
      (rc : RuleClient W)
      → length (actions_of which rc.config) ≡ length (pick which (seen outside which rc))
  length-pick rc =
      sym
        (ap length (pick-actions_of which rc.config) ∙ length-map bare (actions_of which rc.config))

  -- The list of actions has been gone through.
  abbrev SetsAll : Bool → RuleClient W → RuleClient W → Type 0
  SetsAll b rc rc' =
      seen outside which rc' ≡ by_list which (map (set_enabled b)) (seen outside which rc)

  pub rule_run_actions-SetsAll :
      (trigger : String) (rc : RuleClient W)
      → Delivers outside
      → AllQuiet rc
      → (rc' : RuleClient W) × (rule_run_actions outside which trigger rc ≡ some rc')
        × SetsAll true rc rc'
  unfolding rule_run_actions
  rule_run_actions-SetsAll trigger rc d q =
      let (rc', e, s) = run_actions-Sets trigger (length (actions_of which rc.config)) 0 rc d q in
      (rc', e, s ∙ by_list-map which (set_enabled true) _ (seen outside which rc) (length-pick rc))

  deactivate_at-Stepped :
      (i : ℕ) (rc : RuleClient W)
      → Stepped outside which false i rc
          (deactivate_at outside which i (get_elem? (actions_of which rc.config) i) rc)
  unfolding deactivate_at
  deactivate_at-Stepped i rc = elim (Option-cases (get_elem? (actions_of which rc.config) i)) [
    | inl e ↦ rw e (sym (by_list-id which _ _ (modify-none _ i _ (At-none i rc e))))
    | inr (a, e) ↦ rw e (deactivated a (At-some i a rc e))
  ]
    where
      deactivated :
          (a : Action)
          → At outside which i (some (bare a)) rc
          → Stepped outside which false i rc (deactivate_at outside which i (some a) rc)
      deactivated a at = elim (Bool-cases a.disabled) [
        | inl t ↦ let same = disabled_stays outside which false i a rc at t in simp t same
        | inr t ↦
            let set =
              mark_active-seen outside which false i a rc
              ∙ enabled_set outside which false i a rc at t in
            simp t set
      ]

  deactivate-seen :
      (n i : ℕ) (rc : RuleClient W)
      → seen outside which (deactivate outside which n i rc)
        ≡ by_list which (each_index (modify (set_enabled false)) n i) (seen outside which rc)
  unfolding deactivate
  deactivate-seen zero i rc = sym (by_list-none which (set_enabled false) i (seen outside which rc))
  deactivate-seen (suc n) i rc =
      let rc' = deactivate_at outside which i (get_elem? (actions_of which rc.config) i) rc in
      deactivate-seen n (suc i) rc'
      ∙ ap (by_list which (each_index (modify (set_enabled false)) n (suc i)))
          (deactivate_at-Stepped i rc)
      ∙ by_list-loop which (set_enabled false) n i (seen outside which rc)

  pub rule_inactive_actions-SetsAll :
      (rc : RuleClient W) → SetsAll false rc (rule_inactive_actions outside which rc)
  unfolding rule_inactive_actions
  rule_inactive_actions-SetsAll rc =
      deactivate-seen (length (actions_of which rc.config)) 0 rc
      ∙ by_list-map which (set_enabled false) _ (seen outside which rc) (length-pick rc)
