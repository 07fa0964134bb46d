-- ===== src/Client/Rule/Reaction.antt =====
-- client/rule.go: `run`, from the points that arrive to the actions that are active.
use simpleiot.Prelude.{
  ◌≡◌, refl, sym, ap, ◌∙◌, String, Bool, true, false, not, List, [], ◌∷◌, map, some, All,
  if◌then◌else◌, Bool-cases, inl, inr, if_eq_true, if_eq_false,
}
use mathlib.Core.Path.{subst}
use simpleiot.Data.Point.{Point}
use simpleiot.Client.Rule.{Action, Outside, RuleClient}
use simpleiot.Client.Rule.Conditions.{same_bool, process_points, rule_process_points}
use simpleiot.Client.Rule.Actions.{when_active, when_inactive, rule_inactive_actions}
use simpleiot.Client.Rule.Running.{act, run_points}
use simpleiot.Client.Rule.Frame.{process_points-frame}
use simpleiot.Client.Rule.Verdicts.{rule_process_points-judge_all, update_rule-view}
use simpleiot.Client.Rule.Judged.{rule_verdict}
use simpleiot.Client.Rule.Effects.{bare, set_enabled, Delivers, IsQuiet, Both, both, by_list}
use simpleiot.Client.Rule.Flags.{rule_run_actions-SetsAll, rule_inactive_actions-SetsAll}

All-bare : (as' : List Action) → All IsQuiet as' → All IsQuiet (map bare as')
All-bare [] h = tt
All-bare (a ∷ as') h = (h.0, All-bare as' h.1)

-- What the state of the rule makes of both lists
abbrev pub set_both : Bool → Both → Both
set_both b (xs, ys) = (map (set_enabled b) xs, map (set_enabled (not b)) ys)

-- Neither list has an enabled action that plays audio.
abbrev BothQuiet : Both → Type 0
BothQuiet (xs, ys) = All IsQuiet xs × All IsQuiet ys

module _ {W : Type 0} (outside : Outside W) (delivers : Delivers outside) where
  act-both :
      (id : String) (active : Bool) (rc : RuleClient W)
      → BothQuiet (both rc.config)
      → (rc' : RuleClient W) × (act outside id active rc ≡ some rc')
        × (both rc'.config ≡ set_both active (both rc.config))
  unfolding act
  act-both id true rc q =
      let (rc1, e, s) = rule_run_actions-SetsAll outside when_active id rc delivers q.0 in
      let rc2 = rule_inactive_actions outside when_inactive rc1 in
      (
        rc2,
        rw e refl,
        rule_inactive_actions-SetsAll outside when_inactive rc1
            ∙ ap (by_list when_inactive (map (set_enabled false))) s,
      )
  act-both id false rc q =
      let (rc1, e, s) = rule_run_actions-SetsAll outside when_inactive id rc delivers q.1 in
      let rc2 = rule_inactive_actions outside when_active rc1 in
      (
        rc2,
        rw e refl,
        rule_inactive_actions-SetsAll outside when_active rc1
            ∙ ap (by_list when_active (map (set_enabled false))) s,
      )

rule_process_points-both :
    {W : Type 0} (outside : Outside W) (id : String) (points : List Point) (rc : RuleClient W)
    → both (rule_process_points outside id points rc).2.config ≡ both rc.config
unfolding rule_process_points
rule_process_points-both outside id points rc =
    update_rule-view outside both (λ r b. refl) (process_points outside id points rc)
    ∙ process_points-frame outside both (λ r e. refl) (λ r cs. refl) id points rc

-- Points that arrive at an enabled rule have their effect on the actions, whatever could be sent: if a notification can
-- always be published and no enabled action plays audio, `run` ends without an exit; if the points do not change the state of
-- the rule, the actions stay, apart from their errors; if they do, then every enabled action of
-- the new state's list is active and every enabled action of the other list is not, and nothing else
-- changes in the actions, apart from their errors.
pub run_points-set_both :
    {W : Type 0} (outside : Outside W) (id : String) (points : List Point) (rc : RuleClient W)
    → Delivers outside
    → rc.config.disabled ≡ false
    → All IsQuiet rc.config.actions
    → All IsQuiet rc.config.actions_inactive
    → (rc' : RuleClient W) × (run_points outside id points rc ≡ some rc')
      × (both rc'.config ≡ (
          let active = rule_verdict id points rc.config in
          if same_bool active rc.config.active
          then both rc.config
          else set_both active (both rc.config)))
unfolding run_points
run_points-set_both outside id points rc d en q q' =
    let (active, changed, rc1) = rule_process_points outside id points rc in
    let (conditions, verdict, stored, change) =
      rule_process_points-judge_all outside id points rc in
    let frame = rule_process_points-both outside id points rc in
    let quiet : BothQuiet (both rc1.config) =
      subst BothQuiet (sym frame)
        (All-bare rc.config.actions q, All-bare rc.config.actions_inactive q') in
    let (rc2, e, s) = act-both outside d id active rc1 quiet in
    elim (Bool-cases (same_bool active rc.config.active)) [
      | inl t ↦ (
        rc1,
        if_eq_false _ _ en ∙ if_eq_true _ _ (ap not (change ∙ ap not t)),
        frame ∙ sym (if_eq_true _ _ (ap (λ b. same_bool b rc.config.active) (sym verdict) ∙ t)),
      )
      | inr t ↦ (
        rc2,
        if_eq_false _ _ en ∙ if_eq_false _ _ (ap not (change ∙ ap not t)) ∙ e,
        s
            ∙ ap (set_both active) frame
            ∙ ap (λ b. set_both b (both rc.config)) verdict
            ∙ sym (if_eq_false _ _ (ap (λ b. same_bool b rc.config.active) (sym verdict) ∙ t)),
      )
    ]
