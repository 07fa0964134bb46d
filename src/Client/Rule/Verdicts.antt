-- ===== src/Client/Rule/Verdicts.antt =====
-- client/rule.go: what `ruleProcessPoints` makes of the conditions, apart from their errors.
use simpleiot.Prelude.{
  ℕ, ◌+◌, ◌≡◌, refl, sym, ap, ap₂, ◌∙◌, String, Bool, true, false, not, ◌&&◌, ◌||◌, List, [], ◌∷◌,
  map, some, length, get_elem?, arith, str_eq, if◌then◌else◌, ◌==◌, Bool-cases, inl, inr, if_view,
}
use simpleiot.Prelude.Options.{Option-cases}
use simpleiot.Data.Point.{Point}
use simpleiot.Client.Rule.{
  Condition, Rule, Outside, RuleClient, modify, send_error, send_active, process_error,
}
use simpleiot.Client.Rule.Conditions.{
  Judgement, skip, broken, judged, unknown, judge, judge_value, judge_schedule, same_bool,
  each_index, modify_condition, condition_error, condition_failed, update_active, clear_error,
  apply_judgement, process_at, process_condition, process_points, scan_conditions, all_active,
  update_rule, rule_process_points,
}
use simpleiot.Client.Rule.Frame.{
  send_error-config, send_active-config, process_error-view, process_points-frame,
}
use simpleiot.Client.Rule.Modify.{
  each_index-modify, modify_id, modify-none, map-modify_same, map-modify, get_elem?-map,
  get_elem?-map-none, each_index-view, modify_ext, map-id, map-map, length-map,
}
use simpleiot.Client.Rule.Judged.{
  forget, active_after, judge_active, set_active, judge_all, every_enabled, some_enabled,
  rule_verdict,
}

same_bool-eq : (a b : Bool) → same_bool a b ≡ true → b ≡ a
unfolding same_bool
same_bool-eq true true h = refl
same_bool-eq true false h = cc
same_bool-eq false true h = cc
same_bool-eq false false h = refl

module _ {W : Type 0} (outside : Outside W) where
  abbrev bare_conditions : RuleClient W → List Condition
  bare_conditions rc = map forget rc.config.conditions

  process_error-conditions :
      (text : String) (rc : RuleClient W)
      → (process_error outside text rc).config.conditions ≡ rc.config.conditions
  process_error-conditions = process_error-view outside (λ r. r.conditions) (λ r e. refl)

  condition_error-view :
      (i : ℕ) (c : Condition) (text : String) (rc : RuleClient W)
      → bare_conditions (condition_error outside i c text rc) ≡ bare_conditions rc
  unfolding condition_error modify_condition
  condition_error-view i c text rc =
      let same =
        ap (λ (r : Rule). map forget r.conditions) (send_error-config outside c.id text rc) in
      let (lost, rc') = send_error outside c.id text rc in
      if_view bare_conditions lost rc' _ same (
        map-modify_same (λ (c : Condition). record c { error = text }) forget i
          rc'.config.conditions (λ c. refl)
        ∙ same)

  condition_failed-view :
      (i : ℕ) (c : Condition) (text : String) (rc : RuleClient W)
      → bare_conditions (condition_failed outside i c text rc) ≡ bare_conditions rc
  unfolding condition_failed
  condition_failed-view i c text rc =
      ap (map forget) (process_error-conditions text _)
      ∙ if_view bare_conditions (not (str_eq c.error text)) _ rc (condition_error-view i c text rc)
          refl

  clear_error-view :
      (i : ℕ) (c : Condition) (rc : RuleClient W)
      → bare_conditions (clear_error outside i c rc) ≡ bare_conditions rc
  unfolding clear_error
  clear_error-view i c rc =
      if_view bare_conditions (not (str_eq c.error "")) _ rc
        (ap (map forget) (process_error-conditions "" _) ∙ condition_error-view i c "" rc) refl

  -- The view of the condition at an index is set.
  abbrev At : ℕ → Condition → RuleClient W → Type 0
  At i c rc = get_elem? (bare_conditions rc) i ≡ some (forget c)

  update_active-view :
      (i : ℕ) (c : Condition) (b : Bool) (rc : RuleClient W)
      → At i c rc
      → bare_conditions (update_active outside i c b rc)
        ≡ modify (set_active b) i (bare_conditions rc)
  unfolding update_active modify_condition
  update_active-view i c b rc e = elim (Bool-cases (same_bool b c.active)) [
    | inl t ↦ rw t (
        sym (
          modify_id (set_active b) i (bare_conditions rc) (forget c) e
            (ap (λ (a : Bool). set_active a (forget c)) (sym (same_bool-eq b c.active t)))))
    | inr t ↦ rw t (
        map-modify (set_active b) forget (set_active b) i
          (send_active outside c.id b rc).config.conditions (λ c. refl)
        ∙ ap (λ (r : Rule). modify (set_active b) i (map forget r.conditions))
            (send_active-config outside c.id b rc))
  ]

  -- What a judgement does to a condition
  abbrev decide : Judgement → Condition → Condition
  decide j c = set_active (active_after c.active j) c

  apply_judgement-view :
      (i : ℕ) (c : Condition) (j : Judgement) (rc : RuleClient W)
      → At i c rc
      → bare_conditions (apply_judgement outside i c j rc)
        ≡ modify (decide j) i (bare_conditions rc)
  unfolding apply_judgement
  apply_judgement-view i c skip rc e =
      sym (modify_id (decide skip) i (bare_conditions rc) (forget c) e refl)
  apply_judgement-view i c (broken text) rc e =
      condition_failed-view i c text rc
      ∙ sym (modify_id (decide (broken text)) i (bare_conditions rc) (forget c) e refl)
  apply_judgement-view i c (judged b) rc e =
      clear_error-view i c (update_active outside i c b rc) ∙ update_active-view i c b rc e
  apply_judgement-view i c (unknown text) rc e =
      let same = condition_failed-view i c text rc in
      update_active-view i c false (condition_failed outside i c text rc)
        (ap (λ (cs : List Condition). get_elem? cs i) same ∙ e)
      ∙ ap (modify (set_active false) i) same

  judge-forget :
      (node_id : String) (p : Point) (c : Condition)
      → judge node_id p (forget c) ≡ judge node_id p c
  unfolding judge judge_value judge_schedule
  judge-forget node_id p c = refl

  process_condition-view :
      (node_id : String) (p : Point) (i : ℕ) (rc : RuleClient W)
      → bare_conditions (process_condition outside node_id p i rc)
        ≡ modify (judge_active node_id p) i (bare_conditions rc)
  unfolding process_condition process_at judge_active
  process_condition-view node_id p i rc = elim (Option-cases (get_elem? rc.config.conditions i)) [
    | inl e ↦ rw e (
        sym (
          modify-none (judge_active node_id p) i (bare_conditions rc)
            (get_elem?-map-none forget rc.config.conditions i e)))
    | inr (c, e) ↦
        let at : At i c rc = get_elem?-map forget rc.config.conditions i c e in
        rw e (
          apply_judgement-view i c (judge node_id p c) rc at
          ∙ modify_ext (decide (judge node_id p c)) (judge_active node_id p) i (bare_conditions rc)
              (forget c) at
              (ap (λ (j : Judgement). decide j (forget c)) (sym (judge-forget node_id p c))))
  ]

  process_points-view :
      (node_id : String) (ps : List Point) (rc : RuleClient W)
      → bare_conditions (process_points outside node_id ps rc)
        ≡ map (judge_all node_id ps) (bare_conditions rc)
  unfolding process_points judge_all
  process_points-view node_id [] rc = sym (map-id (bare_conditions rc))
  process_points-view node_id (p ∷ ps) rc =
      let n = length rc.config.conditions in
      let rc' = each_index (process_condition outside node_id p) n 0 rc in
      let round : bare_conditions rc' ≡ map (judge_active node_id p) (bare_conditions rc) =
        each_index-view (process_condition outside node_id p) bare_conditions
          (judge_active node_id p) (process_condition-view node_id p) n 0 rc
        ∙ ap (λ (k : ℕ). each_index (modify (judge_active node_id p)) k 0 (bare_conditions rc))
            (sym (length-map forget rc.config.conditions))
        ∙ each_index-modify (judge_active node_id p) (bare_conditions rc) in
      process_points-view node_id ps rc'
      ∙ ap (map (judge_all node_id ps)) round
      ∙ map-map (judge_all node_id ps) (judge_active node_id p) (bare_conditions rc)

pub update_rule-view :
    {W B : Type 0} (outside : Outside W) (g : Rule → B)
    → ((r : Rule) (b : Bool) → g (record r { active = b }) ≡ g r)
    → (rc : RuleClient W) → g (update_rule outside rc).2.config ≡ g rc.config
unfolding update_rule
update_rule-view {W} outside g keep rc =
    let active = all_active rc.config.conditions in
    if_view (λ (s : Bool × Bool × RuleClient W). g s.2.config)
      (not (same_bool active rc.config.active)) _ _
      (keep (send_active outside rc.config.id active rc).config active
        ∙ ap g (send_active-config outside rc.config.id active rc))
      refl

update_rule_lem :
    {W : Type 0} (outside : Outside W) (rc : RuleClient W)
    → let (active, changed, rc') = update_rule outside rc in
      (rc'.config.conditions ≡ rc.config.conditions)
      × (active ≡ all_active rc.config.conditions)
      × (rc'.config.active ≡ active)
      × (changed ≡ not (same_bool active rc.config.active))
unfolding update_rule
update_rule_lem outside rc =
    let active = all_active rc.config.conditions in
    elim (Bool-cases (same_bool active rc.config.active)) [
      | inl t ↦ rw t (refl, refl, same_bool-eq active rc.config.active t, ap not (sym t))
      | inr t ↦ rw t (
        ap (λ (r : Rule). r.conditions) (send_active-config outside rc.config.id active rc),
        refl,
        refl,
        ap not (sym t),
      )
    ]

-- The count of enabled active conditions tells whether there is one.
scan_conditions_lem :
    (cs : List Condition) (n : ℕ)
    → let (all, count) = scan_conditions cs n in
      (if count == 0 && all then false else all)
      ≡ (every_enabled cs && (some_enabled cs || not (n == 0)))
unfolding scan_conditions every_enabled some_enabled
scan_conditions_lem [] n = ground arith
scan_conditions_lem (c ∷ cs) n =
    ground (arith, scan_conditions_lem cs n, scan_conditions_lem cs (n + 1))

pub all_active_lem : (cs : List Condition) → all_active cs ≡ (every_enabled cs && some_enabled cs)
unfolding all_active
all_active_lem cs =
    scan_conditions_lem cs 0 ∙ ap (λ (b : Bool). every_enabled cs && b) (or_false (some_enabled cs))
  where
    or_false : (b : Bool) → (b || false) ≡ b
    or_false true = refl
    or_false false = refl

every_enabled-forget : (cs : List Condition) → every_enabled (map forget cs) ≡ every_enabled cs
unfolding every_enabled
every_enabled-forget [] = refl
every_enabled-forget (c ∷ cs) =
    ap (λ (b : Bool). (c.disabled || c.active) && b) (every_enabled-forget cs)

some_enabled-forget : (cs : List Condition) → some_enabled (map forget cs) ≡ some_enabled cs
unfolding some_enabled
some_enabled-forget [] = refl
some_enabled-forget (c ∷ cs) =
    ap (λ (b : Bool). (not c.disabled && c.active) || b) (some_enabled-forget cs)

-- `ruleProcessPoints` settles every condition by all points, whatever could be sent: apart from their errors the
-- conditions are those that the points make one by one, each point that concerns a condition
-- deciding anew whether it is active and the others leaving it alone; the rule is active exactly
-- if every enabled condition is active and one is; and the change that is reported is that of the stored state.
pub rule_process_points-judge_all :
    {W : Type 0} (outside : Outside W) (node_id : String) (points : List Point) (rc : RuleClient W)
    → let (active, changed, rc') = rule_process_points outside node_id points rc in
      let judged_all = map (judge_all node_id points) (map forget rc.config.conditions) in
      (map forget rc'.config.conditions ≡ judged_all)
      × (active ≡ rule_verdict node_id points rc.config)
      × (rc'.config.active ≡ active)
      × (changed ≡ not (same_bool active rc.config.active))
unfolding rule_process_points rule_verdict
rule_process_points-judge_all outside node_id points rc =
    let rc' = process_points outside node_id points rc in
    let view = process_points-view outside node_id points rc in
    let frame =
      process_points-frame outside (λ r. r.active) (λ r e. refl) (λ r cs. refl) node_id points rc in
    let (kept, active, stored, changed) = update_rule_lem outside rc' in
    (
      ap (map forget) kept ∙ view,
      active
          ∙ all_active_lem rc'.config.conditions
          ∙ sym (
              ap₂ (λ a b. a && b) (every_enabled-forget rc'.config.conditions)
                (some_enabled-forget rc'.config.conditions))
          ∙ ap (λ (cs : List Condition). every_enabled cs && some_enabled cs) view,
      stored,
      changed ∙ ap (λ (b : Bool). not (same_bool (update_rule outside rc').0 b)) frame,
    )
