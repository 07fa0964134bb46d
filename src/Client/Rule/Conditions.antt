-- ===== src/Client/Rule/Conditions.antt =====
-- client/rule.go: `ruleProcessPoints`, which runs points through the conditions of a rule.
use Prim.Native.String.{◌++◌ as str_append}
use simpleiot.Prelude.{
  ℕ, zero, suc, ◌+◌, String, Bool, true, false, not, ◌&&◌, List, [], ◌∷◌, Option, none, some, ◌==◌,
  str_eq, if◌then◌else◌, length, get_elem?,
}
use simpleiot.Prelude.Float.{f64_eq, f64_lt, f64_zero}
use simpleiot.Data.Point.{Point}
use simpleiot.Client.Schedule.{Result, ok, err, new_schedule, active_for_time}
use simpleiot.Client.Rule.{
  Condition, Outside, RuleClient, modify, send_error, send_active, process_error,
}

-- What a condition makes of a point: nothing; an error after which the condition is left alone; or
-- whether the condition is active, and an error
pub data Judgement : Type 0 where
  skip : Judgement
  broken : String → Judgement
  judged : Bool → Judgement
  unknown : String → Judgement

-- The operators on numbers
unfoldable pub compare_number : String → ℕ → ℕ → Bool
compare_number op x y =
    if str_eq op ">"
    then f64_lt y x
    else if str_eq op "<"
    then f64_lt x y
    else if str_eq op "="
    then f64_eq x y
    else if str_eq op "!="
    then not (f64_eq x y)
    else false

-- `a == b` for Booleans
unfoldable pub same_bool : Bool → Bool → Bool
same_bool true b = b
same_bool false b = not b

-- The switch over the type of the value; the operators on texts are empty.
unfoldable pub judge_value : Point → Condition → Judgement
judge_value p c =
    if str_eq c.value_type "number"
    then judged (compare_number c.operator p.value c.value)
    else if str_eq c.value_type "text"
    then judged false
    else if str_eq c.value_type "onOff"
    then judged (same_bool (not (f64_eq c.value f64_zero)) (not (f64_eq p.value f64_zero)))
    else unknown (str_append "unknown value type: " c.value_type)

-- The numbers of the weekdays that are set, from the number `i`
unfoldable pub weekday_numbers : ℕ → List Bool → List ℕ
weekday_numbers i [] = []
weekday_numbers i (v ∷ vs) = let rest = weekday_numbers (i + 1) vs in if v then i ∷ rest else rest

unfoldable pub judge_result : Result Bool → Judgement
judge_result (err e) = broken (str_append "Error parsing schedule: " e)
judge_result (ok active) = judged active

unfoldable pub judge_schedule : Point → Condition → Judgement
judge_schedule p c =
    if not (str_eq p.typ "trigger")
    then skip
    else judge_result
        (active_for_time (new_schedule c.start c.end (weekday_numbers 0 c.weekdays) c.dates) p.time)

-- The switch over the type of the condition
unfoldable pub judge : String → Point → Condition → Judgement
judge node_id p c =
    if str_eq c.condition_type "pointValue"
    then (if not (str_eq c.node_id "") && not (str_eq c.node_id node_id)
        then skip
        else if not (str_eq c.point_key "") && not (str_eq c.point_key p.key)
        then skip
        else if not (str_eq c.point_type "") && not (str_eq c.point_type p.typ)
        then skip
        else judge_value p c)
    else if str_eq c.condition_type "schedule"
    then judge_schedule p c
    else judged false

-- The second loop: whether no enabled condition is inactive, and the count of active ones
unfoldable pub scan_conditions : List Condition → ℕ → Bool × ℕ
scan_conditions [] n = (true, n)
scan_conditions (c ∷ cs) n =
    let rest = scan_conditions cs (if c.active && not c.disabled then n + 1 else n) in
    if not c.active && not c.disabled then (false, n) else rest

unfoldable pub all_active : List Condition → Bool
all_active cs = let (all, n) = scan_conditions cs 0 in if n == 0 && all then false else all

-- `f` at `n` indexes from `i`
unfoldable pub each_index : {S : Type 0} → (ℕ → S → S) → (n i : ℕ) → S → S
each_index f zero i s = s
each_index f (suc n) i s = each_index f n (suc i) (f i s)

module _ {W : Type 0} (outside : Outside W) where
  unfoldable pub modify_condition : (Condition → Condition) → ℕ → RuleClient W → RuleClient W
  modify_condition f i rc = record rc {
    config = record rc.config { conditions = modify f i rc.config.conditions };
  }

  -- The error of a condition, stored where it could be sent
  unfoldable pub condition_error : ℕ → Condition → String → RuleClient W → RuleClient W
  condition_error i c text rc =
      let (failed, rc') = send_error outside c.id text rc in
      if failed then rc' else modify_condition (λ c. record c { error = text }) i rc'

  -- The function `processError` of the loop
  unfoldable pub condition_failed : ℕ → Condition → String → RuleClient W → RuleClient W
  condition_failed i c text rc =
      process_error outside text
        (if not (str_eq c.error text) then condition_error i c text rc else rc)

  unfoldable pub update_active : ℕ → Condition → Bool → RuleClient W → RuleClient W
  update_active i c active rc =
      if not (same_bool active c.active)
      then modify_condition (λ c. record c { active = active }) i
          (send_active outside c.id active rc)
      else rc

  unfoldable pub clear_error : ℕ → Condition → RuleClient W → RuleClient W
  clear_error i c rc =
      if not (str_eq c.error "") then process_error outside "" (condition_error i c "" rc) else rc

  unfoldable pub apply_judgement : ℕ → Condition → Judgement → RuleClient W → RuleClient W
  apply_judgement i c skip rc = rc
  apply_judgement i c (broken text) rc = condition_failed i c text rc
  apply_judgement i c (judged active) rc = clear_error i c (update_active i c active rc)
  apply_judgement i c (unknown text) rc = update_active i c false (condition_failed i c text rc)

  unfoldable pub process_at : String → Point → ℕ → Option Condition → RuleClient W → RuleClient W
  process_at node_id p i none rc = rc
  process_at node_id p i (some c) rc = apply_judgement i c (judge node_id p c) rc

  -- One round of the loop over the conditions
  unfoldable pub process_condition : String → Point → ℕ → RuleClient W → RuleClient W
  process_condition node_id p i rc = process_at node_id p i (get_elem? rc.config.conditions i) rc

  unfoldable pub process_points : String → List Point → RuleClient W → RuleClient W
  process_points node_id [] rc = rc
  process_points node_id (p ∷ ps) rc =
      process_points node_id ps
        (each_index (process_condition node_id p) (length rc.config.conditions) 0 rc)

  -- The end of `ruleProcessPoints`: whether the rule is active, whether that changed, and the client
  unfoldable pub update_rule : RuleClient W → Bool × Bool × RuleClient W
  update_rule rc =
      let active = all_active rc.config.conditions in
      if not (same_bool active rc.config.active)
      then (let rc' = send_active outside rc.config.id active rc in
          (active, true, record rc' { config = record rc'.config { active = active } }))
      else (active, false, rc)

  -- `RuleClient.ruleProcessPoints`
  unfoldable pub rule_process_points :
      String → List Point → RuleClient W → Bool × Bool × RuleClient W
  rule_process_points node_id points rc = update_rule (process_points node_id points rc)
