-- ===== src/Client/Rule/Running.antt =====
-- client/rule.go: the function `run` of the client's `Run`, and the events that call it. An event that
-- changes the configuration comes with the merged configuration.
use simpleiot.Prelude.{
  String, Bool, true, false, not, List, [], ◌∷◌, Option, some, str_eq, if◌then◌else◌,
}
use simpleiot.Prelude.Options.{◌>>=◌}
use simpleiot.Data.Point.{Point, zero_point}
use simpleiot.Client.Rule.{Condition, Rule, Outside, RuleClient}
use simpleiot.Client.Rule.Conditions.{rule_process_points}
use simpleiot.Client.Rule.Actions.{
  when_active, when_inactive, rule_run_actions, rule_inactive_actions,
}

-- `RuleClient.hasSchedule`
unfoldable pub has_schedule : List Condition → Bool
has_schedule [] = false
has_schedule (c ∷ cs) = if str_eq c.condition_type "schedule" then true else has_schedule cs

-- Whether a condition on points names the node
unfoldable pub names_node : String → List Condition → Bool
names_node id [] = false
names_node id (c ∷ cs) =
    if not (str_eq c.condition_type "pointValue")
    then names_node id cs
    else if str_eq c.node_id id
    then true
    else names_node id cs

-- The events of `Run`: points of a node below the parent, a tick of the schedule, and a new configuration
pub data Event : Type 0 where
  rule_points : String → List Point → Event
  schedule_tick : Event
  new_config : Rule → Event

module _ {W : Type 0} (outside : Outside W) where
  unfoldable pub trigger_point : W → Point
  trigger_point w = record zero_point { time = outside.now w; typ = "trigger" }

  -- The end of `run`: the actions of the state that the rule is in run, the others become inactive.
  unfoldable pub act : String → Bool → RuleClient W → Option (RuleClient W)
  act id true rc = rule_run_actions outside when_active id rc >>= λ rc'.
      some (rule_inactive_actions outside when_inactive rc')
  act id false rc = rule_run_actions outside when_inactive id rc >>= λ rc'.
      some (rule_inactive_actions outside when_active rc')

  -- `run`, for points: without a change nothing is done.
  unfoldable pub run_points : String → List Point → RuleClient W → Option (RuleClient W)
  run_points id points rc =
      if rc.config.disabled
      then act id false rc
      else (let (active, changed, rc') = rule_process_points outside id points rc in
          if not changed then some rc' else act id active rc')

  -- `run("", nil)`: the actions run whether or not there was a change.
  unfoldable pub run_config : RuleClient W → Option (RuleClient W)
  run_config rc =
      if rc.config.disabled
      then act "" false rc
      else (let (active, changed, rc') =
            rule_process_points outside rc.config.id (trigger_point rc.world ∷ []) rc in
          act "" active rc')

  -- `run`
  unfoldable pub run : String → List Point → RuleClient W → Option (RuleClient W)
  run id [] rc = run_config rc
  run id (p ∷ ps) rc = run_points id (p ∷ ps) rc

  -- The select of `Run`
  unfoldable pub handle : Event → RuleClient W → Option (RuleClient W)
  handle (rule_points id points) rc =
      if names_node id rc.config.conditions then run id points rc else some rc
  handle schedule_tick rc = run rc.config.id (trigger_point rc.world ∷ []) rc
  handle (new_config rule) rc = run_config (record rc { config = rule })
