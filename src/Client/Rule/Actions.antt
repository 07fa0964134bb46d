-- ===== src/Client/Rule/Actions.antt =====
-- client/rule.go: `ruleRunActions` and `ruleInactiveActions`. The actions that they change are those
-- of the configuration, the active or the inactive ones.
use Prim.Native.String.{◌++◌ as str_append}
use simpleiot.Prelude.{
  ℕ, zero, suc, String, Bool, true, false, not, List, [], ◌∷◌, Option, none, some, str_eq,
  if◌then◌else◌, length, get_elem?, ltb,
}
use simpleiot.Prelude.Int.{ℤ, pos, negsuc}
use simpleiot.Data.Point.{zero_point, bool_to_float}
use simpleiot.Data.Node.{NodeEdge, node_edge_desc}
use simpleiot.Client.Rule.{
  Action, Rule, Outside, RuleClient, modify, Reply, refusal, answer, send_point, send_error,
  process_error,
}

-- Which actions of the rule
pub data ActionList : Type 0 where
  when_active : ActionList
  when_inactive : ActionList

unfoldable pub actions_of : ActionList → Rule → List Action
actions_of when_active r = r.actions
actions_of when_inactive r = r.actions_inactive

-- How an action ends: it goes on to the end of the round, with or without an error; it goes to the
-- next action; the function returns; or the program exits.
pub data Performed (W : Type 0) : Type 0 where
  performed : Bool → RuleClient W → Performed W
  continues : RuleClient W → Performed W
  returns : RuleClient W → Performed W
  exits : Performed W

-- The next actions, after one
unfoldable pub follow :
    {W : Type 0} → (RuleClient W → Option (RuleClient W)) → Performed W → Option (RuleClient W)
follow next (performed failed rc) = next rc
follow next (continues rc) = next rc
follow next (returns rc) = some rc
follow next exits = none

-- `a < b` where `b` is not negative
abbrev pub ltb_pos : ℤ → ℕ → Bool
ltb_pos (pos a) b = ltb a b
ltb_pos (negsuc a) b = true

module _ {W : Type 0} (outside : Outside W) (which : ActionList) where
  unfoldable pub modify_action : (Action → Action) → ℕ → RuleClient W → RuleClient W
  modify_action f i rc = elim which [
    | when_active ↦ record rc {
      config = record rc.config { actions = modify f i rc.config.actions };
    }
    | when_inactive ↦ record rc {
      config = record rc.config { actions_inactive = modify f i rc.config.actions_inactive };
    }
  ]

  -- The error of an action, stored where it could be sent
  unfoldable pub action_error : ℕ → Action → String → RuleClient W → RuleClient W
  action_error i a text rc =
      let (failed, rc') = send_error outside a.id text rc in
      if failed then rc' else modify_action (λ a. record a { error = text }) i rc'

  -- The function `processError` of the loop
  unfoldable pub action_failed : ℕ → Action → String → RuleClient W → Performed W
  action_failed i a text rc = performed true (
      process_error outside text
        (if not (str_eq a.error text) then action_error i a text rc else rc))

  -- The case `setValue`
  unfoldable pub set_value : ℕ → Action → RuleClient W → Performed W
  set_value i a rc =
      if str_eq a.node_id ""
      then action_failed i a "Error, node action nodeID must be set" rc
      else if str_eq a.point_type ""
      then action_failed i a "Error, node action point type must be set" rc
      else (let p = record zero_point {
        typ = a.point_type;
        key = a.point_key;
        time = outside.now rc.world;
        value = a.value;
        text = a.value_text;
        origin = a.id;
      } in
          let (failed, rc') = send_point outside a.node_id p rc in performed false rc')

  -- The case `notify`, once the node that fired the rule is asked for
  unfoldable pub notify_nodes : ℕ → Action → Reply (List NodeEdge) → RuleClient W → Performed W
  notify_nodes i a (refusal text) rc = action_failed i a text rc
  notify_nodes i a (answer []) rc = action_failed i a "trigger node not found" rc
  notify_nodes i a (answer (n ∷ ns)) rc =
      let message = str_append rc.config.description (str_append " fired at " (node_edge_desc n)) in
      let (failed, w) = outside.publish_notification a.node_id message rc.world in
      let rc' = record rc { world = w } in if failed then returns rc' else performed false rc'

  unfoldable pub notify : String → ℕ → Action → RuleClient W → Performed W
  notify trigger i a rc =
      let (reply, w) = outside.request_nodes trigger rc.world in
      notify_nodes i a reply (record rc { world = w })

  -- The case `playAudio`, for the sample rate of the file
  unfoldable pub play_audio : Action → Option ℤ → RuleClient W → Performed W
  play_audio a none rc = exits
  play_audio a (some rate) rc =
      if ltb_pos rate 8000
      then continues rc
      else performed false (record rc { world = outside.play a rate rc.world })

  -- The switch over the action
  unfoldable pub perform : String → ℕ → Action → RuleClient W → Performed W
  perform trigger i a rc =
      if str_eq a.action "setValue"
      then set_value i a rc
      else if str_eq a.action "notify"
      then notify trigger i a rc
      else if str_eq a.action "playAudio"
      then play_audio a (outside.sample_rate a.point_file_path rc.world) rc
      else action_failed i a (str_append "Uknown rule action: " a.action) rc

  -- The action is active, as the point says, which has no time yet.
  unfoldable pub mark_active : Bool → ℕ → Action → RuleClient W → RuleClient W
  mark_active active i a rc =
      let p = record zero_point { typ = "active"; value = bool_to_float active } in
      let (failed, rc') = send_point outside a.id p rc in
      modify_action (λ a. record a { active = active }) i rc'

  -- The end of a round
  unfoldable pub finish_action : ℕ → Action → Performed W → Performed W
  finish_action i a (performed failed rc) =
      let rc' = mark_active true i a rc in
      performed failed (
        if failed
        then rc'
        else if str_eq a.error ""
        then rc'
        else process_error outside "" (action_error i a "" rc'))
  finish_action i a (continues rc) = continues rc
  finish_action i a (returns rc) = returns rc
  finish_action i a exits = exits

  unfoldable pub run_action : String → ℕ → Option Action → RuleClient W → Performed W
  run_action trigger i none rc = continues rc
  run_action trigger i (some a) rc =
      if a.disabled then continues rc else finish_action i a (perform trigger i a rc)

  -- `RuleClient.ruleRunActions`, for `n` actions from the index `i`; `none` if the program exits
  unfoldable pub run_actions : String → (n i : ℕ) → RuleClient W → Option (RuleClient W)
  run_actions trigger zero i rc = some rc
  run_actions trigger (suc n) i rc =
      follow (run_actions trigger n (suc i))
        (run_action trigger i (get_elem? (actions_of which rc.config) i) rc)

  unfoldable pub rule_run_actions : String → RuleClient W → Option (RuleClient W)
  rule_run_actions trigger rc = run_actions trigger (length (actions_of which rc.config)) 0 rc

  unfoldable pub deactivate_at : ℕ → Option Action → RuleClient W → RuleClient W
  deactivate_at i none rc = rc
  deactivate_at i (some a) rc = if a.disabled then rc else mark_active false i a rc

  unfoldable pub deactivate : (n i : ℕ) → RuleClient W → RuleClient W
  deactivate zero i rc = rc
  deactivate (suc n) i rc =
      deactivate n (suc i) (deactivate_at i (get_elem? (actions_of which rc.config) i) rc)

  -- `RuleClient.ruleInactiveActions`
  unfoldable pub rule_inactive_actions : RuleClient W → RuleClient W
  rule_inactive_actions rc = deactivate (length (actions_of which rc.config)) 0 rc
