-- ===== src/Client/Rule.antt =====
-- client/rule.go: the rule client, its configuration and how it sends points. What goes over the bus,
-- the clock and the sound are the argument `outside`; its world carries their state. Log lines
-- are left out.
pub mod Conditions
pub mod Actions
pub mod Running
pub mod Modify
pub mod Frame
pub mod Judged
pub mod Verdicts
pub mod Effects
pub mod Listed
pub mod Flags
pub mod Reaction
use Prim.Native.String.{◌++◌ as str_append}
use simpleiot.Prelude.{
  ℕ, zero, suc, ◌+◌, String, Bool, true, false, not, List, [], ◌∷◌, Option, none, some, ◌==◌,
  str_eq, if◌then◌else◌, map, set,
}
use simpleiot.Prelude.Int.{ℤ}
use simpleiot.Data.Point.{Point, zero_point, bool_to_float}
use simpleiot.Data.Node.{NodeEdge}

-- `Condition`
pub record Condition : Type 0 where
  pub id : String
  pub parent : String
  pub description : String
  pub disabled : Bool
  pub condition_type : String
  pub min_active : ℕ
  pub active : Bool
  pub error : String
  pub node_id : String
  pub point_type : String
  pub point_key : String
  pub point_index : ℤ
  pub value_type : String
  pub operator : String
  pub value : ℕ
  pub value_text : String
  pub start : String
  pub end : String
  pub weekdays : List Bool
  pub dates : List String

-- `Action`
pub record Action : Type 0 where
  pub id : String
  pub parent : String
  pub description : String
  pub disabled : Bool
  pub active : Bool
  pub error : String
  pub action : String
  pub node_id : String
  pub point_type : String
  pub point_key : String
  pub value_type : String
  pub value : ℕ
  pub value_text : String
  pub point_channel : ℤ
  pub point_device : String
  pub point_file_path : String

-- `Rule`
pub record Rule : Type 0 where
  pub id : String
  pub parent : String
  pub description : String
  pub disabled : Bool
  pub active : Bool
  pub error : String
  pub conditions : List Condition
  pub actions : List Action
  pub actions_inactive : List Action

-- An answer, or the text of an error
pub data Reply (A : Type 0) : Type 0 where
  refusal : String → Reply A
  answer : A → Reply A

-- The clock; publishing points to a node and a notification, and whether that fails; the request of
-- `GetNodes` for the instances of a node; the sample rate of a wave file, `none` if it cannot be
-- opened; and starting `speaker-test`.
pub record Outside (W : Type 0) : Type 0 where
  pub now : W → ℕ
  pub publish_point : String → Point → W → Bool × W
  pub publish_notification : (source message : String) → W → Bool × W
  pub request_nodes : String → W → Reply (List NodeEdge) × W
  pub sample_rate : String → W → Option ℤ
  pub play : Action → ℤ → W → W

-- `RuleClient`, with the world
pub record RuleClient (W : Type 0) : Type 0 where
  pub config : Rule
  pub world : W

-- The item at an index, changed
unfoldable pub modify : {A : Type 0} → (A → A) → ℕ → List A → List A
modify f i [] = []
modify f zero (x ∷ xs) = f x ∷ xs
modify f (suc i) (x ∷ xs) = x ∷ modify f i xs

-- The error of the first item that has one
unfoldable pub first_error : List String → String → String
first_error [] found = found
first_error (e ∷ es) found = if not (str_eq e "") then e else first_error es found

-- The three loops that look for an error that still exists; a later loop overrides.
unfoldable pub remaining_error : Rule → String
remaining_error r =
    first_error (map (λ a. a.error) r.actions_inactive) (
      first_error (map (λ a. a.error) r.actions) (first_error (map (λ c. c.error) r.conditions) ""))

module _ {W : Type 0} (outside : Outside W) where
  -- `SendPoints`, for one point: a point without a time gets the present one.
  unfoldable pub send_node_point : String → Point → W → Bool × W
  send_node_point id p w =
      outside.publish_point id (if p.time == 0 then record p { time = outside.now w } else p) w

  -- `RuleClient.sendPoint`
  unfoldable pub send_point : String → Point → RuleClient W → Bool × RuleClient W
  send_point id p rc =
      let p' = if not (str_eq id rc.config.id) then record p { origin = rc.config.id } else p in
      let (failed, w) = send_node_point id p' rc.world in (failed, record rc { world = w })

  unfoldable pub send_error : String → String → RuleClient W → Bool × RuleClient W
  send_error id text rc =
      send_point id (record zero_point { typ = "error"; time = outside.now rc.world; text = text })
        rc

  unfoldable pub send_active : String → Bool → RuleClient W → RuleClient W
  send_active id active rc =
      let p = record zero_point {
        typ = "active";
        time = outside.now rc.world;
        value = bool_to_float active;
      } in
      let (failed, rc') = send_point id p rc in rc'

  -- The error of the rule, which is stored where it could be sent
  unfoldable pub store_error : String → RuleClient W → RuleClient W
  store_error text rc =
      if not (str_eq text rc.config.error)
      then (let (failed, rc') = send_error rc.config.id text rc in
          if failed then rc' else record rc' { config = record rc'.config { error = text } })
      else rc

  -- `RuleClient.processError`
  unfoldable pub process_error : String → RuleClient W → RuleClient W
  process_error text rc =
      if not (str_eq text "")
      then store_error text rc
      else store_error (remaining_error rc.config) rc
