-- ===== src/Client/Rule/Frame.antt =====
-- client/rule.go: what `ruleProcessPoints` leaves alone: a view of the rule that sees neither its error
-- nor its conditions.
use simpleiot.Prelude.{
  ℕ, zero, suc, ◌≡◌, refl, ap, ◌∙◌, String, Bool, false, not, List, [], ◌∷◌, Option, none, some,
  length, str_eq, if_view,
}
use simpleiot.Data.Point.{Point}
use simpleiot.Client.Rule.{
  Condition, Rule, Outside, RuleClient, send_point, send_error, send_active, store_error,
  process_error,
}
use simpleiot.Client.Rule.Conditions.{
  Judgement, skip, broken, judged, unknown, same_bool, each_index, modify_condition,
  condition_error, condition_failed, update_active, clear_error, apply_judgement, process_at,
  process_condition, process_points,
}

module _ {W : Type 0} (outside : Outside W) where
  pub send_point-config :
      (id : String) (p : Point) (rc : RuleClient W)
      → (send_point outside id p rc).1.config ≡ rc.config
  unfolding send_point
  send_point-config id p rc = refl

  pub send_error-config :
      (id text : String) (rc : RuleClient W) → (send_error outside id text rc).1.config ≡ rc.config
  unfolding send_error send_point
  send_error-config id text rc = refl

  pub send_active-config :
      (id : String) (b : Bool) (rc : RuleClient W)
      → (send_active outside id b rc).config ≡ rc.config
  unfolding send_active send_point
  send_active-config id b rc = refl

module _ {W B : Type 0} (outside : Outside W) (g : Rule → B)
    (errors : (r : Rule) (e : String) → g (record r { error = e }) ≡ g r) where
  abbrev rule_view : RuleClient W → B
  rule_view rc = g rc.config

  store_error-view :
      (text : String) (rc : RuleClient W) → rule_view (store_error outside text rc) ≡ rule_view rc
  unfolding store_error
  store_error-view text rc =
      let same = ap g (send_error-config outside rc.config.id text rc) in
      let (lost, rc') = send_error outside rc.config.id text rc in
      if_view rule_view (not (str_eq text rc.config.error)) _ rc
        (if_view rule_view lost rc' _ same (errors rc'.config text ∙ same)) refl

  pub process_error-view :
      (text : String) (rc : RuleClient W) → rule_view (process_error outside text rc) ≡ rule_view rc
  unfolding process_error
  process_error-view text rc =
      if_view rule_view (not (str_eq text "")) _ _ (store_error-view text rc)
        (store_error-view _ rc)

module _ {W B : Type 0} (outside : Outside W) (g : Rule → B)
    (errors : (r : Rule) (e : String) → g (record r { error = e }) ≡ g r)
    (conditions : (r : Rule) (cs : List Condition) → g (record r { conditions = cs }) ≡ g r) where
  condition_error-frame :
      (i : ℕ) (c : Condition) (text : String) (rc : RuleClient W)
      → g (condition_error outside i c text rc).config ≡ g rc.config
  unfolding condition_error modify_condition
  condition_error-frame i c text rc =
      let same = ap g (send_error-config outside c.id text rc) in
      let (lost, rc') = send_error outside c.id text rc in
      if_view (λ (r : RuleClient W). g r.config) lost rc' _ same (conditions rc'.config _ ∙ same)

  condition_failed-frame :
      (i : ℕ) (c : Condition) (text : String) (rc : RuleClient W)
      → g (condition_failed outside i c text rc).config ≡ g rc.config
  unfolding condition_failed
  condition_failed-frame i c text rc =
      process_error-view outside g errors text _
      ∙ if_view (λ (r : RuleClient W). g r.config) (not (str_eq c.error text)) _ rc
          (condition_error-frame i c text rc) refl

  clear_error-frame :
      (i : ℕ) (c : Condition) (rc : RuleClient W)
      → g (clear_error outside i c rc).config ≡ g rc.config
  unfolding clear_error
  clear_error-frame i c rc =
      if_view (λ (r : RuleClient W). g r.config) (not (str_eq c.error "")) _ rc
        (process_error-view outside g errors "" _ ∙ condition_error-frame i c "" rc) refl

  update_active-frame :
      (i : ℕ) (c : Condition) (b : Bool) (rc : RuleClient W)
      → g (update_active outside i c b rc).config ≡ g rc.config
  unfolding update_active modify_condition
  update_active-frame i c b rc =
      if_view (λ (r : RuleClient W). g r.config) (not (same_bool b c.active)) _ rc
        (conditions (send_active outside c.id b rc).config _
          ∙ ap g (send_active-config outside c.id b rc))
        refl

  apply_judgement-frame :
      (i : ℕ) (c : Condition) (j : Judgement) (rc : RuleClient W)
      → g (apply_judgement outside i c j rc).config ≡ g rc.config
  unfolding apply_judgement
  apply_judgement-frame i c skip rc = refl
  apply_judgement-frame i c (broken text) rc = condition_failed-frame i c text rc
  apply_judgement-frame i c (judged b) rc =
      clear_error-frame i c (update_active outside i c b rc) ∙ update_active-frame i c b rc
  apply_judgement-frame i c (unknown text) rc =
      update_active-frame i c false (condition_failed outside i c text rc)
      ∙ condition_failed-frame i c text rc

  process_at-frame :
      (node_id : String) (p : Point) (i : ℕ) (o : Option Condition) (rc : RuleClient W)
      → g (process_at outside node_id p i o rc).config ≡ g rc.config
  unfolding process_at
  process_at-frame node_id p i none rc = refl
  process_at-frame node_id p i (some c) rc = apply_judgement-frame i c _ rc

  each_index-frame :
      (node_id : String) (p : Point) (n i : ℕ) (rc : RuleClient W)
      → g (each_index (process_condition outside node_id p) n i rc).config ≡ g rc.config
  unfolding each_index process_condition
  each_index-frame node_id p zero i rc = refl
  each_index-frame node_id p (suc n) i rc =
      each_index-frame node_id p n (suc i) _ ∙ process_at-frame node_id p i _ rc

  pub process_points-frame :
      (node_id : String) (ps : List Point) (rc : RuleClient W)
      → g (process_points outside node_id ps rc).config ≡ g rc.config
  unfolding process_points
  process_points-frame node_id [] rc = refl
  process_points-frame node_id (p ∷ ps) rc =
      process_points-frame node_id ps _
      ∙ each_index-frame node_id p (length rc.config.conditions) 0 rc
