-- ===== src/Client/Rule/Judged.antt =====
-- client/rule.go: what points should make of a rule, as a function of its conditions.
use simpleiot.Prelude.{String, Bool, true, false, not, ◌&&◌, ◌||◌, List, [], ◌∷◌, map}
use simpleiot.Data.Point.{Point}
use simpleiot.Client.Rule.{Condition, Rule}
use simpleiot.Client.Rule.Conditions.{Judgement, skip, broken, judged, unknown, judge}

-- A condition without its error
abbrev pub forget : Condition → Condition
forget c = record c { error = "" }

-- Whether a condition is active after a judgement
abbrev pub active_after : Bool → Judgement → Bool
active_after old skip = old
active_after old (broken text) = old
active_after old (judged active) = active
active_after old (unknown text) = false

unfoldable pub judge_active : String → Point → Condition → Condition
judge_active node_id p c = record c { active = active_after c.active (judge node_id p c) }

abbrev pub set_active : Bool → Condition → Condition
set_active b c = record c { active = b }

-- A condition after all points: each point that concerns it decides anew.
unfoldable pub judge_all : String → List Point → Condition → Condition
unfolding judge_active
judge_all node_id [] c = c
judge_all node_id (p ∷ ps) c = judge_all node_id ps (judge_active node_id p c)

-- Every enabled condition is active, and one is.
unfoldable pub every_enabled : List Condition → Bool
every_enabled [] = true
every_enabled (c ∷ cs) = (c.disabled || c.active) && every_enabled cs

unfoldable pub some_enabled : List Condition → Bool
some_enabled [] = false
some_enabled (c ∷ cs) = (not c.disabled && c.active) || some_enabled cs

-- What the points make of the rule
unfoldable pub rule_verdict : String → List Point → Rule → Bool
rule_verdict node_id points r =
    let judged_all = map (judge_all node_id points) (map forget r.conditions) in
    every_enabled judged_all && some_enabled judged_all
