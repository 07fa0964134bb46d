-- ===== src/Examples/Rules.antt =====
-- client/rule.go and client/schedule.go at a concrete rule; the world is the list of the points sent, and
-- a time is their number.
use simpleiot.Prelude.{
  ℕ, ◌+◌, ◌*◌, ◌%◌, ◌-◌, ◌/◌, ◌≡◌, refl, String, true, false, not, ◌&&◌, List, [], ◌∷◌, ◌++◌, map,
  some, length, arith, if◌then◌else◌,
}
use simpleiot.Prelude.Int.{pos}
use simpleiot.Prelude.Float.{f64_eq, f64_one, f64_zero}
use simpleiot.Prelude.Crc32.{utf8_bytes}
use simpleiot.Data.Point.{Point, zero_point}
use simpleiot.Client.Schedule.{
  Schedule, ok, active_for_time, day_ns, clock_ns, filter_dates, in_ranges, filter_weekdays,
  time_ranges, in_range, parse_hour_min,
}
use simpleiot.Client.Schedule.Windows.{
  in_window, date_allowed, weekday_allowed, parse_dates, active_for_time-in_window,
}
use simpleiot.Client.Rule.{Condition, Action, Rule, Outside, RuleClient, answer}
use simpleiot.Client.Rule.Conditions.{judge, judge_value, same_bool, rule_process_points}
use simpleiot.Client.Rule.Running.{run_points}
use simpleiot.Client.Rule.Judged.{
  forget, judge_active, every_enabled, some_enabled, judge_all, rule_verdict,
}
use simpleiot.Client.Rule.Verdicts.{rule_process_points-judge_all}
use simpleiot.Client.Rule.Effects.{both, Delivers}
use simpleiot.Client.Rule.Reaction.{set_both, run_points-set_both}

-- Friday evening to the early morning, in a year that the dates do not bound
abbrev friday_night : Schedule
friday_night = record { start_time = "22:00"; end_time = "6:30"; weekdays = 5 ∷ []; dates = [] }

friday_night_start : parse_hour_min friday_night.start_time ≡ some (22, 0)
unfolding parse_hour_min utf8_bytes
friday_night_start = refl

friday_night_end : parse_hour_min friday_night.end_time ≡ some (6, 30)
unfolding parse_hour_min utf8_bytes
friday_night_end = refl

no_dates : parse_dates friday_night.dates ≡ some []
unfolding parse_dates
no_dates = refl

-- 5:00 on the first Saturday of the year 1
abbrev saturday_five : ℕ
saturday_five = 5 * day_ns + clock_ns 5 0

active_for_time-in_window_example :
    active_for_time friday_night saturday_five
    ≡ ok (
        let day = (saturday_five + day_ns) / day_ns in
        in_window
          (clock_ns 22 0)
          (clock_ns 6 30)
          (date_allowed [] day && weekday_allowed friday_night.weekdays day)
          (date_allowed [] (day - 1) && weekday_allowed friday_night.weekdays (day - 1))
          (saturday_five % day_ns))
active_for_time-in_window_example =
    active_for_time-in_window friday_night saturday_five 22 0 6 30 [] friday_night_start
      friday_night_end no_dates (omega arith) (omega arith)

saturday_five_active : active_for_time friday_night saturday_five ≡ ok true
unfolding active_for_time parse_hour_min utf8_bytes filter_dates in_ranges filter_weekdays
    time_ranges in_range
saturday_five_active = refl

abbrev Sent : Type 0
Sent = List (String × Point)

abbrev bus : Outside Sent
bus = record {
  now = λ w. length w + 1;
  publish_point = λ id p w. (false, w ++ (id, p) ∷ []);
  publish_notification = λ s m w. (false, w);
  request_nodes = λ id w. (answer [], w);
  sample_rate = λ f w. some (pos 44100);
  play = λ a r w. w;
}

abbrev no_condition : Condition
no_condition = record {
  id = "";
  parent = "rule";
  description = "";
  disabled = false;
  condition_type = "pointValue";
  min_active = 0;
  active = false;
  error = "";
  node_id = "";
  point_type = "";
  point_key = "";
  point_index = pos 0;
  value_type = "onOff";
  operator = "=";
  value = f64_one;
  value_text = "";
  start = "";
  end = "";
  weekdays = [];
  dates = [];
}

abbrev no_action : Action
no_action = record {
  id = "";
  parent = "rule";
  description = "";
  disabled = false;
  active = false;
  error = "";
  action = "setValue";
  node_id = "out";
  point_type = "value";
  point_key = "";
  value_type = "onOff";
  value = f64_one;
  value_text = "";
  point_channel = pos 0;
  point_device = "";
  point_file_path = "";
}

-- The node "in" is on, and a condition that is disabled; the output goes on or off.
abbrev switch_rule : Rule
switch_rule = record {
  id = "rule";
  parent = "root";
  description = "switch";
  disabled = false;
  active = false;
  error = "";
  conditions =
      record no_condition { id = "c1"; node_id = "in"; point_type = "value" }
      ∷ record no_condition { id = "c2"; node_id = "other"; disabled = true }
      ∷ [];
  actions = record no_action { id = "a1" } ∷ [];
  actions_inactive = record no_action { id = "a2"; value = f64_zero } ∷ [];
}

abbrev client : RuleClient Sent
client = record { config = switch_rule; world = [] }

abbrev switched_on : List Point
switched_on = record zero_point { typ = "value"; time = 7; value = f64_one } ∷ []

rule_process_points-judge_all_example :
    let (active, changed, rc') = rule_process_points bus "in" switched_on client in
    let judged_all = map (judge_all "in" switched_on) (map forget client.config.conditions) in
    (map forget rc'.config.conditions ≡ judged_all)
    × (active ≡ rule_verdict "in" switched_on client.config)
    × (rc'.config.active ≡ active)
    × (changed ≡ not (same_bool active client.config.active))
rule_process_points-judge_all_example = rule_process_points-judge_all bus "in" switched_on client

bus-Delivers : Delivers bus
bus-Delivers s m w = refl

run_points-set_both_example :
    (rc' : RuleClient Sent) × (run_points bus "in" switched_on client ≡ some rc')
    × (both rc'.config ≡ (
        let active = rule_verdict "in" switched_on client.config in
        if same_bool active client.config.active
        then both client.config
        else set_both active (both client.config)))
run_points-set_both_example =
    run_points-set_both bus "in" switched_on client bus-Delivers refl (λ e. refl, tt)
      (λ e. refl, tt)

-- The first condition is met, and the second is disabled.
switched_verdict : rule_verdict "in" switched_on switch_rule ≡ true
unfolding rule_verdict judge_all judge_active judge judge_value every_enabled some_enabled same_bool
    f64_eq
switched_verdict = refl
