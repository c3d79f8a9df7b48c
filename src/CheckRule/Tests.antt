-- ===== src/CheckRule/Tests.antt =====
-- Runs of the check rules over sample events.
use gametrace.Prelude.{
  ap, get_elem?, ℕ, String, true, false, ◌≡◌, ◌≢◌, refl, List, [], ◌∷◌, none, some, arith, All,
}
use gametrace.Prelude.Map.{lookup, insert}
use gametrace.Prelude.Text.{text_dec, codes}
use gametrace.Rule.Json.{null, string}
use gametrace.Rule.Predicate.{
  node, nil, eq, unset, evaluate, eval_leaf, eval_value, eval_op, literal, eq_match, eq_typed,
}
use gametrace.Rule.Validity.{validate, validate_leaf}
use gametrace.Rule.Sample.{sample, login}
use gametrace.CheckRule.{
  pos, CheckRule, validate_check, validate_condition, match_event, context, cooldown,
}
use gametrace.CheckRule.Engine.{
  Event, Engine, new_engine, widest, judge, judge_all, fire, offer, is_cooling, inspect,
  push_window,
}
use gametrace.CheckRule.Window.{run}
use gametrace.CheckRule.Alerts.{Told}
use gametrace.CheckRule.Notified.{Act, saw, worker, events_in, run_acts, run_acts-Told}
use gametrace.CheckRule.Cooldown.{Quiet, jobs_of, run-Quiet}

abbrev login_check : CheckRule ℕ
login_check = record {
  id = "c1";
  name = "login";
  enabled = true;
  condition = node nil nil "op" eq (string "login");
  title = "";
  message = "";
  cooldown_sec = pos 5;
  context_per_direction = pos 2;
}

abbrev old_entry : CheckRule ℕ
old_entry = record {
  id = "c0";
  name = "old";
  enabled = false;
  condition = node nil nil "" unset null;
  title = "";
  message = "";
  cooldown_sec = pos 0;
  context_per_direction = pos 0;
}

abbrev checks : List (CheckRule ℕ)
checks = login_check ∷ old_entry ∷ []

abbrev sent : String → Event sample
sent id = record { id = id; view = some login; direction = "c2s" }

abbrev traffic : List (Event sample × ℕ)
traffic = (sent "e1", 1000) ∷ (sent "e2", 2000) ∷ (sent "e3", 3000) ∷ []

login_check-valid : validate_check sample login_check ≡ []
unfolding validate_check validate_condition validate validate_leaf text_dec
login_check-valid = refl

old_entry-valid : validate_check sample old_entry ≡ []
unfolding validate_check validate_condition validate validate_leaf text_dec
old_entry-valid = refl

abbrev session_acts : List (Act sample)
session_acts =
    saw (sent "e1") 1000 ∷ worker ∷ saw (sent "e2") 2000 ∷ saw (sent "e3") 9000000000 ∷ []

run_acts-Told_example :
    All
      (Told sample (events_in sample session_acts))
      (run_acts sample session_acts [] (new_engine sample checks)).0
    × All
        (Told sample (events_in sample session_acts))
        (run_acts sample session_acts [] (new_engine sample checks)).1.queue
run_acts-Told_example = run_acts-Told sample login_check (old_entry ∷ []) session_acts

abbrev fresh : Engine sample
fresh = new_engine sample checks

-- The engine after the first event, at which the rule fired.
abbrev fired_once : Engine sample
fired_once = run sample ((sent "e1", 1000) ∷ []) (new_engine sample checks)

abbrev second : String → ℕ
second s = elim (get_elem? (codes s) 1) [ none ↦ 0 | some c ↦ c ]

distinct : old_entry.id ≢ login_check.id
distinct e = go (ap second e)
  where
    go : second old_entry.id ≡ second login_check.id → ⊥
    go d = omega (arith, d)

run-Quiet_example :
    Quiet sample "c1" 1000
      (jobs_of sample "c1" fired_once.queue)
      (run sample ((sent "e2", 2000) ∷ (sent "e3", 3000) ∷ []) fired_once)
unfolding inspect judge_all judge fire offer push_window match_event is_cooling evaluate eval_leaf
    eval_value eval_op eq_match eq_typed literal cooldown lookup insert text_dec new_engine widest
    context
run-Quiet_example =
    run-Quiet sample "c1" 1000 5000000000 (jobs_of sample "c1" fired_once.queue)
      ((sent "e2", 2000) ∷ (sent "e3", 3000) ∷ []) fired_once
      ((λ e. refl), ((λ e. absurd (distinct e)), tt)) (omega arith, (omega arith, tt))
      (record { fired = refl; same = refl })
