-- ===== src/SemanticHook/Tests.antt =====
-- Runs of the pairing at concrete values.
use gametrace.Prelude.{
  ◌≢◌, inr, ℕ_discrete, ℕ, ◌≡◌, refl, String, [], ◌∷◌, none, arith, ◌==◌, if◌then◌else◌,
}
use gametrace.Prelude.Map.{lookup, insert, delete}
use gametrace.Prelude.Text.{text_dec, concat}
use gametrace.Baseline.Value.Value.{null, string, object}
use gametrace.Baseline.Value.Fields.{field, end}
use gametrace.Baseline.Value.{entry, set_entry, as_string}
use gametrace.SemanticHook.Labels.{
  Marked, set_meta, strings, add_text, in_meta, written_through, apply_semantics, texts, labels_in,
  semantic_labels, has_role, role_of, apply_default_semantics, with_meta_object, apply_msg_names,
}
use gametrace.SemanticHook.Shapes.{one}
use gametrace.SemanticHook.Defaults.{HasRole, apply_default_semantics-HasRole}
use gametrace.Rule.Evaluation.{PairHit, match_pair}
use gametrace.SemanticHook.Pool.{
  Event, Heap, new_semantic_engine, map_key, apply_pair, apply_pairs, wait, evict_expired, linked,
  link, preserve_correlation_key,
}
use gametrace.SemanticHook.Linking.{Linked}
use gametrace.SemanticHook.Order.{apply_pair-Linked}

abbrev named : String → Event
named id = record {
  id = id;
  conn_id = "tcp#1";
  correlation_id = "";
  causation_id = "";
  meta = null;
}

-- The answer comes first, at address 0.
abbrev events : Heap
events a = if a == 0 then named "answer" else named "question"

abbrev hit : ℕ → PairHit
hit side = record { rule_id = "game.pair"; key = "7"; side = side }

abbrev start_key : String
start_key = map_key (events 0).conn_id (hit 1)

apply_pair-Linked_example :
    Linked 1 0 events
      (apply_pair 20 1
        (hit 0)
        (apply_pair 10 0 (hit 1) new_semantic_engine events).0
        (apply_pair 10 0 (hit 1) new_semantic_engine events).1).1
    × (lookup text_dec start_key
          (apply_pair 20 1
            (hit 0)
            (apply_pair 10 0 (hit 1) new_semantic_engine events).0
            (apply_pair 10 0 (hit 1) new_semantic_engine events).1).0.pending
        ≡ none)
unfolding lookup match_pair text_dec ℕ_discrete
apply_pair-Linked_example =
    apply_pair-Linked 10 20 0 1 (hit 1) (hit 0) new_semantic_engine events (omega arith) refl refl
      (omega arith) (omega arith) (omega arith) refl

answered :
    ((apply_pairs 1
        ((hit 0, 20) ∷ [])
        (apply_pair 10 0 (hit 1) new_semantic_engine events).0
        events).1
      0).causation_id
    ≡ "question"
unfolding apply_pairs apply_pair wait evict_expired linked link preserve_correlation_key map_key
    concat match_pair lookup insert delete text_dec ℕ_discrete
answered = refl

-- A server's message that a rule has marked as an error.
abbrev failed : Marked
failed = record {
  direction = "server_to_client";
  meta = object (field "semantic" (string "error") end);
  payload = null;
}

error_is_no_text : ◌≢◌ {A = String} "error" ""
error_is_no_text e = cc

apply_default_semantics-HasRole_example :
    HasRole "response" ("error" ∷ []) failed (apply_default_semantics failed)
unfolding entry text_dec
apply_default_semantics-HasRole_example =
    apply_default_semantics-HasRole failed "response" ("error" ∷ []) (inr (refl, refl))
      (one "error" error_is_no_text)

failed_labels : semantic_labels (apply_default_semantics failed) ≡ "error" ∷ "response" ∷ []
unfolding apply_default_semantics semantic_labels labels_in texts add_text strings has_role role_of
    apply_semantics set_meta entry set_entry as_string text_dec
failed_labels = refl

view_with_meta :
    with_meta_object
      (object (field "op" (string "login") end))
      (object (field "role" (string "c") end))
    ≡ object
        (field "op" (string "login") (field "_meta" (object (field "role" (string "c") end)) end))
unfolding with_meta_object set_entry entry text_dec
view_with_meta = refl

named_twice :
    (apply_msg_names
      (record { rule_id = "n"; value = "login" } ∷ [])
      (record failed { payload = object (field "_meta" (object end) end) })).payload
    ≡ object (field "_meta" (object (field "msg_name" (string "login") end)) end)
unfolding apply_msg_names set_meta written_through in_meta entry set_entry text_dec
named_twice = refl
