-- ===== src/Baseline/Tests.antt =====
-- Runs of the baselines at concrete values.
use gametrace.Prelude.{ℕ, ◌+◌, String, true, ◌≡◌, refl, [], ◌∷◌, none, some, arith, length}
use gametrace.Prelude.Map.{lookup, insert, delete}
use gametrace.Prelude.Text.{text_dec}
use gametrace.Baseline.Value.{
  Value, Values, equal, merge, entry, set_entries, set_entry, as_object, as_array, as_string,
  as_int,
}
use gametrace.Baseline.Value.Value.{null, int, string, array, object, float}
use gametrace.Baseline.Value.Values.{nil, cons}
use gametrace.Baseline.Value.Fields.{end, field}
use gametrace.Baseline.Changes.{
  Event, extract_state_changes, extract, or_else, changes_of, change_of, validate, validate_op,
}
use gametrace.Baseline.Store.{
  EntityKey, EntityBaseline, MemoryBaselineStore, entity_dec, new_memory_baseline_store, put, get,
  written, evict_locked, sort_seen, place_seen, delete_first,
}
use gametrace.Baseline.Manager.{
  BaselineManager, new_baseline_manager, fetch, stored, merged, effective, resolve, write, advanced,
  validated,
}
use gametrace.Baseline.Manager.Scope.{scope_session}
use gametrace.Baseline.Apply.{
  apply, apply_declared, apply_loop, apply_one, with_row, put_all, shared, in_place,
  extract_flow_id, flow_in_payload, flow_in_meta, flow_text, entity_scope,
}
use gametrace.Baseline.Eviction.{Evicts, put-Evicts, IsBounded}
use gametrace.Baseline.Ready.{IsReady, apply-IsReady, new_baseline_manager-IsReady}
use gametrace.Baseline.Accounts.{length-apply, accounted}
use gametrace.Baseline.Applied.{Tells, apply-Tells}

abbrev gold : Value → String → Value
gold v op = object (
    field "subject_type" (string "player") (
      field "subject_id" (string "7")
        (field "op" (string op) (field "path" (string "gold") (field "after" v end)))))

abbrev event_of : String → ℕ → Values → Event
event_of id now changes = record {
  id = id;
  timestamp = now;
  flow_id = "f";
  peer_key = "";
  analysis = null;
  payload = object (field "_state_changes" (array changes) end);
}

abbrev first : Event
first = event_of "e1" 100 (cons (gold (int 5) "set") nil)

-- The same value again, a new one, and one that is not allowed.
abbrev second : Event
second =
    event_of "e2" 200
      (cons (gold (int 5) "set") (cons (gold (int 8) "set") (cons (gold null "set") nil)))

abbrev start : BaselineManager
start = new_baseline_manager new_memory_baseline_store scope_session

abbrev once : BaselineManager
once = (apply first "s" start).1

abbrev player : EntityKey
player = record { scope = "s"; flow_id = "f"; subject_type = "player"; subject_id = "7" }

merged_fields :
    merge (object (field "a" (int 1) (field "b" (int 2) end))) (object (field "b" (int 3) end))
    ≡ some (object (field "a" (int 1) (field "b" (int 3) end)))
unfolding merge set_entries set_entry text_dec
merged_fields = refl

negative_zero : equal (float 0) (float 9223372036854775808) ≡ true
unfolding equal
negative_zero = refl

once-IsReady : IsReady once
once-IsReady = apply-IsReady first "s" start (new_baseline_manager-IsReady scope_session)

apply-Tells_example :
    Tells second "s" once (apply second "s" once).1 (apply second "s" once).0 player "gold"
    × IsReady (apply second "s" once).1
apply-Tells_example = apply-Tells second "s" once player "gold" once-IsReady

length-apply_example :
    length (apply second "s" once).0 + accounted (apply second "s" once).1
    ≡ length (extract_state_changes second) + accounted once
length-apply_example = length-apply second "s" once

second_counts : length (apply second "s" once).0 + accounted (apply second "s" once).1 ≡ 3
unfolding apply apply_declared apply_loop apply_one with_row put_all shared in_place extract_flow_id
    flow_in_payload flow_in_meta flow_text entity_scope fetch stored merged effective resolve write
    advanced validated extract_state_changes extract or_else changes_of change_of validate
    validate_op entry as_object as_array as_string as_int equal get put lookup insert delete
    text_dec entity_dec
second_counts = refl

abbrev seen_at : String → ℕ → EntityBaseline
seen_at id now = record {
  key = record { scope = "s"; flow_id = ""; subject_type = "player"; subject_id = id };
  version = 0;
  state = [];
  first_seen = now;
  last_seen = now;
}

-- A store with room for two, which is full.
abbrev full : MemoryBaselineStore
full = record {
  items = ((seen_at "1" 30).key, seen_at "1" 30) ∷ ((seen_at "2" 20).key, seen_at "2" 20) ∷ [];
  max_entries = 2;
  sweep_at = 2;
  evicted = 0;
}

full-IsBounded : IsBounded full
unfolding lookup entity_dec text_dec
full-IsBounded = record {
  unique = (refl, (refl, tt));
  fits = λ h. omega arith;
  level = omega arith;
}

put-Evicts_example : Evicts (written (seen_at "3" 40) full) (put (seen_at "3" 40) full)
put-Evicts_example = put-Evicts (seen_at "3" 40) full full-IsBounded

-- The one that was seen first has to go.
oldest_goes : get (seen_at "2" 20).key (put (seen_at "3" 40) full) ≡ none
unfolding get put evict_locked sort_seen place_seen delete_first lookup insert delete entity_dec
    text_dec
oldest_goes = refl
