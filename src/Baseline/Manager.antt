-- ===== src/Baseline/Manager.antt =====
-- BaselineManager of pkg/state/baseline.go, on the store in memory that it uses when it is given none.
-- A baseline that an event changes is the event's own copy in the loop over its changes; those that it
-- shares with the store take the place of the store's before the first is written back.
use gametrace.Prelude.{
  ℕ, suc, ◌+◌, ◌-◌, ◌*◌, ◌%◌, ◌^◌, String, Bool, true, false, ◌&&◌, List, [], ◌∷◌, none, some, test,
  ltb, if◌then◌else◌,
}
use gametrace.Prelude.Map.{Map, lookup, insert, delete}
use gametrace.Prelude.Text.{text_dec}
use gametrace.Baseline.Value.{Value, merge}
use gametrace.Baseline.Value.Value.{null}
use gametrace.Baseline.Changes.{StateChange, is_op, is_object, validate}
use gametrace.Baseline.Store.{
  EntityKey, EntityBaseline, MemoryBaselineStore, Items, entity_dec, get,
}

pub data Scope : Type 0 where
  scope_session scope_peer : Scope

abbrev pub parse_scope : String → Scope
parse_scope v = if test (text_dec v "peer") then scope_peer else scope_session

-- In nanoseconds.
abbrev pub baseline_ttl : ℕ
baseline_ttl = 6 * 3600000000000

abbrev pub max_state_changes_per_event : ℕ
max_state_changes_per_event = 4096

pub record BaselineManager : Type 0 where
  pub store : MemoryBaselineStore
  pub scope : Scope
  pub ttl : ℕ
  pub noop_suppressed : ℕ
  pub invalid_skipped : ℕ
  pub truncated : ℕ

abbrev pub new_baseline_manager : MemoryBaselineStore → Scope → BaselineManager
new_baseline_manager store scope = record {
  store = store;
  scope = scope;
  ttl = baseline_ttl;
  noop_suppressed = 0;
  invalid_skipped = 0;
  truncated = 0;
}

-- Its `before` and `after` are those of the change that it embeds.
pub record EnrichedStateChange : Type 0 where
  pub change : StateChange
  pub event_id : String
  pub flow_id : String
  pub timestamp : ℕ
  pub before_resolved : Bool
  pub after_resolved : Bool
  pub entity_version : ℕ
  pub seq : ℕ

pub record Declared : Type 0 where
  pub seq : ℕ
  pub sc : StateChange

-- The loop over the changes: those that are valid with their places, and the number of the others.
unfoldable pub validated : ℕ → List StateChange → List Declared × ℕ
validated i [] = ([], 0)
validated i (sc ∷ scs) =
    let (valid, skipped) = validated (suc i) scs in
    elim (validate sc) [
      | none ↦ ((record { seq = suc i; sc = sc }) ∷ valid, skipped)
      | some e ↦ (valid, suc skipped)
    ]

-- Where an event stands: its scope and its flow, its identifier and its time.
pub record Place : Type 0 where
  pub scope : String
  pub flow_id : String
  pub event_id : String
  pub now : ℕ

abbrev pub key_of : Place → StateChange → EntityKey
key_of at sc = record {
  scope = at.scope;
  flow_id = at.flow_id;
  subject_type = sc.subject_type;
  subject_id = sc.subject_id;
}

abbrev pub new_entity : EntityKey → ℕ → EntityBaseline
new_entity key now = record {
  key = key;
  version = 0;
  state = [];
  first_seen = now;
  last_seen = now;
}

-- `now.Sub(base.LastSeen)` is negative, and no more than the ttl, where LastSeen is later.
abbrev pub is_stale : ℕ → ℕ → EntityBaseline → Bool
is_stale now ttl base = ltb 0 ttl && ltb ttl (now - base.last_seen)

-- The baseline of an entity, and whether there was one.
unfoldable pub stored : EntityKey → ℕ → ℕ → MemoryBaselineStore → EntityBaseline × Bool
stored key now ttl s = elim (get key s) [
  | none ↦ (new_entity key now, false)
  | some base ↦ if is_stale now ttl base then (new_entity key now, false) else (base, true)
]

unfoldable pub fetch : EntityKey → ℕ → ℕ → Items → MemoryBaselineStore → EntityBaseline × Bool
fetch key now ttl touched s = elim (lookup entity_dec key touched) [
  | none ↦ stored key now ttl s
  | some base ↦ (base, true)
]

unfoldable pub merged : Value → Value → Value
merged old after =
    if is_object old then elim (merge old after) [ none ↦ after | some v ↦ v ] else after

unfoldable pub effective : StateChange → Map String Value → Value
effective sc state =
    let onto : Value = elim (lookup text_dec sc.path state) [
      | none ↦ sc.after
      | some old ↦ merged old sc.after
    ] in
    if is_op sc.op "merge" then onto else if is_op sc.op "delete" then null else sc.after

-- The `before` of a change and whether it is resolved.
unfoldable pub resolve : Bool → Map String Value → StateChange → Value × Bool
resolve exists state sc = elim (lookup text_dec sc.path state) [
  | none ↦ (sc.before, false)
  | some old ↦ if exists then (old, true) else (sc.before, false)
]

unfoldable pub write : StateChange → Value → Map String Value → Map String Value
write sc v state =
    if is_op sc.op "delete" then delete text_dec sc.path state else insert text_dec sc.path v state

-- `>` on int64.
abbrev pub later_version : ℕ → ℕ → Bool
later_version a b = ltb ((b + 2 ^ 63) % 2 ^ 64) ((a + 2 ^ 63) % 2 ^ 64)

unfoldable pub advanced : Place → StateChange → Value → EntityBaseline → EntityBaseline
advanced at sc v base = record base {
  state = write sc v base.state;
  last_seen = at.now;
  version = if later_version sc.version base.version then sc.version else base.version;
}

abbrev pub enriched : Place → Declared → Value × Bool → Value → EnrichedStateChange
enriched at item old v = record {
  change = record item.sc { before = old.0; after = v };
  event_id = at.event_id;
  flow_id = at.flow_id;
  timestamp = at.now;
  before_resolved = old.1;
  after_resolved = if is_op item.sc.op "delete" then false else true;
  entity_version = item.sc.version;
  seq = item.seq;
}
