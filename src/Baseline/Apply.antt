-- ===== src/Baseline/Apply.antt =====
-- Apply of BaselineManager and its other operations.
use gametrace.Prelude.{
  ℕ, suc, ◌+◌, ◌-◌, String, ◌&&◌, List, [], ◌∷◌, Option, none, some, test, length, take, is_nil,
  if◌then◌else◌,
}
use gametrace.Prelude.Map.{lookup, insert}
use gametrace.Prelude.Text.{text_dec}
use gametrace.Baseline.Value.{Fields, as_object, as_string, entry, equal}
use gametrace.Baseline.Changes.{StateChange, Event, extract_state_changes}
use gametrace.Baseline.Store.{
  EntityKey, EntityBaseline, MemoryBaselineStore, Items, entity_dec, put, forget_scope,
}
use gametrace.Baseline.Manager.{
  BaselineManager, EnrichedStateChange, Declared, Place, Scope, key_of, fetch, effective, resolve,
  advanced, enriched, validated, max_state_changes_per_event, is_stale,
}
use gametrace.Baseline.Manager.Scope.{scope_session, scope_peer}

unfoldable pub with_row :
    Option EnrichedStateChange
    → List EnrichedStateChange × (ℕ × Items)
    → List EnrichedStateChange × (ℕ × Items)
with_row none out = (out.0, (suc out.1.0, out.1.1))
with_row (some r) out = (r ∷ out.0, out.1)

module _ (at : Place) (ttl : ℕ) (s : MemoryBaselineStore) where
  -- The body of the loop: the row, if there is one, and the baselines that the event has touched.
  unfoldable pub apply_one : Declared → Items → Option EnrichedStateChange × Items
  apply_one item touched =
      let key = key_of at item.sc in
      let (base, exists) = fetch key at.now ttl touched s in
      let v = effective item.sc base.state in
      let old = resolve exists base.state item.sc in
      if old.1 && equal old.0 v then (none, touched) else (
        some (enriched at item old v),
        insert entity_dec key (advanced at item.sc v base) touched,
      )

  -- The rows, the number of changes that were suppressed, and the baselines touched.
  unfoldable pub apply_loop : List Declared → Items → List EnrichedStateChange × (ℕ × Items)
  apply_loop [] touched = ([], (0, touched))
  apply_loop (item ∷ items) touched =
      let (row, next) = apply_one item touched in with_row row (apply_loop items next)

-- What the store holds under a key when the loop is done: a baseline that Get gave and that was not out of
-- date has been changed where it stands, before anything is written back.
unfoldable pub in_place : ℕ → ℕ → Items → EntityKey → EntityBaseline → EntityBaseline
in_place now ttl touched key base = elim (lookup entity_dec key touched) [
  | none ↦ base
  | some changed ↦ if is_stale now ttl base then base else changed
]

unfoldable pub shared : ℕ → ℕ → Items → Items → Items
shared now ttl touched [] = []
shared now ttl touched ((key, base) ∷ m) =
    (key, in_place now ttl touched key base) ∷ shared now ttl touched m

abbrev pub changed_in_place : ℕ → ℕ → Items → MemoryBaselineStore → MemoryBaselineStore
changed_in_place now ttl touched s = record s { items = shared now ttl touched s.items }

-- The last loop, over the map of those touched, whose order may be any.
unfoldable pub put_all : Items → MemoryBaselineStore → MemoryBaselineStore
put_all [] s = s
put_all ((k, base) ∷ bs) s = put_all bs (put base s)

unfoldable pub flow_text : Fields → Option String
flow_text fs = elim (entry "flow_id" fs) [ none ↦ none | some v ↦ as_string v ]

-- The field of the payload itself.
unfoldable pub flow_in_payload : Fields → String
flow_in_payload obj = elim (flow_text obj) [ none ↦ "" | some f ↦ f ]

unfoldable pub flow_in_meta : Fields → Option String
flow_in_meta obj = elim (entry "_meta" obj) [
  | none ↦ none
  | some meta ↦ elim (as_object meta) [ none ↦ none | some fs ↦ flow_text fs ]
]

unfoldable pub extract_flow_id : Event → String
extract_flow_id ev =
    let found : String = elim (as_object ev.payload) [
      | none ↦ ""
      | some obj ↦ elim (flow_in_meta obj) [ none ↦ flow_in_payload obj | some f ↦ f ]
    ] in
    if test (text_dec ev.flow_id "") then found else ev.flow_id

-- The scope, and the flow.
unfoldable pub entity_scope : Scope → Event → String → String → String × String
entity_scope scope_session ev session flow = (session, flow)
entity_scope scope_peer ev session flow =
    if test (text_dec ev.peer_key "") then (session, flow) else (ev.peer_key, "")

abbrev pub place_of : Scope → Event → String → Place
place_of scope ev session =
    let at = entity_scope scope ev session (extract_flow_id ev) in
    record { scope = at.0; flow_id = at.1; event_id = ev.id; now = ev.timestamp }

-- The part of Apply under the lock, of the changes that are not cut off.
unfoldable pub apply_declared :
    Event → String → List StateChange → BaselineManager → List EnrichedStateChange × BaselineManager
apply_declared ev session changes bm =
    let (valid, skipped) = validated 0 changes in
    let (rows, (suppressed, touched)) =
      apply_loop (place_of bm.scope ev session) bm.ttl bm.store valid [] in
    let checked : BaselineManager = record bm { invalid_skipped = bm.invalid_skipped + skipped } in
    if is_nil valid then ([], checked) else (
      rows,
      record checked {
        noop_suppressed = bm.noop_suppressed + suppressed;
        store = put_all touched (changed_in_place ev.timestamp bm.ttl touched bm.store);
      },
    )

-- An event that is nil has no changes.
unfoldable pub apply : Event → String → BaselineManager → List EnrichedStateChange × BaselineManager
apply ev session bm =
    let changes = extract_state_changes ev in
    let over = length changes - max_state_changes_per_event in
    if is_nil changes
    then ([], bm)
    else apply_declared ev session (take max_state_changes_per_event changes)
        (record bm { truncated = bm.truncated + over })

unfoldable pub forget : String → BaselineManager → ℕ × BaselineManager
forget scope bm = let (n, kept) = forget_scope scope bm.store in (n, record bm { store = kept })
