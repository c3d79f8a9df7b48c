-- ===== src/Baseline/Applied.antt =====
-- Apply as a whole, on a store whose baselines stand under their keys.
use gametrace.Prelude.{
  ℕ, ◌+◌, ◌-◌, ◌≡◌, refl, sym, ◌∙◌, ap, subst, List, [], Option, none, some, arith, Bool-cases, inl,
  inr, ◌⊎◌, true, false, String, Bool, length, take, is_nil,
}
use gametrace.Prelude.Map.{lookup}
use gametrace.Prelude.Text.{text_dec}
use gametrace.Baseline.Value.{Value}
use gametrace.Baseline.Changes.{StateChange, Event, extract_state_changes}
use gametrace.Baseline.Store.{EntityKey, EntityBaseline, MemoryBaselineStore, Items, get}
use gametrace.Baseline.Sorting.{find}
use gametrace.Baseline.Manager.{
  BaselineManager, EnrichedStateChange, Place, is_stale, stored, fetch, max_state_changes_per_event,
  validated,
}
use gametrace.Baseline.Apply.{apply, apply_declared, apply_loop, place_of, changed_in_place}
use gametrace.Baseline.Replay.{Chained, replay, value_at, apply_loop-Chained}
use gametrace.Baseline.Writing.{apply_loop-Kept, find-put_all}
use gametrace.Baseline.Sharing.{found-shared, changed_in_place-IsBounded}
use gametrace.Baseline.Ready.{IsReady, apply-IsReady}

-- A value of an entity that is fresh in a store.
stored-fresh :
    (key : EntityKey) (now ttl : ℕ) (s : MemoryBaselineStore) (b : EntityBaseline)
    → get key s ≡ some b
    → is_stale now ttl b ≡ false
    → stored key now ttl s ≡ (b, true)
unfolding stored
stored-fresh key now ttl s b e f = rw (stored, e, f) refl

abbrev pub old_value : Event → EntityKey → String → BaselineManager → Option Value
old_value ev key path bm = lookup text_dec path (stored key ev.timestamp bm.ttl bm.store).0.state

-- What the rows of an event tell of a path of an entity: they are chained from the value that the store
-- had, and a fresh baseline that it has afterwards has the value that they leave.
pub record Tells (ev : Event) (session : String) (bm after : BaselineManager)
    (rows : List EnrichedStateChange) (key : EntityKey) (path : String) : Type 0 where
  pub chained : Chained (place_of bm.scope ev session) key path rows (old_value ev key path bm)
  pub left :
      (b : EntityBaseline)
      → get key after.store ≡ some b
      → is_stale ev.timestamp bm.ttl b ≡ false
      → lookup text_dec path b.state
        ≡ replay (place_of bm.scope ev session) key path rows (old_value ev key path bm)

old_value-fresh :
    (ev : Event) (key : EntityKey) (path : String) (bm : BaselineManager) (b : EntityBaseline)
    → get key bm.store ≡ some b
    → is_stale ev.timestamp bm.ttl b ≡ false
    → lookup text_dec path b.state ≡ old_value ev key path bm
old_value-fresh ev key path bm b e f = sym (
    ap (λ (x : EntityBaseline × Bool). lookup text_dec path x.0.state)
      (stored-fresh key ev.timestamp bm.ttl bm.store b e f))

value_at-fresh :
    (at : Place) (ttl : ℕ) (s : MemoryBaselineStore) (touched : Items) (key : EntityKey)
    (path : String) (b : EntityBaseline)
    → (find key touched ≡ some b) ⊎ ((find key touched ≡ none) × (find key s.items ≡ some b))
    → is_stale at.now ttl b ≡ false
    → value_at at ttl s key path touched ≡ lookup text_dec path b.state
unfolding fetch stored get
value_at-fresh at ttl s touched key path b h f = ground arith

value_at-nil :
    (at : Place) (ttl : ℕ) (s : MemoryBaselineStore) (key : EntityKey) (path : String)
    → value_at at ttl s key path [] ≡ lookup text_dec path (stored key at.now ttl s).0.state
unfolding fetch lookup
value_at-nil at ttl s key path = refl

apply_declared-Tells :
    (ev : Event) (session : String) (changes : List StateChange) (bm : BaselineManager)
    (key : EntityKey) (path : String)
    → IsReady bm
    → let out = apply_declared ev session changes bm in Tells ev session bm out.1 out.0 key path
unfolding apply_declared get
apply_declared-Tells ev session changes bm key path r =
    let at = place_of bm.scope ev session in
    let valid = (validated 0 changes).0 in
    let rows = (apply_loop at bm.ttl bm.store valid []).0 in
    let touched = (apply_loop at bm.ttl bm.store valid []).1.1 in
    let (kept, unique) = apply_loop-Kept at bm.ttl bm.store r.keyed valid [] (tt, tt) in
    let (chained, left) = apply_loop-Chained at bm.ttl bm.store valid [] key path in
    let changed = changed_in_place at.now bm.ttl touched bm.store in
    let nil = value_at-nil at bm.ttl bm.store key path in
    elim (Bool-cases (is_nil valid)) [
      | inl y ↦ rw y (record { chained = tt; left = λ b e f. old_value-fresh ev key path bm b e f })
      | inr n ↦ rw n (record {
        chained = subst (Chained at key path rows) nil chained;
        left = λ b e f.
            sym (
              value_at-fresh at bm.ttl bm.store touched key path b
                (found-shared at.now bm.ttl touched key b bm.store.items (
                  find-put_all touched changed key b
                    (changed_in_place-IsBounded at.now bm.ttl touched bm.store r.bounded) kept
                    unique e))
                f)
            ∙ (left ∙ ap (replay at key path rows) nil);
      })
    ]

apply_told :
    (ev : Event) (session : String) (bm : BaselineManager) (key : EntityKey) (path : String)
    → IsReady bm
    → Tells ev session bm (apply ev session bm).1 (apply ev session bm).0 key path
unfolding apply
apply_told ev session bm key path r =
    let changes = extract_state_changes ev in
    let over = length changes - max_state_changes_per_event in
    elim (Bool-cases (is_nil changes)) [
      | inl y ↦ rw y (record { chained = tt; left = λ b e f. old_value-fresh ev key path bm b e f })
      | inr n ↦
          let cut : BaselineManager = record bm { truncated = bm.truncated + over } in
          let told =
            apply_declared-Tells ev session (take max_state_changes_per_event changes) cut key path
              (record { bounded = r.bounded; keyed = r.keyed }) in
          rw n (record { chained = told.chained; left = told.left })
    ]

-- The rows that Apply gives out for an event tell, of every path of every entity, how its value came to
-- be: each row's `before` is the value that the rows before it had left, from the value that the store
-- had for a fresh baseline, and a fresh baseline that the store has afterwards has exactly the value that
-- the last of them leaves, so that changes that were suppressed make no difference. This holds of a
-- manager whose store is bounded, with each baseline under its key, and Apply leaves such a manager.
pub apply-Tells :
    (ev : Event) (session : String) (bm : BaselineManager) (key : EntityKey) (path : String)
    → IsReady bm
    → Tells ev session bm (apply ev session bm).1 (apply ev session bm).0 key path
      × IsReady (apply ev session bm).1
apply-Tells ev session bm key path r =
    (apply_told ev session bm key path r, apply-IsReady ev session bm r)
