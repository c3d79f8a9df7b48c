-- ===== src/Baseline/Ready.antt =====
-- The invariant of the manager's store, from its beginning.
use gametrace.Prelude.{
  ℕ, zero, suc, ◌≡◌, refl, List, [], ◌∷◌, arith, All-select, length-select-le, select, Bool-cases,
  inl, inr, String, leb, length, take, is_nil, test, ◌-◌, ◌+◌,
}
use gametrace.Prelude.Map.{delete, All-delete, All-insert}
use gametrace.Prelude.Keys.{Unique-select}
use gametrace.Prelude.Text.{text_dec}
use gametrace.Baseline.Changes.{StateChange, Event, extract_state_changes}
use gametrace.Baseline.Store.{
  EntityKey, EntityBaseline, MemoryBaselineStore, Items, entity_dec, put, written, is_over,
  is_outside, evict_locked, delete_first, sort_seen, new_memory_baseline_store, forget_scope,
}
use gametrace.Baseline.Eviction.{IsBounded}
use gametrace.Baseline.Manager.{
  BaselineManager, Scope, new_baseline_manager, validated, max_state_changes_per_event,
}
use gametrace.Baseline.Apply.{
  apply, apply_declared, apply_loop, put_all, place_of, forget, changed_in_place,
}
use gametrace.Baseline.Writing.{Keyed, put_all-IsBounded, apply_loop-Kept}
use gametrace.Baseline.Sharing.{Keyed-shared, changed_in_place-IsBounded}

-- A manager whose store is bounded, with every baseline under its key.
pub record IsReady (bm : BaselineManager) : Type 0 where
  pub bounded : IsBounded bm.store
  pub keyed : Keyed bm.store.items

abbrev UnderKey : EntityKey × EntityBaseline → Type 0
UnderKey e = e.1.key ≡ e.0

Keyed-delete_first : (n : ℕ) (xs m : Items) → Keyed m → Keyed (delete_first n xs m)
unfolding delete_first
Keyed-delete_first zero xs m k = k
Keyed-delete_first (suc n) [] m k = k
Keyed-delete_first (suc n) ((j, b) ∷ xs) m k =
    Keyed-delete_first n xs (delete entity_dec j m) (All-delete entity_dec UnderKey j m k)

Keyed-evict_locked : (s : MemoryBaselineStore) → Keyed s.items → Keyed (evict_locked s).items
unfolding evict_locked
Keyed-evict_locked s k = elim (Bool-cases (leb (length s.items) s.max_entries)) [
  | inl y ↦ rw y k
  | inr n ↦ rw n (Keyed-delete_first (length s.items - s.max_entries) (sort_seen s.items) s.items k)
]

Keyed-put :
    (base : EntityBaseline) (s : MemoryBaselineStore) → Keyed s.items → Keyed (put base s).items
unfolding put
Keyed-put base s k =
    let here = All-insert entity_dec UnderKey base.key base s.items refl k in
    elim (Bool-cases (is_over (written base s))) [
      | inl y ↦ rw y (Keyed-evict_locked (written base s) here)
      | inr n ↦ rw n here
    ]

Keyed-put_all : (bs : Items) (s : MemoryBaselineStore) → Keyed s.items → Keyed (put_all bs s).items
unfolding put_all
Keyed-put_all [] s k = k
Keyed-put_all ((j, b) ∷ bs) s k = Keyed-put_all bs (put b s) (Keyed-put b s k)

pub new_baseline_manager-IsReady :
    (scope : Scope) → IsReady (new_baseline_manager new_memory_baseline_store scope)
new_baseline_manager-IsReady scope = record {
  bounded = record { unique = tt; fits = λ h. omega arith; level = omega arith };
  keyed = tt;
}

apply_declared-IsReady :
    (ev : Event) (session : String) (changes : List StateChange) (bm : BaselineManager)
    → IsReady bm
    → IsReady (apply_declared ev session changes bm).1
unfolding apply_declared
apply_declared-IsReady ev session changes bm r =
    let valid = (validated 0 changes).0 in
    let touched = (apply_loop (place_of bm.scope ev session) bm.ttl bm.store valid []).1.1 in
    let changed = changed_in_place ev.timestamp bm.ttl touched bm.store in
    let kept =
      (apply_loop-Kept (place_of bm.scope ev session) bm.ttl bm.store r.keyed valid []
        (tt, tt)).0 in
    elim (Bool-cases (is_nil valid)) [
      | inl y ↦ rw y (record { bounded = r.bounded; keyed = r.keyed })
      | inr n ↦ rw n (record {
        bounded =
            put_all-IsBounded touched changed
              (changed_in_place-IsBounded ev.timestamp bm.ttl touched bm.store r.bounded);
        keyed =
            Keyed-put_all touched changed
              (Keyed-shared ev.timestamp bm.ttl touched bm.store.items kept r.keyed);
      })
    ]

pub apply-IsReady :
    (ev : Event) (session : String) (bm : BaselineManager)
    → IsReady bm
    → IsReady (apply ev session bm).1
unfolding apply
apply-IsReady ev session bm r =
    let changes = extract_state_changes ev in
    let most = max_state_changes_per_event in
    let cut : BaselineManager = record bm { truncated = bm.truncated + (length changes - most) } in
    elim (Bool-cases (is_nil changes)) [
      | inl y ↦ rw y r
      | inr n ↦ rw n (
          apply_declared-IsReady ev session (take most changes) cut
            (record { bounded = r.bounded; keyed = r.keyed }))
    ]

-- The end of a session.
pub forget-IsReady :
    (scope : String) (bm : BaselineManager) → IsReady bm → IsReady (forget scope bm).1
unfolding forget forget_scope
forget-IsReady scope bm r =
    let kept = select (is_outside scope) bm.store.items in
    elim (Bool-cases (test (text_dec scope ""))) [
      | inl y ↦ rw y (record { bounded = r.bounded; keyed = r.keyed })
      | inr n ↦ rw n (record {
        bounded = record {
          unique = Unique-select entity_dec (is_outside scope) bm.store.items r.bounded.unique;
          fits = λ h.
              omega (arith, length-select-le (is_outside scope) bm.store.items, r.bounded.fits h);
          level = r.bounded.level;
        };
        keyed = All-select UnderKey (is_outside scope) bm.store.items r.keyed;
      })
    ]
