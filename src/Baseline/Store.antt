-- ===== src/Baseline/Store.antt =====
-- MemoryBaselineStore of pkg/state/baseline.go. The mutex makes an operation one step. Eviction ranges
-- over the map: it sees the entries in the order of the list, which may be any.
use gametrace.Prelude.{
  ℕ, zero, suc, ◌+◌, ◌-◌, ◌/◌, String, Bool, not, ◌&&◌, [], ◌∷◌, Option, test, length, select, leb,
  ltb, if◌then◌else◌,
}
use gametrace.Prelude.Map.{Map, lookup, insert, delete}
use gametrace.Prelude.Text.{text_dec}
use gametrace.Baseline.Value.{Value}

pub record EntityKey : Type 0 where
  pub scope : String
  pub flow_id : String
  pub subject_type : String
  pub subject_id : String

unfoldable pub entity_dec : Discrete EntityKey
entity_dec = hlevel text_dec

pub record EntityBaseline : Type 0 where
  pub key : EntityKey
  pub version : ℕ
  pub state : Map String Value
  pub first_seen : ℕ
  pub last_seen : ℕ

abbrev pub Items : Type 0
Items = Map EntityKey EntityBaseline

pub record MemoryBaselineStore : Type 0 where
  pub items : Items
  pub max_entries : ℕ
  pub sweep_at : ℕ
  pub evicted : ℕ

abbrev pub max_baseline_entries : ℕ
max_baseline_entries = 100000

abbrev pub new_memory_baseline_store : MemoryBaselineStore
new_memory_baseline_store = record {
  items = [];
  max_entries = max_baseline_entries;
  sweep_at = max_baseline_entries;
  evicted = 0;
}

unfoldable pub get : EntityKey → MemoryBaselineStore → Option EntityBaseline
get key s = lookup entity_dec key s.items

-- sort.Slice by LastSeen; how it orders those of one time depends on the order it is given.
unfoldable pub place_seen : EntityKey × EntityBaseline → Items → Items
place_seen e [] = e ∷ []
place_seen e (x ∷ xs) =
    let rest = place_seen e xs in if ltb x.1.last_seen e.1.last_seen then x ∷ rest else e ∷ x ∷ xs

unfoldable pub sort_seen : Items → Items
sort_seen [] = []
sort_seen (e ∷ es) = place_seen e (sort_seen es)

-- The first `n` keys of the first list are deleted from the second.
unfoldable pub delete_first : ℕ → Items → Items → Items
delete_first zero xs m = m
delete_first (suc n) [] m = m
delete_first (suc n) ((k, b) ∷ xs) m = delete_first n xs (delete entity_dec k m)

unfoldable pub evict_locked : MemoryBaselineStore → MemoryBaselineStore
evict_locked s =
    let over = length s.items - s.max_entries in
    let raised = s.max_entries + s.max_entries / 8 in
    if leb (length s.items) s.max_entries then record s { sweep_at = raised } else record s {
      items = delete_first over (sort_seen s.items) s.items;
      evicted = s.evicted + over;
      sweep_at = raised;
    }

abbrev pub written : EntityBaseline → MemoryBaselineStore → MemoryBaselineStore
written base s = record s { items = insert entity_dec base.key base s.items }

abbrev pub is_over : MemoryBaselineStore → Bool
is_over s = ltb 0 s.max_entries && ltb s.sweep_at (length s.items)

unfoldable pub put : EntityBaseline → MemoryBaselineStore → MemoryBaselineStore
put base s = if is_over (written base s) then evict_locked (written base s) else written base s

abbrev pub is_outside : String → EntityKey × EntityBaseline → Bool
is_outside scope e = not (test (text_dec e.0.scope scope))

-- The number of the entries that it deletes, and the store.
unfoldable pub forget_scope : String → MemoryBaselineStore → ℕ × MemoryBaselineStore
forget_scope scope s =
    let kept = select (is_outside scope) s.items in
    if test (text_dec scope "")
    then (0, s)
    else (length s.items - length kept, record s { items = kept })

abbrev pub len : MemoryBaselineStore → ℕ
len s = length s.items
