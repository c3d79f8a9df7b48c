-- ===== src/SemanticHook/Pool.antt =====
-- applyPairs, evictExpired and preserveCorrelationKey of cmd/gt-pipeline/semantic_hook.go. The events that
-- wait are shared with their other holders, so an event is an address in a heap. The lock makes the
-- treatment of a hit one step, for which the clock is read once.
use gametrace.Prelude.{
  ℕ, suc, ◌-◌, ◌*◌, ◌%◌, String, Bool, not, ◌&&◌, ◌||◌, List, [], ◌∷◌, none, some, test, length,
  select, leb, ltb, ◌==◌, if◌then◌else◌,
}
use gametrace.Prelude.Map.{Map, lookup, insert, delete}
use gametrace.Prelude.Text.{text_dec, concat}
use gametrace.Baseline.Value.{Value, Fields, set_entry}
use gametrace.Baseline.Value.Value.{string, object}
use gametrace.Baseline.Value.Fields.{end}
use gametrace.Rule.Evaluation.{PairHit, match_pair}

-- Of an event, what the pairing reads and writes.
pub record Event : Type 0 where
  pub id : String
  pub conn_id : String
  pub correlation_id : String
  pub causation_id : String
  pub meta : Value

abbrev pub Heap : Type 0
Heap = ℕ → Event

-- The heap with another event at an address.
abbrev pub store : ℕ → Event → Heap → Heap
store a e heap b = if a == b then e else heap b

pub record PendingPair : Type 0 where
  pub hit : PairHit
  pub evt : ℕ
  pub conn : String
  pub at : ℕ

-- What the engine keeps for the pairing.
pub record SemanticEngine : Type 0 where
  pub pending : Map String PendingPair
  pub inserts : ℕ

abbrev pub new_semantic_engine : SemanticEngine
new_semantic_engine = record { pending = []; inserts = 0 }

abbrev pub max_pending_pairs : ℕ
max_pending_pairs = 4096

-- In nanoseconds.
abbrev pub pending_ttl : ℕ
pending_ttl = 30 * 1000000000

-- `now.Sub(p.at)` is negative where `at` is later.
abbrev pub is_live : ℕ → String × PendingPair → Bool
is_live now e = not (ltb pending_ttl (now - e.1.at))

unfoldable pub evict_expired : ℕ → SemanticEngine → SemanticEngine
evict_expired now e =
    let kept = select (is_live now) e.pending in
    record e { pending = if leb max_pending_pairs (length kept) then [] else kept }

abbrev pub fields_of : Value → Fields
fields_of (object fs) = fs
fields_of _ = end

unfoldable pub preserve_correlation_key : String → Event → Event
preserve_correlation_key pair_key ev =
    if test (text_dec ev.correlation_id "") || test (text_dec ev.correlation_id pair_key)
    then ev
    else record ev {
      meta = object (set_entry "corr_key" (string ev.correlation_id) (fields_of ev.meta));
    }

-- A request and its response are linked, in the order in which the code writes them.
unfoldable pub link : ℕ → ℕ → Heap → Heap
link req resp heap =
    let corr = (heap req).id in
    let h1 = store req (preserve_correlation_key corr (heap req)) heap in
    let h2 = store resp (preserve_correlation_key corr (h1 resp)) h1 in
    let h3 = store req (record (h2 req) { correlation_id = corr }) h2 in
    store resp (record (h3 resp) { correlation_id = corr; causation_id = (h3 req).id }) h3

unfoldable pub map_key : String → PairHit → String
map_key conn h = concat (conn ∷ "\0" ∷ h.rule_id ∷ "\0" ∷ h.key ∷ [])

-- A hit that finds no partner waits for one.
unfoldable pub wait : ℕ → String → PendingPair → SemanticEngine → SemanticEngine
wait now key p e =
    let room : SemanticEngine =
      if leb max_pending_pairs (length e.pending) then evict_expired now e else e in
    let added : SemanticEngine = record {
      pending = insert text_dec key p room.pending;
      inserts = suc room.inserts;
    } in
    if added.inserts % 512 == 0 then evict_expired now added else added

abbrev pub is_partner : String → PairHit → PendingPair → Bool
is_partner conn h prev = test (text_dec prev.conn conn) && match_pair prev.hit h

unfoldable pub linked : PairHit → ℕ → PendingPair → Heap → Heap
linked h a prev heap = if h.side == 0 then link a prev.evt heap else link prev.evt a heap

-- The body of the loop of applyPairs, for the event at an address.
unfoldable pub apply_pair : ℕ → ℕ → PairHit → SemanticEngine → Heap → SemanticEngine × Heap
apply_pair now a h e heap =
    let conn = (heap a).conn_id in
    let key = map_key conn h in
    let p : PendingPair = record { hit = h; evt = a; conn = conn; at = now } in
    elim (lookup text_dec key e.pending) [
      | none ↦ (wait now key p e, heap)
      | some prev ↦
          if is_partner conn h prev
          then (record e { pending = delete text_dec key e.pending }, linked h a prev heap)
          else (wait now key p e, heap)
    ]

-- Each hit with the time at which it is treated.
unfoldable pub apply_pairs : ℕ → List (PairHit × ℕ) → SemanticEngine → Heap → SemanticEngine × Heap
apply_pairs a [] e heap = (e, heap)
apply_pairs a ((h, now) ∷ hs) e heap =
    let (next, written) = apply_pair now a h e heap in apply_pairs a hs next written
