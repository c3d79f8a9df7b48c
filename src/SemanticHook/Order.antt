-- ===== src/SemanticHook/Order.antt =====
-- The pairing of two events, whichever of them comes first.
use gametrace.Prelude.{
  ℕ, suc, ◌%◌, ◌<◌, ◌≡◌, ◌≢◌, refl, sym, ap, subst, ◌∙◌, String, Bool, true, false, none, some,
  arith, length, length-select-le, select, leb, ◌==◌, if◌then◌else◌, if_true, Bool-cases, inl, inr,
  not,
}
use gametrace.Prelude.Map.{
  lookup, insert, delete, lookup-delete, lookup-insert_self, lookup-select, length-insert_le,
}
use gametrace.Prelude.Text.{text_dec}
use gametrace.Rule.Evaluation.{PairHit, match_pair}
use gametrace.SemanticHook.Pool.{
  Heap, PendingPair, SemanticEngine, max_pending_pairs, is_live, evict_expired, map_key, wait,
  is_partner, linked, apply_pair,
}
use gametrace.SemanticHook.Linking.{Linked, link-Linked}

live : (now : ℕ) (key : String) (p : PendingPair) → p.at ≡ now → is_live now (key, p) ≡ true
live now key p e = ground arith

lookup-evict_expired :
    (now : ℕ) (key : String) (p : PendingPair) (e : SemanticEngine)
    → length e.pending < max_pending_pairs
    → p.at ≡ now
    → lookup text_dec key e.pending ≡ some p
    → lookup text_dec key (evict_expired now e).pending ≡ some p
unfolding evict_expired
lookup-evict_expired now key p e size t h =
    let there = lookup-select text_dec (is_live now) key p e.pending h (live now key p t) in
    let short = length-select-le (is_live now) e.pending in
    let full : leb max_pending_pairs (length (select (is_live now) e.pending)) ≡ false =
      ground arith in
    rw full there

-- There is room, so the one that waits stays.
lookup-wait :
    (now : ℕ) (key : String) (p : PendingPair) (e : SemanticEngine)
    → suc (length e.pending) < max_pending_pairs
    → p.at ≡ now
    → lookup text_dec key (wait now key p e).pending ≡ some p
unfolding wait
lookup-wait now key p e size t =
    let full : leb max_pending_pairs (length e.pending) ≡ false = ground arith in
    let there = lookup-insert_self text_dec key p e.pending in
    let added : SemanticEngine = record {
      pending = insert text_dec key p e.pending;
      inserts = suc e.inserts;
    } in
    let small = length-insert_le text_dec key p e.pending in
    rw full (elim (Bool-cases (suc e.inserts % 512 == 0)) [
      | inl y ↦ rw y (lookup-evict_expired now key p added (omega arith) t there)
      | inr n ↦ rw n there
    ])

-- The same key, the same connection.
key_same :
    (conn other : String) (h k : PairHit)
    → conn ≡ other
    → match_pair h k ≡ true
    → map_key other k ≡ map_key conn h
unfolding match_pair map_key
key_same conn other h k c m =
    let r : h.rule_id ≡ k.rule_id = ground arith in let q : h.key ≡ k.key = ground arith in cc

apply_pair_first :
    (now a : ℕ) (h : PairHit) (e : SemanticEngine) (heap : Heap)
    → lookup text_dec (map_key (heap a).conn_id h) e.pending ≡ none
    → apply_pair now a h e heap ≡ (
      wait now
          (map_key (heap a).conn_id h)
          (record { hit = h; evt = a; conn = (heap a).conn_id; at = now })
          e,
      heap,
    )
unfolding apply_pair
apply_pair_first now a h e heap n = rw (apply_pair, n) refl

apply_pair_second :
    (now a : ℕ) (h : PairHit) (p : PendingPair) (e : SemanticEngine) (heap : Heap)
    → lookup text_dec (map_key (heap a).conn_id h) e.pending ≡ some p
    → is_partner (heap a).conn_id h p ≡ true
    → apply_pair now a h e heap ≡ (
      record e { pending = delete text_dec (map_key (heap a).conn_id h) e.pending },
      linked h a p heap,
    )
unfolding apply_pair
apply_pair_second now a h p e heap n k = rw (apply_pair, n) (if_true _ _ k)

other_side :
    (h k : PairHit) (x : Bool)
    → match_pair h k ≡ true
    → h.side < 2
    → k.side < 2
    → (h.side == 0) ≡ x
    → (k.side == 0) ≡ not x
unfolding match_pair
other_side h k true m i j e = ground arith
other_side h k false m i j e = ground arith

linked-Linked :
    (h k : PairHit) (a b : ℕ) (p : PendingPair) (heap : Heap)
    → a ≢ b
    → match_pair h k ≡ true
    → h.side < 2
    → k.side < 2
    → p.evt ≡ a
    → let out = linked k b p heap in
      if h.side == 0 then Linked a b heap out else Linked b a heap out
unfolding linked
linked-Linked h k a b p heap n m i j e = elim (Bool-cases (h.side == 0)) [
  | inl y ↦ let z = other_side h k true m i j y in rw (y, z, e) (link-Linked a b heap n)
  | inr y ↦
      let z = other_side h k false m i j y in rw (y, z, e) (link-Linked b a heap (λ q. n (sym q)))
]

-- Two events of one connection, with hits that match, are treated one after the other by an engine in
-- which nothing waits under their key and that has room. Whichever of them comes first, the one of side
-- 0 is linked as the request and the other as its response, and neither goes on waiting; this is so
-- however long the first has waited, since nothing between the two has removed it.
pub apply_pair-Linked :
    (t u a b : ℕ) (h k : PairHit) (e : SemanticEngine) (heap : Heap)
    → a ≢ b
    → (heap a).conn_id ≡ (heap b).conn_id
    → match_pair h k ≡ true
    → h.side < 2
    → k.side < 2
    → suc (length e.pending) < max_pending_pairs
    → lookup text_dec (map_key (heap a).conn_id h) e.pending ≡ none
    → let first = apply_pair t a h e heap in
      let out = apply_pair u b k first.0 first.1 in
      (if h.side == 0 then Linked a b heap out.1 else Linked b a heap out.1)
      × (lookup text_dec (map_key (heap a).conn_id h) out.0.pending ≡ none)
apply_pair-Linked t u a b h k e heap n c m i j room absent =
    let key = map_key (heap a).conn_id h in
    let p : PendingPair = record { hit = h; evt = a; conn = (heap a).conn_id; at = t } in
    let waiting = wait t key p e in
    let same : map_key (heap b).conn_id k ≡ key =
      key_same (heap a).conn_id (heap b).conn_id h k c m in
    let found : lookup text_dec (map_key (heap b).conn_id k) waiting.pending ≡ some p =
      subst (λ q. lookup text_dec q waiting.pending ≡ some p) (sym same)
        (lookup-wait t key p e room refl) in
    let mine : is_partner (heap b).conn_id k p ≡ true = ground arith in
    let one = apply_pair_first t a h e heap absent in
    let two = apply_pair_second u b k p waiting heap found mine in
    let Done : SemanticEngine × Heap → Type 0 = λ out.
      (if h.side == 0 then Linked a b heap out.1 else Linked b a heap out.1)
      × (lookup text_dec key out.0.pending ≡ none) in
    let gone : lookup text_dec key (delete text_dec (map_key (heap b).conn_id k) waiting.pending)
        ≡ none =
      ground (arith, lookup-delete text_dec (map_key (heap b).conn_id k) key waiting.pending) in
    subst Done (sym (ap (λ (o : SemanticEngine × Heap). apply_pair u b k o.0 o.1) one ∙ two))
      (linked-Linked h k a b p heap n m i j refl, gone)
