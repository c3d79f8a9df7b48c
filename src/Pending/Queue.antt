-- ===== src/Pending/Queue.antt =====
-- pendingQueue of cmd/gt-pipeline/pending_decode.go, over packets of which the code reads only
-- `len(pkt.Raw)`. The main loop alone uses the queue, so an operation is one step.
use gametrace.Prelude.{
  ℕ, zero, suc, ◌+◌, ◌-◌, ◌*◌, ◌^◌, true, false, ◌&&◌, List, [], ◌∷◌, ◌++◌, Option, none, some,
  length, ltb, ◌==◌, if◌then◌else◌,
}

pub record PendingQueue (P : Type 0) : Type 0 where
  pub items : List P
  pub bytes : ℕ
  pub max_bytes : ℕ
  pub dropped : ℕ

abbrev pub pending_queue_max_bytes : ℕ
pending_queue_max_bytes = 64 * 2 ^ 20

module _ {P : Type 0} where
  -- A maximum below 0 is treated as 0 is.
  abbrev pub new_pending_queue : ℕ → PendingQueue P
  new_pending_queue max = record {
    items = [];
    bytes = 0;
    max_bytes = if max == 0 then pending_queue_max_bytes else max;
    dropped = 0;
  }

  abbrev pub len : PendingQueue P → ℕ
  len q = length q.items

  abbrev pub head_or : P → PendingQueue P → P
  head_or fallback q = elim q.items [ [] ↦ fallback | x ∷ xs ↦ x ]

  module _ (size : P → ℕ) where
    -- `none` where the code panics, on an empty queue.
    unfoldable pub pop_head : PendingQueue P → Option (PendingQueue P)
    pop_head q = elim q.items [
      | [] ↦ none
      | x ∷ xs ↦ some (record q { items = xs; bytes = q.bytes - size x })
    ]

    -- The loop of push, on fuel.
    unfoldable pub drop_oldest : ℕ → PendingQueue P → Option (PendingQueue P)
    drop_oldest zero q = some q
    drop_oldest (suc fuel) q = elim (ltb q.max_bytes q.bytes && ltb 1 (len q)) [
      | false ↦ some q
      | true ↦ elim (pop_head q) [
        | none ↦ none
        | some r ↦ drop_oldest fuel (record r { dropped = suc r.dropped })
      ]
    ]

    unfoldable pub push : P → PendingQueue P → Option (PendingQueue P)
    push p q =
        drop_oldest (suc (len q)) (record q { items = q.items ++ p ∷ []; bytes = q.bytes + size p })
