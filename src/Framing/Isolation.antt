-- ===== src/Framing/Isolation.antt =====
-- The flows of sdk/framing/framing.go do not touch one another.
use gametrace.Prelude.{
  Option-cases, ite, inl, inr, get_elem?-append_lt, get_elem?-append_end, get_elem?-set_self,
  get_elem?-set_ne, ℕ, ◌<◌, ◌≡◌, [], ◌∷◌, ◌++◌, Option, none, some, arith, length, get_elem?,
  length-append, length-set,
}
use gametrace.Prelude.Map.{lookup, lookup-insert, lookup-delete}
use gametrace.Framing.Flow.{FlowState, fresh}
use gametrace.Framing.FlowKey.{FlowKey, FlowKey-discrete}
use gametrace.Framing.Reassembler.{
  Reassembler, find, remove, store, alloc, new_reassembler, open_new, reset,
}

-- Every flow has a state of its own.
pub record IsWellFormed (ra : Reassembler) : Type 0 where
  pub allocated : (k : FlowKey) (a : ℕ) → find k ra ≡ some a → a < length ra.heap
  pub unshared : (j k : FlowKey) (a : ℕ) → find j ra ≡ some a → find k ra ≡ some a → j ≡ k

-- The state of a flow, if the map has one.
unfoldable pub flow_of : Reassembler → FlowKey → Option FlowState
flow_of ra k = elim (find k ra) [ none ↦ none | some a ↦ get_elem? ra.heap a ]

pub new_reassembler-IsWellFormed : IsWellFormed new_reassembler
unfolding new_reassembler lookup
new_reassembler-IsWellFormed = record { allocated = λ k a e. cc; unshared = λ j k a e f. cc }

module _ (ra : Reassembler) (w : IsWellFormed ra) where
  pub store-IsWellFormed : (a : ℕ) (fs : FlowState) → IsWellFormed (store ra a fs)
  store-IsWellFormed a fs = record {
    allocated = λ k b e. omega (arith, w.allocated k b e, length-set ra.heap a fs);
    unshared = w.unshared;
  }

  pub alloc-IsWellFormed : (fs : FlowState) → IsWellFormed (alloc ra fs)
  alloc-IsWellFormed fs = record {
    allocated = λ k b e. omega (arith, w.allocated k b e, length-append ra.heap (fs ∷ []));
    unshared = w.unshared;
  }

  pub remove-IsWellFormed : (k : FlowKey) → IsWellFormed (remove k ra)
  remove-IsWellFormed k = record {
    allocated =
        λ j b e. w.allocated j b (ground (arith, lookup-delete FlowKey-discrete k j ra.flows));
    unshared = λ i j b e f.
        w.unshared i j b (ground (arith, lookup-delete FlowKey-discrete k i ra.flows))
          (ground (arith, lookup-delete FlowKey-discrete k j ra.flows));
  }

  pub reset-IsWellFormed : IsWellFormed (reset ra)
  unfolding reset lookup
  reset-IsWellFormed = record { allocated = λ k a e. cc; unshared = λ j k a e f. cc }

  pub open_new-IsWellFormed : (k : FlowKey) → IsWellFormed (open_new ra k).0
  unfolding open_new
  open_new-IsWellFormed k = record { allocated = allocated; unshared = unshared }
    where
      allocated :
          (j : FlowKey) (b : ℕ)
          → find j (open_new ra k).0 ≡ some b
          → b < length (ra.heap ++ fresh ∷ [])
      allocated j b e = ground (
        arith,
        lookup-insert FlowKey-discrete k j (length ra.heap) ra.flows,
        w.allocated j b,
        length-append ra.heap (fresh ∷ []),
      )

      unshared :
          (i j : FlowKey) (b : ℕ)
          → find i (open_new ra k).0 ≡ some b
          → find j (open_new ra k).0 ≡ some b
          → i ≡ j
      unshared i j b e f = ground (
        arith,
        lookup-insert FlowKey-discrete k i (length ra.heap) ra.flows,
        lookup-insert FlowKey-discrete k j (length ra.heap) ra.flows,
        w.allocated i b,
        w.allocated j b,
        w.unshared i j b,
      )

  -- What each change of the heap or of the map does to the states of the flows.
  pub flow_of-alloc : (fs : FlowState) (j : FlowKey) → flow_of (alloc ra fs) j ≡ flow_of ra j
  unfolding flow_of
  flow_of-alloc fs j = elim (Option-cases (find j ra)) [
    | inl e ↦ rw (e, flow_of)
    | inr (a, e) ↦ rw (e, flow_of) (get_elem?-append_lt ra.heap (fs ∷ []) a (w.allocated j a e))
  ]

  pub flow_of-remove :
      (k j : FlowKey) → flow_of (remove k ra) j ≡ ite (FlowKey-discrete k j) none (flow_of ra j)
  unfolding flow_of
  flow_of-remove k j = ground (arith, lookup-delete FlowKey-discrete k j ra.flows)

  pub flow_of-store :
      (k : FlowKey) (a : ℕ) (fs : FlowState)
      → find k ra ≡ some a
      → (j : FlowKey)
      → flow_of (store ra a fs) j ≡ ite (FlowKey-discrete k j) (some fs) (flow_of ra j)
  unfolding flow_of
  flow_of-store k a fs e j = elim (Option-cases (find j ra)) [
    | inl n ↦ ground (arith, n)
    | inr (b, f) ↦ ground (
      arith,
      f,
      w.allocated j b f,
      w.unshared k j a e,
      get_elem?-set_self ra.heap a fs,
      get_elem?-set_ne ra.heap a b fs,
    )
  ]

  pub flow_of-open :
      (k j : FlowKey)
      → flow_of (open_new ra k).0 j ≡ ite (FlowKey-discrete k j) (some fresh) (flow_of ra j)
  unfolding flow_of open_new
  flow_of-open k j = elim (Option-cases (find j ra)) [
    | inl n ↦ ground (
      arith,
      n,
      lookup-insert FlowKey-discrete k j (length ra.heap) ra.flows,
      get_elem?-append_end ra.heap fresh,
    )
    | inr (b, f) ↦ ground (
      arith,
      f,
      w.allocated j b f,
      lookup-insert FlowKey-discrete k j (length ra.heap) ra.flows,
      get_elem?-append_end ra.heap fresh,
      get_elem?-append_lt ra.heap (fresh ∷ []) b,
    )
  ]
