-- ===== src/Framing/Consuming.antt =====
-- Consume on a Stream of sdk/framing/framing.go, by what it takes from the buffer of its flow.
use gametrace.Prelude.{
  ℕ, ◌≡◌, refl, ap, Bool, true, false, List, [], ◌∷◌, none, some, arith, ite, length, Bool-cases,
  inl, inr, if◌then◌else◌, if_true, if_false, ◌∙◌, suc, zero, ◌≤◌, ◌+◌, ◌==◌, min, drop, leb,
  le_cases, ◌&&◌, is_nil,
}
use gametrace.Framing.Flow.{FlowState, consume, u32}
use gametrace.Framing.FlowKey.{FlowKey, FlowKey-discrete}
use gametrace.Framing.Reassembler.{
  Reassembler, Stream, remove, load, store, is_spent, consume_stream,
}
use gametrace.Framing.Isolation.{
  IsWellFormed, flow_of, store-IsWellFormed, flow_of-remove, flow_of-store,
}
use gametrace.Framing.Refinement.{IsLive}

-- A flow without its first n bytes, or without the bytes that it has; 0 leaves it as it is.
abbrev pub past : ℕ → FlowState → FlowState
past n fs = record fs {
  base = if n == 0 then fs.base else u32 (fs.base + u32 (min n (length fs.buf)));
  buf = drop n fs.buf;
}

drop_past : (n : ℕ) (xs : List ℕ) → length xs ≤ n → drop n xs ≡ []
drop_past zero [] h = refl
drop_past zero (x ∷ xs) h = absurd (omega arith)
drop_past (suc n) [] h = refl
drop_past (suc n) (x ∷ xs) h = drop_past n xs (omega arith)

consume-past : (fs : FlowState) (n : ℕ) → consume fs n ≡ past n fs
unfolding consume
consume-past fs zero = refl
consume-past fs (suc n) =
    let z : (suc n == 0) ≡ false = ground arith in
    elim (le_cases (length fs.buf) (suc n)) [
      | inl le ↦
          let all = drop_past (suc n) fs.buf le in
          let m : min (suc n) (length fs.buf) ≡ length fs.buf = omega arith in
          let t : leb (length fs.buf) (suc n) ≡ true = ground arith in rw (z, t, all, m) refl
      | inr gt ↦
          let m : min (suc n) (length fs.buf) ≡ suc n = omega arith in
          let t : leb (length fs.buf) (suc n) ≡ false = ground arith in rw (z, t, m) refl
    ]

is_nil-drop : (n : ℕ) (xs : List ℕ) → is_nil (drop n xs) ≡ leb (length xs) n
is_nil-drop zero [] = ground arith
is_nil-drop zero (x ∷ xs) = ground arith
is_nil-drop (suc n) [] = ground arith
is_nil-drop (suc n) (x ∷ xs) = ground (arith, is_nil-drop n xs)

spent_past :
    (fs : FlowState) (n : ℕ) → is_spent (past n fs) ≡ (fs.fin_seen && leb (length fs.buf) n)
spent_past fs n = ap (fs.fin_seen &&◌) (is_nil-drop n fs.buf)

module _ (ra : Reassembler) (w : IsWellFormed ra) (st : Stream) (live : IsLive ra st) (n : ℕ) where
  module _ (fs : FlowState) (e : flow_of ra st.key ≡ some fs) where
    loaded : load ra st.fs ≡ fs
    unfolding flow_of
    loaded = ground (arith, live.0, e)

    consume_stream-shape : consume_stream ra st n ≡ (
        if is_spent (consume fs n)
        then remove st.key (store ra st.fs (consume fs n))
        else store ra st.fs (consume fs n))
    unfolding consume_stream
    consume_stream-shape = ground (arith, loaded, live.1)

    consume_stream_opaque :
        (j : FlowKey)
        → flow_of (consume_stream ra st n) j
          ≡ ite
              (FlowKey-discrete st.key j)
              (if is_spent (consume fs n) then none else some (consume fs n))
              (flow_of ra j)
    consume_stream_opaque j = elim (Bool-cases (is_spent (consume fs n))) [
      | inl s ↦
          ap (λ q. flow_of q j) (consume_stream-shape ∙ if_true _ _ s)
          ∙ flow_of-remove (store ra st.fs (consume fs n))
              (store-IsWellFormed ra w st.fs (consume fs n)) st.key j
          ∙ ground (arith, s, flow_of-store ra w st.key st.fs (consume fs n) live.0 j)
      | inr s ↦
          ap (λ q. flow_of q j) (consume_stream-shape ∙ if_false _ _ s)
          ∙ flow_of-store ra w st.key st.fs (consume fs n) live.0 j
          ∙ ground (arith, s)
    ]

    -- Consume on the Stream of a flow takes the first n bytes, or all where there are no more, from the
    -- front of that flow's buffer and moves the sequence number of the first byte left as far; the flow
    -- is retired if its FIN was seen and no byte is left. No other flow changes.
    pub consume_stream-refines :
        (j : FlowKey)
        → flow_of (consume_stream ra st n) j
          ≡ ite
              (FlowKey-discrete st.key j)
              (if fs.fin_seen && leb (length fs.buf) n then none else some (past n fs))
              (flow_of ra j)
    consume_stream-refines j =
        consume_stream_opaque j
        ∙ (ap
              (λ (q : FlowState).
                ite (FlowKey-discrete st.key j) (if is_spent q then none else some q)
                  (flow_of ra j))
              (consume-past fs n)
            ∙ ap
                (λ (b : Bool).
                  ite (FlowKey-discrete st.key j) (if b then none else some (past n fs))
                    (flow_of ra j))
                (spent_past fs n))
