-- ===== src/SemanticHook/Linking.antt =====
-- What linking a request and its response writes.
use gametrace.Prelude.{ℕ, ◌≡◌, ◌≢◌, refl, String, true, false, some, arith, ◌==◌}
use gametrace.Baseline.Value.{Value, Fields, entry, set_entry}
use gametrace.Baseline.Value.Value.{string}
use gametrace.Baseline.Value.Fields.{end, field}
use gametrace.SemanticHook.Pool.{Event, Heap, store, fields_of, preserve_correlation_key, link}

pub entry-set_entry : (k : String) (v : Value) (fs : Fields) → entry k (set_entry k v fs) ≡ some v
unfolding entry set_entry
entry-set_entry k v end = ground arith
entry-set_entry k v (field j w fs) = ground (arith, entry-set_entry k v fs)

-- An event after it was linked under an identifier: what its plugin had for this is in its meta values.
pub record Traced (corr : String) (old new : Event) : Type 0 where
  pub id : new.id ≡ old.id
  pub conn_id : new.conn_id ≡ old.conn_id
  pub correlation : new.correlation_id ≡ corr
  pub kept :
      old.correlation_id ≢ ""
      → old.correlation_id ≢ corr
      → entry "corr_key" (fields_of new.meta) ≡ some (string old.correlation_id)

-- A request and its response were linked by the request's identifier, and nothing else was written.
pub record Linked (req resp : ℕ) (old new : Heap) : Type 0 where
  pub request : Traced (old req).id (old req) (new req)
  pub request_cause : (new req).causation_id ≡ (old req).causation_id
  pub response : Traced (old req).id (old resp) (new resp)
  pub response_cause : (new resp).causation_id ≡ (old req).id
  pub others : (b : ℕ) → b ≢ req → b ≢ resp → new b ≡ old b

store_self : (a : ℕ) (e : Event) (heap : Heap) → store a e heap a ≡ e
store_self a e heap = ground arith

store_other : (a b : ℕ) (e : Event) (heap : Heap) → b ≢ a → store a e heap b ≡ heap b
store_other a b e heap n = ground arith

Traced-preserve :
    (corr cause : String) (ev : Event)
    → Traced corr ev
        (record (preserve_correlation_key corr ev) { correlation_id = corr; causation_id = cause })
unfolding preserve_correlation_key
Traced-preserve corr cause ev = record {
  id = ground arith;
  conn_id = ground arith;
  correlation = refl;
  kept = λ n m.
      ground (arith, entry-set_entry "corr_key" (string ev.correlation_id) (fields_of ev.meta));
}

preserved : (corr : String) (ev : Event) → (preserve_correlation_key corr ev).id ≡ ev.id
unfolding preserve_correlation_key
preserved corr ev = ground arith

preserved_cause :
    (corr : String) (ev : Event) → (preserve_correlation_key corr ev).causation_id ≡ ev.causation_id
unfolding preserve_correlation_key
preserved_cause corr ev = ground arith

pub link-Linked :
    (req resp : ℕ) (heap : Heap) → req ≢ resp → Linked req resp heap (link req resp heap)
unfolding link
link-Linked req resp heap n =
    let a : (req == req) ≡ true = ground arith in
    let b : (resp == resp) ≡ true = ground arith in
    let c : (req == resp) ≡ false = ground arith in
    let d : (resp == req) ≡ false = ground arith in
    let corr = (heap req).id in
    record {
      request =
          rw (a, b, c, d)
            (Traced-preserve corr (preserve_correlation_key corr (heap req)).causation_id
              (heap req));
      request_cause = rw (a, b, c, d) (preserved_cause corr (heap req));
      response =
          rw (a, b, c, d)
            (Traced-preserve corr (preserve_correlation_key corr (heap req)).id (heap resp));
      response_cause = rw (a, b, c, d) (preserved corr (heap req));
      others = λ x p q. ground arith;
    }
