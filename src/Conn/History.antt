-- ===== src/Conn/History.antt =====
-- The identifiers that a tracker hands out, over its whole life.
use gametrace.Prelude.{
  ℕ, suc, ◌%◌, ◌≤◌, ◌<◌, String, ◌≡◌, ◌≢◌, true, List, [], ◌∷◌, Option, none, some, arith, length,
  All, All-weaken, subst, sym, ap, ◌∙◌, ◌⊎◌,
}
use gametrace.Prelude.Map.{lookup, lookup-insert_self}
use gametrace.Prelude.Text.{text_dec, number_of}
use gametrace.Framing.FlowKey.{AddrPort}
use gametrace.Conn.Tracker.{
  Packet, MetaValue, text, ConnInst, ConnTracker, u64, new_conn_tracker, new_instance, count_assign,
  follow, assign, is_tracked, is_open, canonical_tuple, assign_tracked, id-follow,
}
use gametrace.Conn.Generations.{
  number_of-instance_id, IsIssued, IsIssued-later, Known, Known-count_assign, seq-count_assign,
  Follows-follow, instance_for_new,
}

abbrev pub conn_id_of : Packet → Option MetaValue
conn_id_of p = lookup text_dec "conn_id" p.metadata

module _ (render : AddrPort → String) where
  -- The identifiers that a new tracker has handed out, the latest first, and its state.
  pub data History : List String → ConnTracker → Type 0 where
    start : History [] new_conn_tracker
    given :
        {ids : List String} {t : ConnTracker} (now : ℕ) (p : Packet)
        → is_tracked p ≡ true
        → History ids t
        → History ((follow render now p t).0.id ∷ ids) (assign render now p t).1

  record Bounded (ids : List String) (t : ConnTracker) : Type 0 where
    counted : t.seq ≤ length ids
    issued : All (IsIssued t.seq) ids
    known : Known t.seq t.active

  History-Bounded :
      {ids : List String} {t : ConnTracker} → History ids t → length ids < u64 → Bounded ids t
  History-Bounded start h = record { counted = omega arith; issued = tt; known = tt }
  History-Bounded (given {ids} {t} now p k r) h =
      let b = History-Bounded r (omega arith) in
      let f = Follows-follow render now p t (omega (arith, b.counted)) b.known in
      let next = follow render now p t in
      let e : (assign render now p t).1 ≡ count_assign now next.1 =
        ap (λ (q : Packet × ConnTracker). q.1) (assign_tracked render now p t k) in
      subst (Bounded (next.0.id ∷ ids)) (sym e) (record {
        counted = omega (arith, seq-count_assign now next.1, f.near, b.counted);
        issued =
            subst (λ (n : ℕ). All (IsIssued n) (next.0.id ∷ ids))
              (sym (seq-count_assign now next.1))
              (
                f.issued,
                All-weaken (IsIssued t.seq) (IsIssued next.1.seq)
                    (IsIssued-later t.seq next.1.seq f.later) ids b.issued,
              );
        known =
            subst (λ (n : ℕ). Known n (count_assign now next.1).active)
              (sym (seq-count_assign now next.1))
              (Known-count_assign next.1.seq now next.1 f.known);
      })

  pub conn_id-assign :
      (now : ℕ) (p : Packet) (t : ConnTracker)
      → is_tracked p ≡ true
      → conn_id_of (assign render now p t).0 ≡ some (text (follow render now p t).0.id)
  conn_id-assign now p t k =
      ap (λ (q : Packet × ConnTracker). conn_id_of q.0) (assign_tracked render now p t k)
      ∙ lookup-insert_self text_dec "conn_id" (text (follow render now p t).0.id) p.metadata

  -- The number of the identifier of a packet that opens a connection.
  number-follow :
      (now : ℕ) (p : Packet) (t : ConnTracker)
      → suc t.seq < u64
      → (is_open p ≡ true) ⊎ (lookup text_dec (canonical_tuple render p) t.active ≡ none)
      → number_of (follow render now p t).0.id ≡ suc t.seq
  unfolding new_instance
  number-follow now p t h o =
      let key = canonical_tuple render p in
      ap number_of (
        id-follow render now p t
        ∙ ap (λ (r : ConnInst × ConnTracker). r.0.id) (instance_for_new key p t o))
      ∙ (number_of-instance_id key (suc t.seq % u64) ∙ omega arith)

  -- A packet that opens a connection, by a SYN or as the first of its kind in the table, gets an
  -- identifier that no packet before it was given.
  pub assign-History_fresh :
      {ids : List String} {t : ConnTracker} (now : ℕ) (p : Packet)
      → History ids t
      → suc (length ids) < u64
      → is_tracked p ≡ true
      → (is_open p ≡ true) ⊎ (lookup text_dec (canonical_tuple render p) t.active ≡ none)
      → (id : String) × (conn_id_of (assign render now p t).0 ≡ some (text id))
        × All (λ old. old ≢ id) ids
  unfolding IsIssued
  assign-History_fresh {ids} {t} now p r h k o =
      let b = History-Bounded r (omega arith) in
      let id = (follow render now p t).0.id in
      (
        id,
        conn_id-assign now p t k,
        All-weaken (IsIssued t.seq) (λ old. old ≢ id)
            (λ old i e.
              omega (arith, i, ap number_of e, number-follow now p t (omega (arith, b.counted)) o))
            ids b.issued,
      )
