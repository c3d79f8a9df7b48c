-- ===== src/Conn/Generations.antt =====
-- The identifiers that a tracker hands out, over its whole life.
use gametrace.Prelude.{
  ℕ, suc, ◌%◌, ◌≤◌, ◌<◌, String, ◌≡◌, true, [], none, some, arith, length, select, All, ltb,
  Option-cases, Bool-cases, inl, inr, subst, refl, sym, All-weaken, All-select, ◌⊎◌,
}
use gametrace.Prelude.Map.{Map, lookup, insert, delete, All-delete, All-insert, All-lookup}
use gametrace.Prelude.Text.{text_dec, number_of, number_of-decimal}
use gametrace.Framing.FlowKey.{AddrPort}
use gametrace.Conn.Tracker.{
  Packet, ConnInst, ConnTracker, max_tracked_conns, u64, instance_id, new_instance, sweep,
  instance_for, close_on, count_assign, follow, is_recent, is_open, canonical_tuple, add_fin, sweep,
}

pub number_of-instance_id : (key : String) (n : ℕ) → number_of (instance_id key n) ≡ n
unfolding instance_id
number_of-instance_id key n = number_of-decimal key n

-- The identifier is that of one of the first `n` instances.
unfoldable pub IsIssued : ℕ → String → Type 0
IsIssued n id = number_of id ≤ n

abbrev pub IsKnown : ℕ → String × ConnInst → Type 0
IsKnown n e = IsIssued n e.1.id

abbrev pub Known : ℕ → Map String ConnInst → Type 0
Known n m = All (IsKnown n) m

pub IsIssued-later : (m n : ℕ) → m ≤ n → (id : String) → IsIssued m id → IsIssued n id
unfolding IsIssued
IsIssued-later m n h id a = omega arith

Known-later : (m n : ℕ) → m ≤ n → (es : Map String ConnInst) → Known m es → Known n es
Known-later m n h es a = All-weaken (IsKnown m) (IsKnown n) (λ e. IsIssued-later m n h e.1.id) es a

Known-sweep : (n now : ℕ) (t : ConnTracker) → Known n t.active → Known n (sweep now t).active
unfolding sweep
Known-sweep n now t a =
    let kept = select (is_recent now) t.active in
    let still : Known n kept = All-select (IsKnown n) (is_recent now) t.active a in
    elim (Bool-cases (ltb max_tracked_conns (length kept))) [ inl y ↦ rw y tt | inr x ↦ rw x still ]

Known-close_on :
    (n : ℕ) (key end : String) (p : Packet) (i : ConnInst) (t : ConnTracker)
    → IsIssued n i.id
    → Known n t.active
    → Known n (close_on key end p i t).active
unfolding close_on
Known-close_on n key end p i t h a =
    let ended : ConnInst = record i { fin_from = add_fin end i.fin_from } in
    let deleted : Known n (delete text_dec key t.active) =
      All-delete text_dec (IsKnown n) key t.active a in
    let written : Known n (insert text_dec key ended t.active) =
      All-insert text_dec (IsKnown n) key ended t.active h a in
    ground arith

-- An instance is new, with the next number, or the one that the table has.
instance_for-cases :
    (key : String) (p : Packet) (t : ConnTracker)
    → (instance_for key p t ≡ new_instance key t)
      ⊎ ((i : ConnInst) × (lookup text_dec key t.active ≡ some i) × (instance_for key p t ≡ (i, t)))
unfolding instance_for
instance_for-cases key p t = elim (Option-cases (lookup text_dec key t.active)) [
  | inl e ↦ inl (rw (instance_for, e) refl)
  | inr (i, e) ↦ elim (Bool-cases (is_open p)) [
    | inl o ↦ inl (rw (instance_for, e, o) refl)
    | inr o ↦ inr (i, e, rw (instance_for, e, o) refl)
  ]
]

pub instance_for_new :
    (key : String) (p : Packet) (t : ConnTracker)
    → (is_open p ≡ true) ⊎ (lookup text_dec key t.active ≡ none)
    → instance_for key p t ≡ new_instance key t
unfolding instance_for
instance_for_new key p t h = ground arith

-- What holds of an instance and the tracker that it comes with.
pub record Follows (t : ConnTracker) (r : ConnInst × ConnTracker) : Type 0 where
  pub later : t.seq ≤ r.1.seq
  pub near : r.1.seq ≤ suc t.seq
  pub issued : IsIssued r.1.seq r.0.id
  pub known : Known r.1.seq r.1.active

Follows-new_instance :
    (key : String) (t : ConnTracker)
    → suc t.seq < u64
    → Known t.seq t.active
    → Follows t (new_instance key t)
unfolding new_instance IsIssued
Follows-new_instance key t h a =
    let e : suc t.seq % u64 ≡ suc t.seq = omega arith in
    let new : ConnInst = record {
      id = instance_id key (suc t.seq % u64);
      last_seen = 0;
      fin_from = [];
    } in
    let i : number_of new.id ≤ suc t.seq % u64 =
      omega (arith, number_of-instance_id key (suc t.seq % u64)) in
    record {
      later = omega (arith, e);
      near = omega (arith, e);
      issued = i;
      known =
          All-insert text_dec (IsKnown (suc t.seq % u64)) key new t.active i
            (Known-later t.seq (suc t.seq % u64) (omega (arith, e)) t.active a);
    }

Follows-instance_for :
    (key : String) (p : Packet) (t : ConnTracker)
    → suc t.seq < u64
    → Known t.seq t.active
    → Follows t (instance_for key p t)
Follows-instance_for key p t h a = elim (instance_for-cases key p t) [
  | inl e ↦ subst (Follows t) (sym e) (Follows-new_instance key t h a)
  | inr (i, found, e) ↦ subst (Follows t) (sym e) (record {
    later = omega arith;
    near = omega arith;
    issued = All-lookup text_dec (IsKnown t.seq) key i t.active found a;
    known = a;
  })
]

seq-close_on :
    (key end : String) (p : Packet) (i : ConnInst) (t : ConnTracker)
    → (close_on key end p i t).seq ≡ t.seq
unfolding close_on
seq-close_on key end p i t = ground arith

pub seq-count_assign : (now : ℕ) (t : ConnTracker) → (count_assign now t).seq ≡ t.seq
unfolding count_assign sweep
seq-count_assign now t = ground arith

pub Known-count_assign :
    (n now : ℕ) (t : ConnTracker) → Known n t.active → Known n (count_assign now t).active
unfolding count_assign
Known-count_assign n now t a =
    let swept = Known-sweep n now (record t { assigns = suc t.assigns }) a in ground arith

module _ (render : AddrPort → String) where
  pub Follows-follow :
      (now : ℕ) (p : Packet) (t : ConnTracker)
      → suc t.seq < u64
      → Known t.seq t.active
      → Follows t (follow render now p t)
  unfolding follow
  Follows-follow now p t h a =
      let key = canonical_tuple render p in
      let end = render p.src in
      let found = instance_for key p t in
      let f = Follows-instance_for key p t h a in
      let seen : ConnInst = record found.0 { last_seen = now } in
      let opened : ConnTracker = record found.1 {
        active = insert text_dec key seen found.1.active;
      } in
      let e = seq-close_on key end p seen opened in
      let written : Known found.1.seq opened.active =
        All-insert text_dec (IsKnown found.1.seq) key seen found.1.active f.issued f.known in
      record {
        later = omega (arith, e, f.later);
        near = omega (arith, e, f.near);
        issued = subst (λ (n : ℕ). IsIssued n found.0.id) (sym e) f.issued;
        known =
            subst (λ (n : ℕ). Known n (close_on key end p seen opened).active) (sym e)
              (Known-close_on found.1.seq key end p seen opened f.issued written);
      }
