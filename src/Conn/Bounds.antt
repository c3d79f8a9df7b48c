-- ===== src/Conn/Bounds.antt =====
-- The size of the table: assignments add at most one instance each, and the sweep at every 256th
-- brings it back.
use gametrace.Prelude.{ℕ, suc, ◌+◌, ◌%◌, ◌≤◌, String, ◌≡◌, [], some, arith, length, ◌∙◌}
use gametrace.Prelude.Map.{
  lookup, insert, lookup-insert, lookup-insert_self, length-delete_le, length-insert_le,
  length-insert_present,
}
use gametrace.Prelude.Text.{text_dec}
use gametrace.Framing.FlowKey.{AddrPort}
use gametrace.Conn.Tracker.{
  Packet, ConnInst, ConnTracker, add_fin, u64, instance_id, max_tracked_conns, new_conn_tracker,
  new_instance, sweep, instance_for, close_on, count_assign, follow, assign, canonical_tuple,
}

length-close_on :
    (key end : String) (p : Packet) (i j : ConnInst) (t : ConnTracker)
    → lookup text_dec key t.active ≡ some j
    → length (close_on key end p i t).active ≤ length t.active
unfolding close_on
length-close_on key end p i j t h = ground (
  arith,
  length-delete_le text_dec key t.active,
  length-insert_present text_dec key (record i { fin_from = add_fin end i.fin_from }) j t.active h,
)

-- The instance that a packet belongs to is in the table that comes with it.
pub lookup-instance_for :
    (key : String) (p : Packet) (t : ConnTracker)
    → lookup text_dec key (instance_for key p t).1.active ≡ some (instance_for key p t).0
unfolding instance_for new_instance
lookup-instance_for key p t =
    let n : ℕ = suc t.seq % u64 in
    let new : ConnInst = record { id = instance_id key n; last_seen = 0; fin_from = [] } in
    ground (arith, lookup-insert text_dec key key new t.active)

length-instance_for :
    (key : String) (p : Packet) (t : ConnTracker)
    → length (instance_for key p t).1.active ≤ suc (length t.active)
unfolding instance_for new_instance
length-instance_for key p t =
    let n : ℕ = suc t.seq % u64 in
    let new : ConnInst = record { id = instance_id key n; last_seen = 0; fin_from = [] } in
    ground (arith, length-insert_le text_dec key new t.active)

length-sweep : (now : ℕ) (t : ConnTracker) → length (sweep now t).active ≤ max_tracked_conns
unfolding sweep
length-sweep now t = ground (arith)

-- At most `max_tracked_conns` instances, and one more for each assignment since the last sweep.
pub IsBounded : ConnTracker → Type 0
IsBounded t = length t.active ≤ max_tracked_conns + t.assigns % 256

pub new_conn_tracker-IsBounded : IsBounded new_conn_tracker
unfolding IsBounded
new_conn_tracker-IsBounded = omega arith

count_assign-IsBounded :
    (now : ℕ) (s t : ConnTracker)
    → IsBounded s
    → t.assigns ≡ s.assigns
    → length t.active ≤ suc (length s.active)
    → IsBounded (count_assign now t)
unfolding IsBounded count_assign
count_assign-IsBounded now s t h e l =
    ground (arith, length-sweep now (record t { assigns = suc t.assigns }))

assigns-close_on :
    (key end : String) (p : Packet) (i : ConnInst) (t : ConnTracker)
    → (close_on key end p i t).assigns ≡ t.assigns
unfolding close_on
assigns-close_on key end p i t = ground arith

assigns-instance_for :
    (key : String) (p : Packet) (t : ConnTracker) → (instance_for key p t).1.assigns ≡ t.assigns
unfolding instance_for new_instance
assigns-instance_for key p t = ground arith

module _ (render : AddrPort → String) where
  pub length-follow :
      (now : ℕ) (p : Packet) (t : ConnTracker)
      → length (follow render now p t).1.active ≤ suc (length t.active)
  unfolding follow
  length-follow now p t =
      let key = canonical_tuple render p in
      let found = instance_for key p t in
      let seen : ConnInst = record found.0 { last_seen = now } in
      let active = insert text_dec key seen found.1.active in
      omega (
        arith,
        length-instance_for key p t,
        length-insert_present text_dec key seen found.0 found.1.active
            (lookup-instance_for key p t),
        length-close_on key (render p.src) p seen seen (record found.1 { active = active })
            (lookup-insert_self text_dec key seen found.1.active),
      )

  assigns-follow :
      (now : ℕ) (p : Packet) (t : ConnTracker) → (follow render now p t).1.assigns ≡ t.assigns
  unfolding follow
  assigns-follow now p t =
      let key = canonical_tuple render p in
      let found = instance_for key p t in
      let seen : ConnInst = record found.0 { last_seen = now } in
      let active = insert text_dec key seen found.1.active in
      assigns-close_on key (render p.src) p seen (record found.1 { active = active })
      ∙ assigns-instance_for key p t

  -- The table has at most `max_tracked_conns` instances and one for each assignment since the last
  -- sweep: every assignment keeps it so.
  pub assign-IsBounded :
      (now : ℕ) (p : Packet) (t : ConnTracker) → IsBounded t → IsBounded (assign render now p t).1
  unfolding assign
  assign-IsBounded now p t h =
      let f = follow render now p t in
      ground
        (arith, count_assign-IsBounded now t f.1 h (assigns-follow now p t) (length-follow now p t))
