-- ===== src/Framing/Refinement.antt =====
-- The shared Reassembler of sdk/framing/framing.go as one independent state for each flow.
use gametrace.Prelude.{
  ℕ, ◌≡◌, ◌≢◌, refl, sym, ap, Bool, true, false, not, List, [], ◌∷◌, Option, none, some, arith, ite,
  length, get_elem?, get_elem?-set_self, get_elem?-append_end, Option-cases, Bool-cases, inl, inr,
  if◌then◌else◌, if_true, if_false, ◌∙◌, ◌<◌, suc, zero,
}
use gametrace.Prelude.Map.{lookup-insert}
use gametrace.Framing.Flow.{FlowState, fresh}
use gametrace.Framing.FlowKey.{FlowKey, FlowKey-discrete, no_flow}
use gametrace.Framing.Reassembler.{
  Segment, Reassembler, Stream, find, remove, load, store, alloc, open_new, flow_for, on_syn,
  on_data, is_spent, push_tcp, push, bytes,
}
use gametrace.Framing.Isolation.{
  IsWellFormed, flow_of, store-IsWellFormed, alloc-IsWellFormed, remove-IsWellFormed,
  open_new-IsWellFormed, flow_of-alloc, flow_of-remove, flow_of-store, flow_of-open,
}

-- The state that a segment of a flow meets.
abbrev pub current : Option FlowState → FlowState
current none = fresh
current (some fs) = if fs.fin_seen then fresh else fs

-- The same flow after one TCP segment.
unfoldable pub next_flow : Option FlowState → Segment → Option FlowState
next_flow o seg =
    let fs = on_data (current o) seg in
    if seg.flags.rst
    then none
    else if seg.flags.syn
    then some (on_syn (current o) seg)
    else if is_spent fs
    then none
    else some fs

record Opened (ra : Reassembler) (k : FlowKey) (r : Reassembler × ℕ) : Type 0 where
  wf : IsWellFormed r.0
  found : find k r.0 ≡ some r.1
  state : load r.0 r.1 ≡ current (flow_of ra k)
  others :
      (j : FlowKey)
      → flow_of r.0 j ≡ ite (FlowKey-discrete k j) (some (current (flow_of ra k))) (flow_of ra j)

get_elem?-some :
    (xs : List FlowState) (a : ℕ) → a < length xs → (fs : FlowState) × (get_elem? xs a ≡ some fs)
get_elem?-some [] a h = absurd (omega arith)
get_elem?-some (x ∷ xs) zero h = (x, refl)
get_elem?-some (x ∷ xs) (suc a) h = get_elem?-some xs a (omega arith)

module _ (ra : Reassembler) (w : IsWellFormed ra) (k : FlowKey) where
  open_new-Opened : current (flow_of ra k) ≡ fresh → Opened ra k (open_new ra k)
  unfolding open_new
  open_new-Opened e = record {
    wf = open_new-IsWellFormed ra w k;
    found = ground (arith, lookup-insert FlowKey-discrete k k (length ra.heap) ra.flows);
    state = ground (arith, e, get_elem?-append_end ra.heap fresh);
    others = λ j.
        flow_of-open ra w k j
        ∙ ap (λ t. ite (FlowKey-discrete k j) (some t) (flow_of ra j)) (sym e);
  }

  closed-Opened : find k ra ≡ none → Opened ra k (flow_for ra k)
  unfolding flow_for flow_of
  closed-Opened n = rw (n, flow_for) (open_new-Opened (rw (n, flow_of)))

  module _ (a : ℕ) (e : find k ra ≡ some a) (fs : FlowState)
      (g : get_elem? ra.heap a ≡ some fs) where
    open-state : flow_of ra k ≡ some fs
    unfolding flow_of
    open-state = rw (e, flow_of) g

    open-load : load ra a ≡ fs
    open-load = rw (g, load)

    ended-Opened : fs.fin_seen ≡ true → Opened ra k (flow_for ra k)
    unfolding flow_for
    ended-Opened t = rw (e, flow_for) (rw (open-load, t) (open_new-Opened (rw (open-state, t))))

    live-Opened : fs.fin_seen ≡ false → Opened ra k (flow_for ra k)
    unfolding flow_for
    live-Opened t =
        rw (e, flow_for)
          (rw (open-load, t)
            (record {
              wf = w;
              found = e;
              state = open-load ∙ sym now;
              others = λ j. ground (arith, now, open-state);
            }))
      where
        now : current (flow_of ra k) ≡ fs
        now = rw (open-state, t)

  flow_for-Opened : Opened ra k (flow_for ra k)
  flow_for-Opened = elim (Option-cases (find k ra)) [
    | inl n ↦ closed-Opened n
    | inr (a, e) ↦
        let (fs, g) = get_elem?-some ra.heap a (w.allocated k a e) in
        elim (Bool-cases fs.fin_seen) [
          | inl t ↦ ended-Opened a e fs g t
          | inr t ↦ live-Opened a e fs g t
        ]
  ]

if4 {ℓ κ} :
    {A : Type ℓ} (P : A → Type κ) (b c d : Bool) (w x y z : A)
    → (b ≡ true → P w)
    → (b ≡ false → c ≡ true → P x)
    → (b ≡ false → c ≡ false → d ≡ true → P y)
    → (b ≡ false → c ≡ false → d ≡ false → P z)
    → P (if b then w else if c then x else if d then y else z)
if4 P true c d w x y z pw px py pz = pw refl
if4 P false true d w x y z pw px py pz = px refl refl
if4 P false false true w x y z pw px py pz = py refl refl refl
if4 P false false false w x y z pw px py pz = pz refl refl refl

-- The four ways in which a TCP segment is handled, in the state at address `a`.
module _ (ra : Reassembler) (a : ℕ) (seg : Segment) where
  abbrev at_a : Stream
  at_a = record { key = seg.flow; fs = a }

  abbrev fed : FlowState
  fed = on_data (load ra a) seg

  push_tcp-cases :
      (P : Reassembler × Stream → Type 0)
      → (seg.flags.rst ≡ true
          → P (
            alloc (remove seg.flow ra) (record fresh { base_set = true }),
            record { key = seg.flow; fs = length ra.heap },
          ))
      → (seg.flags.rst ≡ false
          → seg.flags.syn ≡ true
          → P (store ra a (on_syn (load ra a) seg), at_a))
      → (seg.flags.rst ≡ false
          → seg.flags.syn ≡ false
          → is_spent fed ≡ true
          → P (remove seg.flow (store ra a fed), at_a))
      → (seg.flags.rst ≡ false
          → seg.flags.syn ≡ false
          → is_spent fed ≡ false
          → P (store ra a fed, at_a))
      → P (push_tcp ra a seg)
  unfolding push_tcp
  push_tcp-cases P = if4 P seg.flags.rst seg.flags.syn (is_spent fed) _ _ _ _

-- A segment of a flow, handled in the state that `flow_for` found.
module _ {ra : Reassembler} (r : Reassembler × ℕ) (seg : Segment) (o : Opened ra seg.flow r) where
  push_tcp-IsWellFormed : IsWellFormed (push_tcp r.0 r.1 seg).0
  push_tcp-IsWellFormed =
      push_tcp-cases r.0 r.1 seg (λ q. IsWellFormed q.0)
        (λ _.
          alloc-IsWellFormed (remove seg.flow r.0) (remove-IsWellFormed r.0 o.wf seg.flow)
            (record fresh { base_set = true }))
        (λ _ _. store-IsWellFormed r.0 o.wf r.1 (on_syn (load r.0 r.1) seg))
        (λ _ _ _.
          remove-IsWellFormed (store r.0 r.1 (fed r.0 r.1 seg))
            (store-IsWellFormed r.0 o.wf r.1 (fed r.0 r.1 seg)) seg.flow)
        (λ _ _ _. store-IsWellFormed r.0 o.wf r.1 (fed r.0 r.1 seg))

  push_tcp-flows :
      (j : FlowKey)
      → flow_of (push_tcp r.0 r.1 seg).0 j
        ≡ ite (FlowKey-discrete seg.flow j) (next_flow (flow_of ra seg.flow) seg) (flow_of ra j)
  unfolding next_flow
  push_tcp-flows j =
      push_tcp-cases r.0 r.1 seg
        (λ q.
          flow_of q.0 j
          ≡ ite (FlowKey-discrete seg.flow j) (next_flow (flow_of ra seg.flow) seg) (flow_of ra j))
        (λ e.
          flow_of-alloc (remove seg.flow r.0) (remove-IsWellFormed r.0 o.wf seg.flow)
            (record fresh { base_set = true }) j
          ∙ flow_of-remove r.0 o.wf seg.flow j
          ∙ ground (arith, o.others j))
        (λ e f.
          flow_of-store r.0 o.wf seg.flow r.1 (on_syn (load r.0 r.1) seg) o.found j
          ∙ ground (arith, o.others j, o.state))
        (λ e f g.
          flow_of-remove (store r.0 r.1 (fed r.0 r.1 seg))
            (store-IsWellFormed r.0 o.wf r.1 (fed r.0 r.1 seg)) seg.flow j
          ∙ ground (
            arith,
            o.others j,
            o.state,
            flow_of-store r.0 o.wf seg.flow r.1 (fed r.0 r.1 seg) o.found j,
          ))
        (λ e f g.
          flow_of-store r.0 o.wf seg.flow r.1 (fed r.0 r.1 seg) o.found j
          ∙ ground (arith, o.others j, o.state))

  push_tcp-bytes : bytes (push_tcp r.0 r.1 seg).0 (push_tcp r.0 r.1 seg).1 ≡ (
      if seg.flags.rst
      then []
      else if seg.flags.syn
      then (on_syn (current (flow_of ra seg.flow)) seg).buf
      else (on_data (current (flow_of ra seg.flow)) seg).buf)
  unfolding bytes
  push_tcp-bytes =
      push_tcp-cases r.0 r.1 seg
        (λ q. bytes q.0 q.1 ≡ (
          if seg.flags.rst
          then []
          else if seg.flags.syn
          then (on_syn (current (flow_of ra seg.flow)) seg).buf
          else (on_data (current (flow_of ra seg.flow)) seg).buf))
        (λ e. ground (arith, e, get_elem?-append_end r.0.heap (record fresh { base_set = true })))
        (λ e f. ground (
          arith,
          o.state,
          o.wf.allocated seg.flow r.1 o.found,
          get_elem?-set_self r.0.heap r.1 (on_syn (load r.0 r.1) seg),
        ))
        (λ e f g. ground (
          arith,
          o.state,
          o.wf.allocated seg.flow r.1 o.found,
          get_elem?-set_self r.0.heap r.1 (fed r.0 r.1 seg),
        ))
        (λ e f g. ground (
          arith,
          o.state,
          o.wf.allocated seg.flow r.1 o.found,
          get_elem?-set_self r.0.heap r.1 (fed r.0 r.1 seg),
        ))

module _ (ra : Reassembler) (w : IsWellFormed ra) (seg : Segment) where
  passed : Reassembler × Stream
  passed = (
    alloc ra (record fresh { buf = seg.payload; base_set = true }),
    record { key = no_flow; fs = length ra.heap },
  )

  push-other : seg.is_tcp ≡ false → push ra seg ≡ passed
  unfolding push passed
  push-other e = if_true _ _ (ap not e)

  push-tcp :
      seg.is_tcp ≡ true
      → push ra seg ≡ push_tcp (flow_for ra seg.flow).0 (flow_for ra seg.flow).1 seg
  unfolding push
  push-tcp e = if_false _ _ (ap not e)

  -- Push keeps a reassembler well-formed: every flow has a state that is there, and no two flows share
  -- one.
  pub push-IsWellFormed : IsWellFormed (push ra seg).0
  unfolding passed
  push-IsWellFormed = elim (Bool-cases seg.is_tcp) [
    | inl e ↦
        rw (push-tcp e)
          (push_tcp-IsWellFormed (flow_for ra seg.flow) seg (flow_for-Opened ra w seg.flow))
    | inr e ↦
        rw (push-other e)
          (alloc-IsWellFormed ra w (record fresh { buf = seg.payload; base_set = true }))
  ]

  -- Push acts on the flow of the segment as `next_flow` does, and on no other flow; a segment that is
  -- not TCP changes no flow.
  pub push-refines :
      (j : FlowKey)
      → flow_of (push ra seg).0 j ≡ (
          if seg.is_tcp
          then ite
              (FlowKey-discrete seg.flow j)
              (next_flow (flow_of ra seg.flow) seg)
              (flow_of ra j)
          else flow_of ra j)
  unfolding passed
  push-refines j = elim (Bool-cases seg.is_tcp) [
    | inl e ↦
        ap (λ (q : Reassembler × Stream). flow_of q.0 j) (push-tcp e)
        ∙ push_tcp-flows (flow_for ra seg.flow) seg (flow_for-Opened ra w seg.flow) j
        ∙ sym (if_true _ _ e)
    | inr e ↦
        ap (λ (q : Reassembler × Stream). flow_of q.0 j) (push-other e)
        ∙ flow_of-alloc ra w (record fresh { buf = seg.payload; base_set = true }) j
        ∙ sym (if_false _ _ e)
  ]

  bytes-passed : bytes passed.0 passed.1 ≡ seg.payload
  unfolding bytes passed
  bytes-passed =
      ground
        (arith, get_elem?-append_end ra.heap (record fresh { buf = seg.payload; base_set = true }))

  -- From the Stream that Push returns the caller reads the payload of a segment that is not TCP, nothing
  -- after RST, and else the buffer that the segment leaves in its flow, where a flow that is new or whose
  -- FIN was seen begins afresh.
  pub bytes-push : bytes (push ra seg).0 (push ra seg).1 ≡ (
      if not seg.is_tcp
      then seg.payload
      else if seg.flags.rst
      then []
      else if seg.flags.syn
      then (on_syn (current (flow_of ra seg.flow)) seg).buf
      else (on_data (current (flow_of ra seg.flow)) seg).buf)
  bytes-push = elim (Bool-cases seg.is_tcp) [
    | inl e ↦
        ap (λ (q : Reassembler × Stream). bytes q.0 q.1) (push-tcp e)
        ∙ push_tcp-bytes (flow_for ra seg.flow) seg (flow_for-Opened ra w seg.flow)
        ∙ sym (if_false _ _ (ap not e))
    | inr e ↦
        ap (λ (q : Reassembler × Stream). bytes q.0 q.1) (push-other e)
        ∙ bytes-passed
        ∙ sym (if_true _ _ (ap not e))
  ]

-- A Stream that belongs to a flow of the map.
abbrev pub IsLive : Reassembler → Stream → Type 0
IsLive ra st = (find st.key ra ≡ some st.fs) × (st.key ≢ no_flow)
