-- ===== src/Pending/Order.antt =====
-- The order in which a decoder gets the packets of a live capture.
use gametrace.Prelude.{
  ℕ, zero, suc, ◌+◌, ◌-◌, ◌<◌, ◌≡◌, refl, sym, ap, subst, ◌∙◌, Bool, true, false, not, ◌&&◌, List,
  [], ◌∷◌, ◌++◌, Option, none, some, arith, length, length-append, length-drop, ltb, append_assoc,
  append-nil,
}
use gametrace.Pending.Queue.{PendingQueue, len, pop_head, push}
use gametrace.Pending.Feeding.{
  Feed, send_head, drain_loop, drain_pending, queue_up, offer, feed_decode,
}
use mathlib.Core.List.{Sublistᴰ}
use gametrace.Prelude.Sublists.{Sublistᴰ-snoc, Sublistᴰ-drop}
use gametrace.Pending.Trims.{drop_oldest-Trims}

module _ {P : Type 0} where
  -- `sent` and the queue hold what was captured, in order, without the packets that were dropped.
  pub record Delivers (caught : List P) (f : Feed P) : Type 0 where
    pub in_order : Sublistᴰ (f.sent ++ f.queue.items) caught
    pub counted : length caught ≡ length f.sent + len f.queue + f.queue.dropped

  unfoldable pub Goes : List P → Option (Feed P) → Type 0
  Goes caught r = (f : Feed P) × (r ≡ some f) × Delivers caught f

  abbrev pub feed : List P → ℕ → ℕ → ℕ → List P → ℕ → Bool → Feed P
  feed xs b m d sent room ready = record {
    queue = record { items = xs; bytes = b; max_bytes = m; dropped = d };
    sent = sent;
    room = room;
    has_decoder = ready;
  }

  Delivers-sent :
      (caught sent : List P) (x : P) (xs : List P) (b c m d room r : ℕ) (ready : Bool)
      → Delivers caught (feed (x ∷ xs) b m d sent room ready)
      → Delivers caught (feed xs c m d (sent ++ x ∷ []) r ready)
  Delivers-sent caught sent x xs b c m d room r ready h = record {
    in_order = subst (λ ys. Sublistᴰ ys caught) (sym (append_assoc sent (x ∷ []) xs)) h.in_order;
    counted = omega (arith, h.counted, length-append sent (x ∷ []));
  }

  pub Goes-eq : (caught : List P) {r s : Option (Feed P)} → s ≡ r → Goes caught r → Goes caught s
  unfolding Goes
  Goes-eq caught e (f, k, h) = (f, e ∙ k, h)

  Delivers-offered :
      (caught sent : List P) (p : P) (b m d room r : ℕ)
      → Delivers caught (feed [] b m d sent room true)
      → Delivers (caught ++ p ∷ []) (feed [] b m d (sent ++ p ∷ []) r true)
  Delivers-offered caught sent p b m d room r h = record {
    in_order =
        subst (λ ys. Sublistᴰ ys (caught ++ p ∷ [])) (sym (append-nil (sent ++ p ∷ [])))
          (Sublistᴰ-snoc p (subst (λ ys. Sublistᴰ ys caught) (append-nil sent) h.in_order));
    counted = omega (arith, h.counted, length-append caught (p ∷ []), length-append sent (p ∷ []));
  }

module _ {P : Type 0} (size : P → ℕ) where
  pub drain_loop_stops :
      (fuel : ℕ) (f : Feed P)
      → (ltb 0 (len f.queue) && (f.has_decoder && ltb 0 f.room)) ≡ false
      → drain_loop size (suc fuel) f ≡ some f
  unfolding drain_loop
  drain_loop_stops fuel f h = ground arith

  pub drain_loop_goes :
      (fuel : ℕ) (x : P) (xs sent : List P) (b m d room : ℕ)
      → 0 < room
      → drain_loop size (suc fuel) (feed (x ∷ xs) b m d sent room true)
        ≡ drain_loop size fuel (feed xs (b - size x) m d (sent ++ x ∷ []) (room - 1) true)
  unfolding drain_loop send_head pop_head
  drain_loop_goes fuel x xs sent b m d room h = ground arith

  Goes-drain_loop :
      (fuel : ℕ) (caught xs sent : List P) (b m d room : ℕ) (ready : Bool)
      → Delivers caught (feed xs b m d sent room ready)
      → Goes caught (drain_loop size fuel (feed xs b m d sent room ready))
  unfolding drain_loop Goes
  Goes-drain_loop zero caught xs sent b m d room ready h = (_, refl, h)
  Goes-drain_loop (suc fuel) caught [] sent b m d room ready h =
      (_, drain_loop_stops fuel _ refl, h)
  Goes-drain_loop (suc fuel) caught (x ∷ xs) sent b m d room false h =
      (_, drain_loop_stops fuel (feed (x ∷ xs) b m d sent room false) (ground arith), h)
  Goes-drain_loop (suc fuel) caught (x ∷ xs) sent b m d zero true h =
      (_, drain_loop_stops fuel (feed (x ∷ xs) b m d sent 0 true) (ground arith), h)
  Goes-drain_loop (suc fuel) caught (x ∷ xs) sent b m d (suc room) true h =
      let left = suc room - 1 in
      let (f, e, k) =
        Goes-drain_loop fuel caught xs (sent ++ x ∷ []) (b - size x) m d left true
          (Delivers-sent caught sent x xs b (b - size x) m d (suc room) left true h) in
      (f, drain_loop_goes fuel x xs sent b m d (suc room) (omega arith) ∙ e, k)

  Goes-queue_up :
      (caught : List P) (p : P) (f : Feed P)
      → Delivers caught f
      → Goes (caught ++ p ∷ []) (queue_up size p f)
  unfolding queue_up push Goes
  Goes-queue_up caught p f h =
      let q = f.queue in
      let xs = q.items ++ p ∷ [] in
      let all = caught ++ p ∷ [] in
      let (r, e, t) =
        drop_oldest-Trims size (suc (len q)) xs (q.bytes + size p) q.max_bytes q.dropped in
      let whole : Sublistᴰ (f.sent ++ xs) all =
        subst (λ ys. Sublistᴰ ys all) (append_assoc f.sent q.items (p ∷ []))
          (Sublistᴰ-snoc p h.in_order) in
      (
        record f { queue = r },
        ap
            (λ (o : Option (PendingQueue P)). elim o as (λ _. Option (Feed P)) [
              | none ↦ none
              | some s ↦ some (record f { queue = s })
            ])
            e,
        record {
          in_order =
              subst (λ ys. Sublistᴰ (f.sent ++ ys) all) (sym t.items)
                (Sublistᴰ-drop f.sent t.count xs whole);
          counted = omega (
            arith,
            h.counted,
            t.few,
            t.dropped,
            ap length t.items,
            length-drop t.count xs,
            length-append q.items (p ∷ []),
            length-append caught (p ∷ []),
          );
        },
      )

  offer_queues :
      (p : P) (f : Feed P)
      → (f.has_decoder && (not (ltb 0 (len f.queue)) && ltb 0 f.room)) ≡ false
      → offer size p f ≡ queue_up size p f
  unfolding offer
  offer_queues p f h = ground arith

  offer_sends :
      (p : P) (b m d room : ℕ) (sent : List P)
      → 0 < room
      → offer size p (feed [] b m d sent room true)
        ≡ some (feed [] b m d (sent ++ p ∷ []) (room - 1) true)
  unfolding offer
  offer_sends p b m d room sent h = ground arith

  Goes-offer :
      (caught : List P) (p : P) (xs sent : List P) (b m d room : ℕ) (ready : Bool)
      → Delivers caught (feed xs b m d sent room ready)
      → Goes (caught ++ p ∷ []) (offer size p (feed xs b m d sent room ready))
  unfolding Goes
  Goes-offer caught p xs sent b m d room false h =
      let f = feed xs b m d sent room false in
      Goes-eq (caught ++ p ∷ []) (offer_queues p f refl) (Goes-queue_up caught p f h)
  Goes-offer caught p xs sent b m d zero true h =
      let f = feed xs b m d sent zero true in
      Goes-eq (caught ++ p ∷ []) (offer_queues p f (ground arith)) (Goes-queue_up caught p f h)
  Goes-offer caught p (x ∷ xs) sent b m d (suc room) true h =
      let f = feed (x ∷ xs) b m d sent (suc room) true in
      Goes-eq (caught ++ p ∷ []) (offer_queues p f (ground arith)) (Goes-queue_up caught p f h)
  Goes-offer caught p [] sent b m d (suc room) true h = (
    _,
    offer_sends p b m d (suc room) sent (omega arith),
    Delivers-offered caught sent p b m d (suc room) (suc room - 1) h,
  )

  pub Goes-drain_pending :
      (caught : List P) (f : Feed P) → Delivers caught f → Goes caught (drain_pending size f)
  unfolding drain_pending
  Goes-drain_pending caught f h =
      let q = f.queue in
      Goes-drain_loop (len q) caught q.items f.sent q.bytes q.max_bytes q.dropped f.room
        f.has_decoder h

  pub Goes-feed_decode :
      (caught : List P) (p : P) (f : Feed P)
      → Delivers caught f
      → Goes (caught ++ p ∷ []) (feed_decode size p f)
  unfolding feed_decode Goes
  Goes-feed_decode caught p f h =
      let (g, e, k) = Goes-drain_pending caught f h in
      let q = g.queue in
      Goes-eq (caught ++ p ∷ [])
        (ap
          (λ (o : Option (Feed P)). elim o as (λ _. Option (Feed P)) [
            | none ↦ none
            | some s ↦ offer size p s
          ])
          e)
        (Goes-offer caught p q.items g.sent q.bytes q.max_bytes q.dropped g.room g.has_decoder k)
