-- ===== src/Pending/Runs.antt =====
-- A whole live capture: every packet, every round of the worker, and the decoder coming and going.
use gametrace.Prelude.{
  true, suc, zero, ◌-◌, ◌≤◌, ℕ, ◌+◌, ◌≡◌, refl, sym, ap, ap₂, subst, ◌∙◌, Bool, List, [], ◌∷◌, ◌++◌,
  Option, none, some, arith, length, length-append, append_assoc, append-nil,
}
use gametrace.Pending.Queue.{PendingQueue, new_pending_queue, len}
use gametrace.Pending.Feeding.{
  drain_loop, Feed, drain_pending, Happening, captured, drained, taken, decoder, happen, run,
  captures,
}
use mathlib.Core.List.{Sublistᴰ}
use mathlib.Core.List.Sublistᴰ.{slnil}
use gametrace.Prelude.Sublists.{Sublistᴰ-eq}
use gametrace.Pending.Order.{
  feed, drain_loop_stops, drain_loop_goes, Delivers, Goes, Goes-eq, Goes-drain_pending,
  Goes-feed_decode,
}

module _ {P : Type 0} (size : P → ℕ) where
  abbrev caught_by : Happening P → List P
  caught_by h = captures (h ∷ [])

  Goes-still :
      (caught : List P) (f g : Feed P)
      → Delivers caught f
      → g.queue ≡ f.queue
      → g.sent ≡ f.sent
      → Goes (caught ++ []) (some g)
  unfolding Goes
  Goes-still caught f g d q s =
      let e : caught ++ [] ≡ caught = append-nil caught in
      let held : g.sent ++ g.queue.items ≡ f.sent ++ f.queue.items =
        ap₂ (λ l (r : PendingQueue P). l ++ r.items) s q in
      (
        g,
        refl,
        record {
          in_order =
              subst (λ l. Sublistᴰ l (caught ++ [])) (sym held)
                (subst (Sublistᴰ (f.sent ++ f.queue.items)) (sym e) d.in_order);
          counted = omega (
            arith,
            d.counted,
            ap length e,
            ap length s,
            ap (λ (r : PendingQueue P). len r) q,
            ap (λ (r : PendingQueue P). r.dropped) q,
          );
        },
      )

  Goes-happen :
      (caught : List P) (h : Happening P) (f : Feed P)
      → Delivers caught f
      → Goes (caught ++ caught_by h) (happen size h f)
  unfolding happen Goes
  Goes-happen caught (captured p) f d = Goes-feed_decode size caught p f d
  Goes-happen caught drained f d =
      subst (λ (l : List P). Goes l (drain_pending size f)) (sym (append-nil caught))
        (Goes-drain_pending size caught f d)
  Goes-happen caught (taken n) f d =
      Goes-still caught f (record f { room = f.room + n }) d refl refl
  Goes-happen caught (decoder b) f d =
      Goes-still caught f (record f { has_decoder = b }) d refl refl

  captures-cons :
      (h : Happening P) (hs : List (Happening P)) → captures (h ∷ hs) ≡ caught_by h ++ captures hs
  captures-cons (captured p) hs = refl
  captures-cons drained hs = refl
  captures-cons (taken n) hs = refl
  captures-cons (decoder b) hs = refl

  Goes-run :
      (caught : List P) (hs : List (Happening P)) (f : Feed P)
      → Delivers caught f
      → Goes (caught ++ captures hs) (run size hs f)
  unfolding run Goes
  Goes-run caught [] f d = Goes-still caught f f d refl refl
  Goes-run caught (h ∷ hs) f d =
      let (g, e, k) = Goes-happen caught h f d in
      let all : (caught ++ caught_by h) ++ captures hs ≡ caught ++ captures (h ∷ hs) =
        append_assoc caught (caught_by h) (captures hs)
        ∙ ap (λ l. caught ++ l) (sym (captures-cons h hs)) in
      Goes-eq (caught ++ captures (h ∷ hs))
        (ap
          (λ (o : Option (Feed P)). elim o as (λ _. Option (Feed P)) [
            | none ↦ none
            | some s ↦ run size hs s
          ])
          e)
        (subst (λ (l : List P). Goes l (run size hs g)) all
          (Goes-run (caught ++ caught_by h) hs g k))

  -- A capture with an empty queue, before any packet.
  abbrev pub new_feed : ℕ → ℕ → Bool → Feed P
  new_feed max room ready = record {
    queue = new_pending_queue max;
    sent = [];
    room = room;
    has_decoder = ready;
  }

  -- Whatever happens, the capture never panics. What the decoder has been given, followed by what
  -- waits, is what was captured, in that order, without the packets that were dropped, and each of
  -- those is counted.
  pub run-Delivers :
      (max room : ℕ) (ready : Bool) (hs : List (Happening P))
      → (f : Feed P) × (run size hs (new_feed max room ready) ≡ some f) × Delivers (captures hs) f
  unfolding Goes
  run-Delivers max room ready hs =
      Goes-run [] hs (new_feed max room ready) (record { in_order = slnil; counted = omega arith })

  -- While no packet has been dropped, the decoder gets every packet, in the order of the capture.
  pub run_exact :
      (max room : ℕ) (ready : Bool) (hs : List (Happening P)) (f : Feed P)
      → run size hs (new_feed max room ready) ≡ some f
      → f.queue.dropped ≡ 0
      → f.sent ++ f.queue.items ≡ captures hs
  run_exact max room ready hs f e z =
      let (g, k, d) = run-Delivers max room ready hs in
      let same : g ≡ f = cc (k, e) in
      let h : Delivers (captures hs) f = subst (Delivers (captures hs)) same d in
      Sublistᴰ-eq h.in_order (omega (arith, h.counted, z, length-append f.sent f.queue.items))

  Sends-drain_loop :
      (fuel : ℕ) (xs sent : List P) (b m d room : ℕ)
      → length xs ≤ fuel
      → length xs ≤ room
      → (g : Feed P) × (drain_loop size fuel (feed xs b m d sent room true) ≡ some g)
        × (g.queue.items ≡ [])
        × (g.sent ≡ sent ++ xs)
  unfolding drain_loop
  Sends-drain_loop zero [] sent b m d room h k = (_, refl, refl, sym (append-nil sent))
  Sends-drain_loop zero (x ∷ xs) sent b m d room h k = absurd (omega arith)
  Sends-drain_loop (suc fuel) [] sent b m d room h k =
      (_, drain_loop_stops size fuel _ refl, refl, sym (append-nil sent))
  Sends-drain_loop (suc fuel) (x ∷ xs) sent b m d room h k =
      let (g, e, none_left, all) =
        Sends-drain_loop fuel xs (sent ++ x ∷ []) (b - size x) m d (room - 1) (omega arith)
          (omega arith) in
      (
        g,
        drain_loop_goes size fuel x xs sent b m d room (omega arith) ∙ e,
        none_left,
        all ∙ append_assoc sent (x ∷ []) xs,
      )

  -- With a decoder, and room in its channel for all that waits, one round of draining gives it
  -- everything that waits, in order, and leaves nothing behind.
  pub drain_pending_all :
      (f : Feed P)
      → f.has_decoder ≡ true
      → len f.queue ≤ f.room
      → (g : Feed P) × (drain_pending size f ≡ some g)
        × (g.queue.items ≡ [])
        × (g.sent ≡ f.sent ++ f.queue.items)
  unfolding drain_pending
  drain_pending_all f ready room =
      let q = f.queue in
      let all =
        Sends-drain_loop (len q) q.items f.sent q.bytes q.max_bytes q.dropped f.room (omega arith)
          room in
      subst
        (λ (b : Bool).
          (g : Feed P) × (drain_loop size (len q)
              (feed q.items q.bytes q.max_bytes q.dropped f.sent f.room b)
            ≡ some g)
          × (g.queue.items ≡ [])
          × (g.sent ≡ f.sent ++ q.items))
        (sym ready) all
