-- ===== src/Pending/Feeding.antt =====
-- drainPending and feedDecode of captureTask.run, cmd/gt-pipeline/capture_task.go, which put the
-- packets of a live capture into decodeCh, with the queue behind it. `sent` are the packets that
-- decodeCh has been given, `room` its free places; the worker makes room.
use gametrace.Prelude.{
  ℕ, zero, suc, ◌+◌, ◌-◌, Bool, true, false, not, ◌&&◌, ◌||◌, List, [], ◌∷◌, ◌++◌, Option, none,
  some, ltb, if◌then◌else◌,
}
use gametrace.Pending.Queue.{PendingQueue, len, pop_head, push}

pub record Feed (P : Type 0) : Type 0 where
  pub queue : PendingQueue P
  pub sent : List P
  pub room : ℕ
  pub has_decoder : Bool

module _ {P : Type 0} (size : P → ℕ) where
  -- decodeCh <- pq.head(), and pq.popHead().
  unfoldable pub send_head : Feed P → Option (Feed P)
  send_head f = elim f.queue.items [
    | [] ↦ none
    | x ∷ xs ↦ elim (pop_head size f.queue) [
      | none ↦ none
      | some q ↦ some (record f { queue = q; sent = f.sent ++ x ∷ []; room = f.room - 1 })
    ]
  ]

  -- The loop of drainPending, on fuel: it ends when the queue is empty, the channel full or there is no
  -- decoder.
  unfoldable pub drain_loop : ℕ → Feed P → Option (Feed P)
  drain_loop zero f = some f
  drain_loop (suc fuel) f = elim (ltb 0 (len f.queue) && (f.has_decoder && ltb 0 f.room)) [
    | false ↦ some f
    | true ↦ elim (send_head f) [ none ↦ none | some g ↦ drain_loop fuel g ]
  ]

  unfoldable pub drain_pending : Feed P → Option (Feed P)
  drain_pending f = drain_loop (len f.queue) f

  unfoldable pub queue_up : P → Feed P → Option (Feed P)
  queue_up p f = elim (push size p f.queue) [ none ↦ none | some q ↦ some (record f { queue = q }) ]

  -- feedDecode behind its drainPending.
  unfoldable pub offer : P → Feed P → Option (Feed P)
  offer p f =
      if not f.has_decoder || ltb 0 (len f.queue)
      then queue_up p f
      else if ltb 0 f.room
      then some (record f { sent = f.sent ++ p ∷ []; room = f.room - 1 })
      else queue_up p f

  unfoldable pub feed_decode : P → Feed P → Option (Feed P)
  feed_decode p f = elim (drain_pending f) [ none ↦ none | some g ↦ offer p g ]

-- What happens to the feed: a packet is captured, the main loop drains the queue, the worker takes
-- packets out of the channel, a decoder comes or goes.
pub data Happening (P : Type 0) : Type 0 where
  captured : P → Happening P
  drained : Happening P
  taken : ℕ → Happening P
  decoder : Bool → Happening P

module _ {P : Type 0} (size : P → ℕ) where
  unfoldable pub happen : Happening P → Feed P → Option (Feed P)
  happen (captured p) f = feed_decode size p f
  happen drained f = drain_pending size f
  happen (taken n) f = some (record f { room = f.room + n })
  happen (decoder b) f = some (record f { has_decoder = b })

  unfoldable pub run : List (Happening P) → Feed P → Option (Feed P)
  run [] f = some f
  run (h ∷ hs) f = elim (happen h f) [ none ↦ none | some g ↦ run hs g ]

-- The packets of a run.
abbrev pub captures : {P : Type 0} → List (Happening P) → List P
captures [] = []
captures (captured p ∷ hs) = p ∷ captures hs
captures (drained ∷ hs) = captures hs
captures (taken n ∷ hs) = captures hs
captures (decoder b ∷ hs) = captures hs
