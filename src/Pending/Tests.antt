-- ===== src/Pending/Tests.antt =====
-- Runs of cmd/gt-pipeline/pending_decode.go: packets by their sizes, with a queue of ten bytes.
use gametrace.Prelude.{arith, ℕ, ◌≡◌, refl, true, false, List, [], ◌∷◌, some}
use gametrace.Pending.Queue.{new_pending_queue, pop_head, drop_oldest, push}
use gametrace.Pending.Newest.{newest, pushes, after, pushes-newest}
use gametrace.Pending.Feeding.{
  Feed, send_head, drain_loop, drain_pending, queue_up, offer, feed_decode, Happening, captured,
  decoder, happen, run, captures,
}
use gametrace.Pending.Order.{Delivers}
use gametrace.Pending.Runs.{new_feed, run-Delivers, run_exact, drain_pending_all}

abbrev size : ℕ → ℕ
size n = n

newest_two : newest size 10 (4 ∷ 5 ∷ 3 ∷ []) ≡ 5 ∷ 3 ∷ []
unfolding newest
newest_two = refl

-- One packet that is larger than the queue stays.
newest_large : newest size 10 (4 ∷ 12 ∷ []) ≡ 12 ∷ []
unfolding newest
newest_large = refl

pushes-newest_example :
    pushes size (4 ∷ 5 ∷ 3 ∷ []) (new_pending_queue 10)
    ≡ some (after size (4 ∷ 5 ∷ 3 ∷ []) (new_pending_queue 10))
pushes-newest_example = pushes-newest size 10 (4 ∷ 5 ∷ 3 ∷ [])

-- Two packets without a decoder, then a decoder, whose channel has one free place.
abbrev arrivals : List (Happening ℕ)
arrivals = captured 4 ∷ captured 5 ∷ decoder true ∷ captured 1 ∷ []

abbrev arrived : Feed ℕ
arrived = record {
  queue = record { items = 5 ∷ 1 ∷ []; bytes = 6; max_bytes = 10; dropped = 0 };
  sent = 4 ∷ [];
  room = 0;
  has_decoder = true;
}

arrivals-run : run size arrivals (new_feed size 10 1 false) ≡ some arrived
unfolding run happen feed_decode drain_pending drain_loop send_head offer queue_up push drop_oldest
    pop_head
arrivals-run = refl

run-Delivers_example :
    (f : Feed ℕ) × (run size arrivals (new_feed size 10 1 false) ≡ some f)
    × Delivers (captures arrivals) f
run-Delivers_example = run-Delivers size 10 1 false arrivals

run_exact_example : 4 ∷ 5 ∷ 1 ∷ [] ≡ captures arrivals
run_exact_example = run_exact size 10 1 false arrivals arrived arrivals-run refl

-- A decoder with room for the two that wait.
abbrev waiting : Feed ℕ
waiting = record arrived { room = 3 }

drain_pending_all_example :
    (g : Feed ℕ) × (drain_pending size waiting ≡ some g)
    × (g.queue.items ≡ [])
    × (g.sent ≡ 4 ∷ 5 ∷ 1 ∷ [])
drain_pending_all_example = drain_pending_all size waiting refl (omega arith)
