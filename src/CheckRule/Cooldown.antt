-- ===== src/CheckRule/Cooldown.antt =====
-- The notifications of cmd/gt-pipeline/check_hook.go: the queue's bound, and the cooldown of a rule.
use gametrace.Prelude.{
  ◌⊎◌, ℕ, suc, String, Bool, true, not, ◌&&◌, ◌≡◌, ◌≢◌, List, [], ◌∷◌, ◌++◌, some, arith, length,
  ◌≤◌, ◌<◌, ◌+◌, if◌then◌else◌, test, select, All, ap, sym, ◌∙◌, length-append, subst, inl, inr,
}
use gametrace.Prelude.Map.{lookup, insert, lookup-insert}
use gametrace.Prelude.Text.{text_dec}
use gametrace.Rule.Json.{Gjson}
use gametrace.CheckRule.{pos, CheckRule, cooldown, context, match_event}
use gametrace.CheckRule.Engine.{
  queue_size, Event, Job, Engine, snapshot_context, push_window, offer, is_cooling, fire, judge,
  judge_all, inspect,
}
use gametrace.CheckRule.Window.{run, judge_all-frame}

module _ (g : Gjson) where
  open g use {Float}

  -- The rule notifies: its condition holds, and it is not cooling down.
  abbrev pub notifies : CheckRule Float → Event g → ℕ → Engine g → Bool
  notifies r ev now e = match_event g r.condition ev.view && not (is_cooling g r now e)

  offer-counts :
      (job : Job g) (e : Engine g)
      → length e.queue ≤ queue_size
      → (length (offer g job e).queue ≤ queue_size)
        × (length (offer g job e).queue + (offer g job e).dropped
            ≡ suc (length e.queue + e.dropped))
        × ((offer g job e).last_fired ≡ e.last_fired)
  unfolding offer
  offer-counts job e h = ground (arith, length-append e.queue (job ∷ []))

  fire-counts :
      (r : CheckRule Float) (ev : Event g) (now : ℕ) (e : Engine g)
      → length e.queue ≤ queue_size
      → (length (fire g r ev now e).queue ≤ queue_size)
        × (length (fire g r ev now e).queue + (fire g r ev now e).dropped
            ≡ suc (length e.queue + e.dropped))
        × ((fire g r ev now e).last_fired ≡ insert text_dec r.id now e.last_fired)
  unfolding fire
  fire-counts r ev now e h =
      offer-counts (record { rule = r; trigger = ev; window = snapshot_context g (context g r) e })
        (record e { last_fired = insert text_dec r.id now e.last_fired }) h

  -- A rule that notifies adds one job, or one to the count of dropped ones where the queue is full; the
  -- time is noted even then. Another rule changes nothing.
  pub judge-counts :
      (r : CheckRule Float) (ev : Event g) (now : ℕ) (e : Engine g)
      → length e.queue ≤ queue_size
      → (length (judge g r ev now e).queue ≤ queue_size)
        × (length (judge g r ev now e).queue + (judge g r ev now e).dropped
            ≡ length e.queue + e.dropped + (if notifies r ev now e then 1 else 0))
        × (lookup text_dec r.id (judge g r ev now e).last_fired
            ≡ (if notifies r ev now e then some now else lookup text_dec r.id e.last_fired))
  unfolding judge
  judge-counts r ev now e h = ground (
    arith,
    fire-counts r ev now e h,
    ap (lookup text_dec r.id) (fire-counts r ev now e h).2,
    lookup-insert text_dec r.id r.id now e.last_fired,
  )

  -- The jobs in a queue that are of rules with an id.
  abbrev pub jobs_of : String → List (Job g) → List (Job g)
  jobs_of id jobs = select (λ j. test (text_dec j.rule.id id)) jobs

  jobs_of-append :
      (id : String) (jobs : List (Job g)) (j : Job g)
      → j.rule.id ≢ id
      → jobs_of id (jobs ++ j ∷ []) ≡ jobs_of id jobs
  jobs_of-append id [] j n = ground arith
  jobs_of-append id (k ∷ jobs) j n = ground (arith, jobs_of-append id jobs j n)

  -- Every rule with this id has this cooldown.
  abbrev pub CoolsFor : String → ℕ → List (CheckRule Float) → Type 0
  CoolsFor id c rules = All (λ (r : CheckRule Float). r.id ≡ id → cooldown g r ≡ pos c) rules

  -- The rule fired at t, and nothing came of it since.
  pub record Quiet (id : String) (t : ℕ) (jobs : List (Job g)) (e : Engine g) : Type 0 where
    pub fired : lookup text_dec id e.last_fired ≡ some t
    pub same : jobs_of id e.queue ≡ jobs

  fire-other :
      (id : String) (t : ℕ) (jobs : List (Job g)) (r : CheckRule Float) (ev : Event g) (now : ℕ)
      (e : Engine g)
      → r.id ≢ id
      → Quiet id t jobs e
      → Quiet id t jobs (fire g r ev now e)
  unfolding fire offer
  fire-other id t jobs r ev now e n q = record {
    fired = ground (arith, q.fired, lookup-insert text_dec r.id id now e.last_fired);
    same = ground (
      arith,
      q.same,
      jobs_of-append id e.queue
          (record { rule = r; trigger = ev; window = snapshot_context g (context g r) e }) n,
    );
  }

  cools :
      (id : String) (t c : ℕ) (r : CheckRule Float) (now : ℕ) (e : Engine g)
      → r.id ≡ id
      → cooldown g r ≡ pos c
      → lookup text_dec id e.last_fired ≡ some t
      → now < t + c
      → is_cooling g r now e ≡ true
  unfolding is_cooling
  cools id t c r now e p k f h =
      let own : lookup text_dec r.id e.last_fired ≡ some t =
        ap (λ s. lookup text_dec s e.last_fired) p ∙ f in
      ground (arith, own, k)

  judge-cooling :
      (r : CheckRule Float) (ev : Event g) (now : ℕ) (e : Engine g)
      → is_cooling g r now e ≡ true
      → judge g r ev now e ≡ e
  unfolding judge
  judge-cooling r ev now e h = ground (arith, h)

  judge-cases :
      (r : CheckRule Float) (ev : Event g) (now : ℕ) (e : Engine g)
      → (judge g r ev now e ≡ e) ⊎ (judge g r ev now e ≡ fire g r ev now e)
  unfolding judge
  judge-cases r ev now e = ground arith

  judge-Quiet :
      (id : String) (t c : ℕ) (jobs : List (Job g)) (r : CheckRule Float) (ev : Event g) (now : ℕ)
      (e : Engine g)
      → (r.id ≡ id → cooldown g r ≡ pos c)
      → now < t + c
      → Quiet id t jobs e
      → Quiet id t jobs (judge g r ev now e)
  judge-Quiet id t c jobs r ev now e k h q = elim (text_dec r.id id) [
    | yes p ↦
        subst (Quiet id t jobs)
          (sym (judge-cooling r ev now e (cools id t c r now e p (k p) q.fired h))) q
    | no n ↦ elim (judge-cases r ev now e) [
      | inl s ↦ subst (Quiet id t jobs) (sym s) q
      | inr s ↦ subst (Quiet id t jobs) (sym s) (fire-other id t jobs r ev now e n q)
    ]
  ]

  judge_all-Quiet :
      (id : String) (t c : ℕ) (jobs : List (Job g)) (rs : List (CheckRule Float)) (ev : Event g)
      (now : ℕ) (e : Engine g)
      → CoolsFor id c rs
      → now < t + c
      → Quiet id t jobs e
      → Quiet id t jobs (judge_all g rs ev now e)
  unfolding judge_all
  judge_all-Quiet id t c jobs [] ev now e k h q = q
  judge_all-Quiet id t c jobs (r ∷ rs) ev now e k h q =
      judge_all-Quiet id t c jobs rs ev now (judge g r ev now e) k.1 h
        (judge-Quiet id t c jobs r ev now e k.0 h q)

  inspect-Quiet :
      (id : String) (t c : ℕ) (jobs : List (Job g)) (ev : Event g) (now : ℕ) (e : Engine g)
      → CoolsFor id c e.rules
      → now < t + c
      → Quiet id t jobs e
      → Quiet id t jobs (inspect g ev now e) × ((inspect g ev now e).rules ≡ e.rules)
  unfolding inspect push_window
  inspect-Quiet id t c jobs ev now e k h q =
      let next = judge_all-Quiet id t c jobs e.rules ev now e k h q in
      (
        record {
          fired = ground (arith, q.fired, next.fired);
          same = ground (arith, q.same, next.same);
        },
        ground (arith, judge_all-frame g e.rules ev now e),
      )

  -- After a rule fired at t, the events that come before t + c, where c is its cooldown, put no further
  -- job of it in the queue, however many they are and whatever the other rules do.
  pub run-Quiet :
      (id : String) (t c : ℕ) (jobs : List (Job g)) (evs : List (Event g × ℕ)) (e : Engine g)
      → CoolsFor id c e.rules
      → All (λ (p : Event g × ℕ). p.1 < t + c) evs
      → Quiet id t jobs e
      → Quiet id t jobs (run g evs e)
  run-Quiet id t c jobs [] e k h q = q
  run-Quiet id t c jobs ((ev, now) ∷ evs) e k h q =
      let (next, rules) = inspect-Quiet id t c jobs ev now e k h.0 q in
      run-Quiet id t c jobs evs (inspect g ev now e) (subst (CoolsFor id c) (sym rules) k) h.1 next
