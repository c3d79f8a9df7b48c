-- ===== src/CheckRule/Alerts.antt =====
-- The context of every alert of cmd/gt-pipeline/check_hook.go.
use gametrace.Prelude.{
  ℕ, String, true, false, ◌≡◌, refl, List, [], ◌∷◌, ◌++◌, arith, ◌==◌, ◌≤◌, ap, sym, ◌∙◌,
  Bool-cases, inl, inr, if_false, append_assoc, subst, All, All-append, All-weaken, ltb, length,
}
use gametrace.Prelude.Map.{insert}
use gametrace.Prelude.Text.{text_dec}
use gametrace.Rule.Json.{Gjson}
use gametrace.CheckRule.{CheckRule, context, match_event}
use gametrace.CheckRule.Engine.{
  normalize_dir, last_n, Event, Engine, Job, snapshot_context, events_of, queue_size, push_window,
  judge_all, judge, fire, offer, is_cooling, has_view, inspect,
}
use gametrace.CheckRule.Window.{seen, NonEmpty, last_n-last_n, judge-frame, events_of-snapshot}
use gametrace.CheckRule.Context.{Holds, IsRunning, inspect-open, inspect-shut}

module _ (g : Gjson) where
  open g use {Float}

  -- A notification of one of the events: its rule's condition matches the event, and it tells the last
  -- events of each direction before this one, as many as its rule asks for.
  pub record Told (evs : List (Event g × ℕ)) (j : Job g) : Type 0 where
    pub before : List (Event g × ℕ)
    pub now : ℕ
    pub after : List (Event g × ℕ)
    pub split : evs ≡ before ++ (j.trigger, now) ∷ after
    pub matched : match_event g j.rule.condition j.trigger.view ≡ true
    pub told :
        (dir : String) → events_of g j.window dir ≡ last_n (context g j.rule) (seen g dir before)

  pub Told-more : (xs ys : List (Event g × ℕ)) (j : Job g) → Told xs j → Told (xs ++ ys) j
  Told-more xs ys j t = record {
    before = t.before;
    now = t.now;
    after = t.after ++ ys;
    split = ap (◌++ ys) t.split ∙ append_assoc t.before ((j.trigger, t.now) ∷ t.after) ys;
    matched = t.matched;
    told = t.told;
  }

  pub context-positive : (r : CheckRule Float) → 1 ≤ context g r
  unfolding context
  context-positive r = ground arith

  -- Every rule's context is within the windows.
  abbrev pub Reach : ℕ → List (CheckRule Float) → Type 0
  Reach m rules = All (λ r. context g r ≤ m) rules

  snapshot-told :
      (r : CheckRule Float) (e : Engine g) (past : String → List (Event g)) (dir : String)
      → Holds g e past
      → context g r ≤ e.max_context
      → events_of g (snapshot_context g (context g r) e) dir ≡ last_n (context g r) (past dir)
  unfolding snapshot_context
  snapshot-told r e past dir h le =
      let positive : (context g r == 0) ≡ false = ground (arith, context-positive r) in
      ap (λ w. events_of g w dir) (if_false _ _ positive)
      ∙ (events_of-snapshot g (context g r) e.window dir h.filled
          ∙ (ap (last_n (context g r)) (h.windows dir)
              ∙ last_n-last_n (context g r) e.max_context (past dir) le))

  abbrev pub past_of : List (Event g × ℕ) → String → List (Event g)
  past_of done dir = seen g dir done

  queue-offer :
      (P : Job g → Type 0) (j : Job g) (e : Engine g)
      → P j
      → All P e.queue
      → All P (offer g j e).queue
  unfolding offer
  queue-offer P j e p a = elim (Bool-cases (ltb (length e.queue) queue_size)) [
    | inl y ↦ rw y (All-append P e.queue (j ∷ []) a (p, tt))
    | inr n ↦ rw n a
  ]

  queue-fire :
      (P : Job g → Type 0) (r : CheckRule Float) (ev : Event g) (now : ℕ) (e : Engine g)
      → P (record { rule = r; trigger = ev; window = snapshot_context g (context g r) e })
      → All P e.queue
      → All P (fire g r ev now e).queue
  unfolding fire
  queue-fire P r ev now e p a =
      queue-offer P _ (record e { last_fired = insert text_dec r.id now e.last_fired }) p a

  queue-judge :
      (P : Job g → Type 0) (r : CheckRule Float) (ev : Event g) (now : ℕ) (e : Engine g)
      → (match_event g r.condition ev.view ≡ true
          → P (record { rule = r; trigger = ev; window = snapshot_context g (context g r) e }))
      → All P e.queue
      → All P (judge g r ev now e).queue
  unfolding judge
  queue-judge P r ev now e p a = elim (Bool-cases (match_event g r.condition ev.view)) [
    | inr n ↦ rw n a
    | inl y ↦ elim (Bool-cases (is_cooling g r now e)) [
      | inl c ↦ rw (y, c) a
      | inr w ↦ rw (y, w) (queue-fire P r ev now e (p y) a)
    ]
  ]

  Holds-window :
      (e f : Engine g) (past : String → List (Event g))
      → f.window ≡ e.window
      → f.max_context ≡ e.max_context
      → Holds g e past
      → Holds g f past
  Holds-window e f past w m h = record {
    windows = λ dir.
        ap (λ q. events_of g q dir) w ∙ (h.windows dir ∙ ap (λ k. last_n k (past dir)) (sym m));
    filled = subst (NonEmpty g) (sym w) h.filled;
  }

  queue-judge_all :
      (done : List (Event g × ℕ)) (rs : List (CheckRule Float)) (ev : Event g) (now : ℕ)
      (e : Engine g)
      → Holds g e (past_of done)
      → Reach e.max_context rs
      → All (Told (done ++ (ev, now) ∷ [])) e.queue
      → All (Told (done ++ (ev, now) ∷ [])) (judge_all g rs ev now e).queue
  unfolding judge_all
  queue-judge_all done [] ev now e h w a = a
  queue-judge_all done (r ∷ rs) ev now e h w a =
      let (same, _, limit, _) = judge-frame g r ev now e in
      queue-judge_all done rs ev now (judge g r ev now e)
        (Holds-window e (judge g r ev now e) (past_of done) same limit h)
        (subst (λ m. Reach m rs) (sym limit) w.1)
        (queue-judge (Told (done ++ (ev, now) ∷ [])) r ev now e
          (λ m. record {
            before = done;
            now = now;
            after = [];
            split = refl;
            matched = m;
            told = λ dir. snapshot-told r e (past_of done) dir h w.0;
          })
          a)

  queue-push : (d : String) (ev : Event g) (e : Engine g) → (push_window g d ev e).queue ≡ e.queue
  unfolding push_window
  queue-push d ev e = ground arith

  pub queue-inspect :
      (done : List (Event g × ℕ)) (ev : Event g) (now : ℕ) (e : Engine g)
      → IsRunning g e
      → Holds g e (past_of done)
      → Reach e.max_context e.rules
      → All (Told done) e.queue
      → All (Told (done ++ (ev, now) ∷ [])) (inspect g ev now e).queue
  queue-inspect done ev now e r h w a =
      let all = done ++ (ev, now) ∷ [] in
      let more =
        All-weaken (Told done) (Told all) (λ j t. Told-more done ((ev, now) ∷ []) j t) e.queue a in
      elim (Bool-cases (has_view g ev)) [
        | inl y ↦
            subst (λ (q : Engine g). All (Told all) q.queue)
              (sym (inspect-open g ev now e r.ruled r.going y))
              (subst (All (Told all))
                (sym (queue-push (normalize_dir ev.direction) ev (judge_all g e.rules ev now e)))
                (queue-judge_all done e.rules ev now e h w more))
        | inr n ↦
            subst (λ (q : Engine g). All (Told all) q.queue) (sym (inspect-shut g ev now e n)) more
      ]
