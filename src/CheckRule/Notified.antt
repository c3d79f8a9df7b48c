-- ===== src/CheckRule/Notified.antt =====
-- The alerts of cmd/gt-pipeline/check_hook.go over a session, in which the main loop puts jobs in the queue
-- and the worker takes them out.
use gametrace.Prelude.{
  ℕ, String, ◌≡◌, refl, List, [], ◌∷◌, ◌++◌, Option, none, some, ◌⊎◌, arith, ◌≤◌, ◌-◌, sym, ◌∙◌,
  inl, inr, append_assoc, append-nil, subst, All, All-append, All-weaken, ltb, fun_ext, drop_nil,
  if◌then◌else◌,
}
use gametrace.Prelude.Map.{lookup}
use gametrace.Rule.Json.{Gjson}
use gametrace.CheckRule.{CheckRule, context}
use gametrace.CheckRule.Engine.{Event, Engine, Job, widest, new_engine, inspect, take_job}
use gametrace.CheckRule.Window.{seen}
use gametrace.CheckRule.Context.{
  Holds, IsRunning, extended, inspect-IsRunning, inspect-Holds, inspect-frame, seen-cons,
}
use gametrace.CheckRule.Alerts.{Told, Told-more, context-positive, Reach, past_of, queue-inspect}

module _ (g : Gjson) where
  open g use {Float}

  seen-append :
      (dir : String) (xs ys : List (Event g × ℕ))
      → seen g dir (xs ++ ys) ≡ seen g dir xs ++ seen g dir ys
  seen-append dir [] ys = refl
  seen-append dir ((ev, now) ∷ xs) ys = ground (arith, seen-append dir xs ys)

  extended-past :
      (done : List (Event g × ℕ)) (ev : Event g) (now : ℕ) (dir : String)
      → extended g (past_of g done) ev dir ≡ past_of g (done ++ (ev, now) ∷ []) dir
  extended-past done ev now dir =
      sym (append-nil _)
      ∙ (seen-cons g (past_of g done) ev now [] dir ∙ sym (seen-append dir done ((ev, now) ∷ [])))

  -- The main loop inspects an event, or the worker takes a job from the queue.
  pub data Act : Type 0 where
    saw : Event g → ℕ → Act
    worker : Act

  abbrev pub events_in : List Act → List (Event g × ℕ)
  events_in [] = []
  events_in (saw ev now ∷ acts) = (ev, now) ∷ events_in acts
  events_in (worker ∷ acts) = events_in acts

  -- What the worker was given, and the engine.
  unfoldable pub taken_by :
      Option (Job g × Engine g) → List (Job g) → Engine g → List (Job g) × Engine g
  taken_by none sent e = (sent, e)
  taken_by (some x) sent e = (sent ++ x.0 ∷ [], x.1)

  unfoldable pub run_acts : List Act → List (Job g) → Engine g → List (Job g) × Engine g
  run_acts [] sent e = (sent, e)
  run_acts (saw ev now ∷ acts) sent e = run_acts acts sent (inspect g ev now e)
  run_acts (worker ∷ acts) sent e =
      let next = taken_by (take_job g e) sent e in run_acts acts next.0 next.1

  -- The jobs that there were, and what the engine must be for more.
  record Good (done : List (Event g × ℕ)) (sent : List (Job g)) (e : Engine g) : Type 0 where
    running : IsRunning g e
    held : Holds g e (past_of g done)
    reach : Reach g e.max_context e.rules
    waiting : All (Told g done) e.queue
    given : All (Told g done) sent

  Good-inspect :
      (done : List (Event g × ℕ)) (sent : List (Job g)) (ev : Event g) (now : ℕ) (e : Engine g)
      → Good done sent e
      → Good (done ++ (ev, now) ∷ []) sent (inspect g ev now e)
  Good-inspect done sent ev now e k =
      let (rules, limit, _) = inspect-frame g ev now e in
      record {
        running = inspect-IsRunning g ev now e k.running;
        held =
            subst (Holds g (inspect g ev now e)) (fun_ext (λ dir. extended-past done ev now dir))
              (inspect-Holds g ev now e (past_of g done) k.running k.held);
        reach =
            subst (λ m. Reach g m (inspect g ev now e).rules) (sym limit)
              (subst (Reach g e.max_context) (sym rules) k.reach);
        waiting = queue-inspect g done ev now e k.running k.held k.reach k.waiting;
        given =
            All-weaken (Told g done) (Told g (done ++ (ev, now) ∷ []))
              (λ j t. Told-more g done ((ev, now) ∷ []) j t) sent k.given;
      }

  take_job-cases :
      (e : Engine g)
      → (take_job g e ≡ none)
        ⊎ ((j : Job g) × (jobs : List (Job g)) × (e.queue ≡ j ∷ jobs)
            × (take_job g e ≡ some (j, record e { queue = jobs })))
  unfolding take_job
  take_job-cases e = by_queue e.queue refl
    where
      by_queue :
          (q : List (Job g))
          → e.queue ≡ q
          → (take_job g e ≡ none)
            ⊎ ((j : Job g) × (jobs : List (Job g)) × (e.queue ≡ j ∷ jobs)
                × (take_job g e ≡ some (j, record e { queue = jobs })))
      by_queue [] h = inl (rw (take_job, h) refl)
      by_queue (j ∷ jobs) h = inr (j, jobs, h, rw (take_job, h) refl)

  Good-worker :
      (done : List (Event g × ℕ)) (sent : List (Job g)) (e : Engine g)
      → Good done sent e
      → Good done (taken_by (take_job g e) sent e).0 (taken_by (take_job g e) sent e).1
  unfolding taken_by
  Good-worker done sent e k = elim (take_job-cases e) [
    | inl n ↦ rw n k
    | inr (j, jobs, q, t) ↦
        let jobs_told = subst (All (Told g done)) q k.waiting in
        rw t (record {
          running = record {
            ruled = k.running.ruled;
            going = k.running.going;
            wide = k.running.wide;
          };
          held = record { windows = k.held.windows; filled = k.held.filled };
          reach = k.reach;
          waiting = jobs_told.1;
          given = All-append (Told g done) sent (j ∷ []) k.given (jobs_told.0, tt);
        })
  ]

  Good-run :
      (acts : List Act) (done : List (Event g × ℕ)) (sent : List (Job g)) (e : Engine g)
      → Good done sent e
      → Good (done ++ events_in acts) (run_acts acts sent e).0 (run_acts acts sent e).1
  unfolding run_acts
  Good-run [] done sent e k = subst (λ d. Good d sent e) (sym (append-nil done)) k
  Good-run (saw ev now ∷ acts) done sent e k =
      subst
        (λ d.
          Good d (run_acts acts sent (inspect g ev now e)).0
            (run_acts acts sent (inspect g ev now e)).1)
        (append_assoc done ((ev, now) ∷ []) (events_in acts))
        (Good-run acts (done ++ (ev, now) ∷ []) sent (inspect g ev now e)
          (Good-inspect done sent ev now e k))
  Good-run (worker ∷ acts) done sent e k =
      let next = taken_by (take_job g e) sent e in
      Good-run acts done next.0 next.1 (Good-worker done sent e k)

  Reach-more :
      (rules : List (CheckRule Float)) (m n : ℕ) → m ≤ n → Reach g m rules → Reach g n rules
  Reach-more rules m n le w =
      All-weaken (λ r. context g r ≤ m) (λ r. context g r ≤ n) (λ r h. omega arith) rules w

  widest-Reach : (rules : List (CheckRule Float)) → Reach g (widest g rules) rules
  unfolding widest
  widest-Reach [] = tt
  widest-Reach (r ∷ rs) =
      let rest = widest g rs in
      let all = if ltb rest (context g r) then context g r else rest in
      let up : rest ≤ all = ground arith in
      (ground arith, Reach-more rs rest all up (widest-Reach rs))

  new_engine-Good :
      (r : CheckRule Float) (rs : List (CheckRule Float)) → Good [] [] (new_engine g (r ∷ rs))
  unfolding new_engine lookup
  new_engine-Good r rs =
      let fits = widest-Reach (r ∷ rs) in
      record {
        running = record {
          ruled = refl;
          going = refl;
          wide = λ z. omega (arith, context-positive g r, fits.0, z);
        };
        held = record { windows = λ dir. sym (drop_nil (0 - widest g (r ∷ rs))); filled = tt };
        reach = fits;
        waiting = tt;
        given = tt;
      }

  -- However the main loop and the worker take turns, every notification that the worker was given, and
  -- every one that waits, is of one of the events that were inspected, which the condition of its rule
  -- matches, and has as its context, for every direction, the last events of that direction before this
  -- one, as many as its rule asks for.
  pub run_acts-Told :
      (r : CheckRule Float) (rs : List (CheckRule Float)) (acts : List Act)
      → let out = run_acts acts [] (new_engine g (r ∷ rs)) in
        All (Told g (events_in acts)) out.0 × All (Told g (events_in acts)) out.1.queue
  run_acts-Told r rs acts =
      let k = Good-run acts [] [] (new_engine g (r ∷ rs)) (new_engine-Good r rs) in
      (k.given, k.waiting)
