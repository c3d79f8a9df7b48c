-- ===== src/CheckRule/Context.antt =====
-- The context of an alert of cmd/gt-pipeline/check_hook.go is the last events of each direction.
use gametrace.Prelude.{
  ℕ, String, true, false, ◌&&◌, ◌≡◌, ◌≢◌, List, [], ◌∷◌, ◌++◌, arith, if◌then◌else◌, test, is_nil,
  ap, sym, ◌∙◌, Bool-cases, inl, inr, append_assoc, append-nil, subst,
}
use gametrace.Prelude.Text.{text_dec}
use gametrace.Rule.Json.{Gjson}
use gametrace.CheckRule.Engine.{
  normalize_dir, last_n, Event, Engine, events_of, push_window, judge_all, has_view, inspect,
}
use gametrace.CheckRule.Window.{
  seen, NonEmpty, judge_all-frame, push-windows, push-others, push-NonEmpty,
}

module _ (g : Gjson) where
  open g use {Float}

  pub inspect-shut :
      (ev : Event g) (now : ℕ) (e : Engine g) → has_view g ev ≡ false → inspect g ev now e ≡ e
  unfolding inspect
  inspect-shut ev now e h = ground arith

  pub inspect-open :
      (ev : Event g) (now : ℕ) (e : Engine g)
      → is_nil e.rules ≡ false
      → e.stopped ≡ false
      → has_view g ev ≡ true
      → inspect g ev now e
        ≡ push_window g (normalize_dir ev.direction) ev (judge_all g e.rules ev now e)
  unfolding inspect
  inspect-open ev now e r s h = ground arith

  push-frame :
      (d : String) (ev : Event g) (e : Engine g)
      → ((push_window g d ev e).rules ≡ e.rules)
        × ((push_window g d ev e).max_context ≡ e.max_context)
        × ((push_window g d ev e).stopped ≡ e.stopped)
  unfolding push_window
  push-frame d ev e = ground arith

  -- The windows hold the events that went before, as far as the limit reaches back.
  pub record Holds (e : Engine g) (past : String → List (Event g)) : Type 0 where
    pub windows : (dir : String) → events_of g e.window dir ≡ last_n e.max_context (past dir)
    pub filled : NonEmpty g e.window

  abbrev pub extended : (String → List (Event g)) → Event g → String → List (Event g)
  extended past ev dir =
      past dir
      ++ (if has_view g ev && test (text_dec (normalize_dir ev.direction) dir) then ev ∷ [] else [])

  -- An engine that takes events.
  pub record IsRunning (e : Engine g) : Type 0 where
    pub ruled : is_nil e.rules ≡ false
    pub going : e.stopped ≡ false
    pub wide : e.max_context ≢ 0

  pub inspect-frame :
      (ev : Event g) (now : ℕ) (e : Engine g)
      → ((inspect g ev now e).rules ≡ e.rules)
        × ((inspect g ev now e).max_context ≡ e.max_context)
        × ((inspect g ev now e).stopped ≡ e.stopped)
  unfolding inspect
  inspect-frame ev now e = ground (
    arith,
    judge_all-frame g e.rules ev now e,
    push-frame (normalize_dir ev.direction) ev (judge_all g e.rules ev now e),
  )

  pub inspect-IsRunning :
      (ev : Event g) (now : ℕ) (e : Engine g) → IsRunning e → IsRunning (inspect g ev now e)
  inspect-IsRunning ev now e r =
      let f = inspect-frame ev now e in
      record {
        ruled = ap is_nil f.0 ∙ r.ruled;
        going = f.2 ∙ r.going;
        wide = λ z. r.wide (sym f.1 ∙ z);
      }

  abbrev judged : Event g → ℕ → Engine g → Engine g
  judged ev now e = judge_all g e.rules ev now e

  pub judged-Holds :
      (ev : Event g) (now : ℕ) (e : Engine g) (past : String → List (Event g))
      → Holds e past
      → Holds (judged ev now e) past
  judged-Holds ev now e past h =
      let (w, r, m, s) = judge_all-frame g e.rules ev now e in
      record {
        windows = λ dir.
            ap (λ q. events_of g q dir) w ∙ (h.windows dir ∙ ap (λ k. last_n k (past dir)) (sym m));
        filled = subst (NonEmpty g) (sym w) h.filled;
      }

  push-Holds :
      (ev : Event g) (e : Engine g) (past : String → List (Event g))
      → e.max_context ≢ 0
      → has_view g ev ≡ true
      → Holds e past
      → Holds (push_window g (normalize_dir ev.direction) ev e) (extended past ev)
  push-Holds ev e past m y h = record {
    windows = λ dir.
        by_key dir (text_dec d dir)
        ∙ (ap (λ b. last_n e.max_context (past dir ++ (if b then ev ∷ [] else [])))
              (sym (ap (λ b. b && test (text_dec d dir)) y))
            ∙ ap (λ k. last_n k (extended past ev dir)) (sym (push-frame d ev e).1));
    filled = push-NonEmpty g d ev e h.filled;
  }
    where
      d : String
      d = normalize_dir ev.direction

      by_key :
          (dir : String) (q : Dec (d ≡ dir))
          → events_of g (push_window g d ev e).window dir
            ≡ last_n e.max_context (past dir ++ (if test q then ev ∷ [] else []))
      by_key dir (yes p) =
          push-windows g d ev e (past dir) dir (ap (events_of g e.window) p ∙ h.windows dir) p m
      by_key dir (no n) =
          push-others g d ev e dir n
          ∙ (h.windows dir ∙ ap (last_n e.max_context) (sym (append-nil (past dir))))

  pub inspect-Holds :
      (ev : Event g) (now : ℕ) (e : Engine g) (past : String → List (Event g))
      → IsRunning e
      → Holds e past
      → Holds (inspect g ev now e) (extended past ev)
  inspect-Holds ev now e past r h = elim (Bool-cases (has_view g ev)) [
    | inl y ↦
        subst (λ q. Holds q (extended past ev)) (sym (inspect-open ev now e r.ruled r.going y))
          (push-Holds ev (judged ev now e) past
            (λ z. r.wide (sym (judge_all-frame g e.rules ev now e).2 ∙ z)) y
            (judged-Holds ev now e past h))
    | inr n ↦
        subst (λ q. Holds q (extended past ev)) (sym (inspect-shut ev now e n))
          (record {
            windows = λ dir. h.windows dir ∙ ap (last_n e.max_context) (unchanged dir n);
            filled = h.filled;
          })
  ]
    where
      unchanged : (dir : String) → has_view g ev ≡ false → past dir ≡ extended past ev dir
      unchanged dir n = sym (append-nil (past dir)) ∙ ap (past dir ++◌) (ground (arith, n))

  pub seen-cons :
      (past : String → List (Event g)) (ev : Event g) (now : ℕ) (evs : List (Event g × ℕ))
      (dir : String)
      → extended past ev dir ++ seen g dir evs ≡ past dir ++ seen g dir ((ev, now) ∷ evs)
  seen-cons past ev now evs dir =
      append_assoc (past dir) _ (seen g dir evs) ∙ ap (past dir ++◌) (ground arith)
