-- ===== src/CheckRule/Window.antt =====
-- The sliding windows of cmd/gt-pipeline/check_hook.go: what an alert has as its context.
use gametrace.Prelude.{
  drop_eq, drop_nil, drop-drop, ℕ, String, false, ◌&&◌, ◌≡◌, ◌≢◌, refl, List, [], ◌∷◌, ◌++◌, arith,
  length, drop, ◌≤◌, ◌-◌, if◌then◌else◌, test, is_nil, All, ap, sym, ◌∙◌, inl, inr, length-append,
  length-drop, drop-append_le, le_cases,
}
use gametrace.Prelude.Map.{Map, lookup, insert, delete, lookup-insert}
use gametrace.Prelude.Text.{text_dec}
use gametrace.Rule.Json.{Gjson}
use gametrace.CheckRule.{CheckRule}
use gametrace.CheckRule.Engine.{
  normalize_dir, last_n, Event, Engine, snapshot, events_of, push_window, offer, fire, judge,
  judge_all, has_view, inspect,
}

module _ {ℓ} {A : Type ℓ} where
  pub last_n_short : (m : ℕ) (xs : List A) → length xs ≤ m → last_n m xs ≡ xs
  last_n_short m xs h = drop_eq (length xs - m) 0 xs (omega arith)

  -- Cutting a list down before more elements come does not change what is left.
  pub last_n-append : (m : ℕ) (xs ys : List A) → last_n m (last_n m xs ++ ys) ≡ last_n m (xs ++ ys)
  last_n-append m xs ys = elim (le_cases (length xs) m) [
    | inl h ↦ ap (λ zs. last_n m (zs ++ ys)) (last_n_short m xs h)
    | inr h ↦
        drop_eq _ (length ys) (last_n m xs ++ ys)
          (omega (arith, length-append (last_n m xs) ys, length-drop (length xs - m) xs))
        ∙ (ap (drop (length ys)) (sym (drop-append_le (length xs - m) xs ys (omega arith)))
            ∙ (drop-drop (length xs - m) (length ys) (xs ++ ys)
                ∙ drop_eq _ (length (xs ++ ys) - m) (xs ++ ys)
                    (omega (arith, length-append xs ys))))
  ]

  pub last_n-last_n : (n m : ℕ) (xs : List A) → n ≤ m → last_n n (last_n m xs) ≡ last_n n xs
  last_n-last_n n m xs h =
      drop-drop (length xs - m) (length (last_n m xs) - n) xs
      ∙ drop_eq _ (length xs - n) xs (omega (arith, length-drop (length xs - m) xs))

module _ (g : Gjson) where
  open g use {Float}

  -- The events that the main loop handed over, with their times.
  abbrev pub run : List (Event g × ℕ) → Engine g → Engine g
  run [] e = e
  run ((ev, now) ∷ evs) e = run evs (inspect g ev now e)

  -- Of those, the ones with a view that go in a direction's window.
  abbrev pub seen : String → List (Event g × ℕ) → List (Event g)
  seen dir [] = []
  seen dir ((ev, now) ∷ evs) =
      let rest = seen dir evs in
      if has_view g ev && test (text_dec (normalize_dir ev.direction) dir) then ev ∷ rest else rest

  pub judge-frame :
      (r : CheckRule Float) (ev : Event g) (now : ℕ) (e : Engine g)
      → ((judge g r ev now e).window ≡ e.window)
        × ((judge g r ev now e).rules ≡ e.rules)
        × ((judge g r ev now e).max_context ≡ e.max_context)
        × ((judge g r ev now e).stopped ≡ e.stopped)
  unfolding judge fire offer
  judge-frame r ev now e = ground arith

  pub judge_all-frame :
      (rs : List (CheckRule Float)) (ev : Event g) (now : ℕ) (e : Engine g)
      → ((judge_all g rs ev now e).window ≡ e.window)
        × ((judge_all g rs ev now e).rules ≡ e.rules)
        × ((judge_all g rs ev now e).max_context ≡ e.max_context)
        × ((judge_all g rs ev now e).stopped ≡ e.stopped)
  unfolding judge_all
  judge_all-frame [] ev now e = (refl, refl, refl, refl)
  judge_all-frame (r ∷ rs) ev now e =
      ground (arith, judge-frame r ev now e, judge_all-frame rs ev now (judge g r ev now e))

  -- No window is empty, so that a snapshot has each of them.
  abbrev pub NonEmpty : Map String (List (Event g)) → Type 0
  NonEmpty w = All (λ (p : String × List (Event g)). is_nil p.1 ≡ false) w

  NonEmpty-delete :
      (k : String) (w : Map String (List (Event g))) → NonEmpty w → NonEmpty (delete text_dec k w)
  unfolding delete
  NonEmpty-delete k [] n = tt
  NonEmpty-delete k ((j, evs) ∷ w) n = ground (arith, NonEmpty-delete k w n.1)

  pub events_of-snapshot :
      (n : ℕ) (w : Map String (List (Event g))) (dir : String)
      → NonEmpty w
      → events_of g (snapshot g n w) dir ≡ last_n n (events_of g w dir)
  unfolding snapshot lookup
  events_of-snapshot n [] dir ne = sym (drop_nil (0 - n))
  events_of-snapshot n ((j, evs) ∷ w) dir ne = ground (arith, events_of-snapshot n w dir ne.1)

  nonempty_last :
      (m : ℕ) (xs : List (Event g)) (ev : Event g)
      → m ≢ 0
      → is_nil (last_n m (xs ++ ev ∷ [])) ≡ false
  nonempty_last m xs ev h = go (last_n m (xs ++ ev ∷ [])) (λ z.
      omega (
        arith,
        length-drop (length (xs ++ ev ∷ []) - m) (xs ++ ev ∷ []),
        length-append xs (ev ∷ []),
      ))
    where
      go : (ys : List (Event g)) → length ys ≢ 0 → is_nil ys ≡ false
      go [] n = absurd (n refl)
      go (y ∷ ys) n = refl

  pub push-windows :
      (d : String) (ev : Event g) (e : Engine g) (past : List (Event g)) (dir : String)
      → events_of g e.window d ≡ last_n e.max_context past
      → d ≡ dir
      → e.max_context ≢ 0
      → events_of g (push_window g d ev e).window dir ≡ last_n e.max_context (past ++ ev ∷ [])
  unfolding push_window
  push-windows d ev e past dir h q p =
      let cut : last_n e.max_context (events_of g e.window d ++ ev ∷ [])
          ≡ last_n e.max_context (past ++ ev ∷ []) =
        ap (λ xs. last_n e.max_context (xs ++ ev ∷ [])) h
        ∙ last_n-append e.max_context past (ev ∷ []) in
      ground (
        arith,
        cut,
        lookup-insert text_dec d dir (last_n e.max_context (events_of g e.window d ++ ev ∷ []))
            e.window,
      )

  pub push-others :
      (d : String) (ev : Event g) (e : Engine g) (dir : String)
      → d ≢ dir
      → events_of g (push_window g d ev e).window dir ≡ events_of g e.window dir
  unfolding push_window
  push-others d ev e dir n = ground (
    arith,
    lookup-insert text_dec d dir (last_n e.max_context (events_of g e.window d ++ ev ∷ []))
        e.window,
  )

  pub push-NonEmpty :
      (d : String) (ev : Event g) (e : Engine g)
      → NonEmpty e.window
      → NonEmpty (push_window g d ev e).window
  unfolding push_window insert
  push-NonEmpty d ev e n =
      ground (
        arith,
        nonempty_last e.max_context (events_of g e.window d) ev,
        NonEmpty-delete d e.window n,
      )
