-- ===== src/Baseline/Accounts.antt =====
-- Where the changes that an event declares go.
use gametrace.Prelude.{
  ℕ, suc, ◌+◌, ◌-◌, ◌≡◌, refl, List, [], ◌∷◌, Option, none, some, arith, Bool-cases, inl, inr,
  String, length, take, is_nil, length-take,
}
use gametrace.Baseline.Changes.{StateChange, Event, extract_state_changes}
use gametrace.Baseline.Store.{MemoryBaselineStore, Items}
use gametrace.Baseline.Manager.{
  BaselineManager, EnrichedStateChange, Declared, Place, max_state_changes_per_event, validated,
}
use gametrace.Baseline.Apply.{apply, apply_declared, apply_loop, apply_one, with_row, place_of}

length-validated :
    (i : ℕ) (scs : List StateChange) → length (validated i scs).0 + (validated i scs).1 ≡ length scs
unfolding validated
length-validated i [] = refl
length-validated i (sc ∷ scs) = ground (arith, length-validated (suc i) scs)

length-with_row :
    (row : Option EnrichedStateChange) (out : List EnrichedStateChange × (ℕ × Items))
    → length (with_row row out).0 + (with_row row out).1.0 ≡ suc (length out.0 + out.1.0)
unfolding with_row
length-with_row none out = omega arith
length-with_row (some r) out = omega arith

length-apply_loop :
    (at : Place) (ttl : ℕ) (s : MemoryBaselineStore) (items : List Declared) (touched : Items)
    → let out = apply_loop at ttl s items touched in length out.0 + out.1.0 ≡ length items
unfolding apply_loop
length-apply_loop at ttl s [] touched = refl
length-apply_loop at ttl s (item ∷ items) touched =
    let (row, next) = apply_one at ttl s item touched in
    omega (
      arith,
      length-with_row row (apply_loop at ttl s items next),
      length-apply_loop at ttl s items next,
    )

abbrev pub accounted : BaselineManager → ℕ
accounted bm = bm.noop_suppressed + (bm.invalid_skipped + bm.truncated)

length-apply_declared :
    (ev : Event) (session : String) (changes : List StateChange) (bm : BaselineManager)
    → let out = apply_declared ev session changes bm in
      length out.0 + accounted out.1 ≡ length changes + accounted bm
unfolding apply_declared
length-apply_declared ev session changes bm =
    let valid = (validated 0 changes).0 in
    let here = length-validated 0 changes in
    let rows = length-apply_loop (place_of bm.scope ev session) bm.ttl bm.store valid [] in
    elim (Bool-cases (is_nil valid)) [ inl y ↦ rw y (ground arith) | inr n ↦ rw n (omega arith) ]

-- Every change that an event declares is accounted for: it is given out as a row, or counted as
-- suppressed, as invalid or as truncated, and no more than one of these.
pub length-apply :
    (ev : Event) (session : String) (bm : BaselineManager)
    → let out = apply ev session bm in
      length out.0 + accounted out.1 ≡ length (extract_state_changes ev) + accounted bm
unfolding apply
length-apply ev session bm =
    let changes = extract_state_changes ev in
    let most = max_state_changes_per_event in
    let cut : BaselineManager = record bm { truncated = bm.truncated + (length changes - most) } in
    let rest = length-apply_declared ev session (take most changes) cut in
    let taken = length-take most changes in
    elim (Bool-cases (is_nil changes)) [ inl y ↦ rw y (ground arith) | inr n ↦ rw n (omega arith) ]
