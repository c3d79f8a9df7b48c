-- ===== src/Baseline/Replay.antt =====
-- What the rows that Apply gives out say of the baselines: replayed, they give the state that it writes.
use gametrace.Prelude.{
  ℕ, ◌≡◌, refl, ◌∙◌, ap, ap₂, subst, String, Bool, List, [], ◌∷◌, Option, none, some, arith,
  Bool-cases, inl, inr, ◌⊎◌, true, test, if◌then◌else◌, ◌&&◌,
}
use gametrace.Prelude.Map.{Map, lookup, insert, lookup-delete, lookup-insert}
use gametrace.Prelude.Text.{text_dec}
use gametrace.Baseline.Value.{Value, equal}
use gametrace.Baseline.Changes.{StateChange, is_op}
use gametrace.Baseline.Store.{EntityKey, EntityBaseline, MemoryBaselineStore, Items, entity_dec}
use gametrace.Baseline.Manager.{
  EnrichedStateChange, Declared, Place, key_of, stored, fetch, effective, resolve, write, advanced,
  enriched,
}
use gametrace.Baseline.Apply.{apply_one, apply_loop, with_row}

-- Whether a row is of an entity and a path.
abbrev pub hits : Place → EntityKey → String → EnrichedStateChange → Bool
hits at key path r =
    test (entity_dec (key_of at r.change) key) && test (text_dec r.change.path path)

-- What a row says that the value was, and that it is.
abbrev pub shown_before : EnrichedStateChange → Option Value
shown_before r = if r.before_resolved then some r.change.before else none

abbrev pub shown_after : EnrichedStateChange → Option Value
shown_after r = if r.after_resolved then some r.change.after else none

abbrev pub replay :
    Place → EntityKey → String → List EnrichedStateChange → Option Value → Option Value
replay at key path [] v = v
replay at key path (r ∷ rs) v =
    replay at key path rs (if hits at key path r then shown_after r else v)

-- Each row tells the value that the rows before it had left.
abbrev pub Chained : Place → EntityKey → String → List EnrichedStateChange → Option Value → Type 0
Chained at key path [] v = Unit
Chained at key path (r ∷ rs) v =
    (hits at key path r ≡ true → shown_before r ≡ v)
    × Chained at key path rs (if hits at key path r then shown_after r else v)

shown_before_resolve :
    (exists : Bool) (state : Map String Value) (sc : StateChange)
    → (exists ≡ true) ⊎ (lookup text_dec sc.path state ≡ none)
    → (if (resolve exists state sc).1 then some (resolve exists state sc).0 else none)
      ≡ lookup text_dec sc.path state
unfolding resolve
shown_before_resolve exists state sc h = ground arith

lookup-write :
    (sc : StateChange) (v : Value) (state : Map String Value) (path : String)
    → lookup text_dec path (write sc v state) ≡ (
        if test (text_dec sc.path path)
        then (if is_op sc.op "delete" then none else some v)
        else lookup text_dec path state)
unfolding write
lookup-write sc v state path =
    ground (
      arith,
      lookup-delete text_dec sc.path path state,
      lookup-insert text_dec sc.path path v state,
    )

module _ (at : Place) (ttl : ℕ) (s : MemoryBaselineStore) where
  abbrev pub fetched : EntityKey → Items → EntityBaseline × Bool
  fetched key touched = fetch key at.now ttl touched s

  -- A value of an entity in the middle of Apply.
  abbrev pub value_at : EntityKey → String → Items → Option Value
  value_at key path touched = lookup text_dec path (fetched key touched).0.state

  fetch_known :
      (key : EntityKey) (path : String) (touched : Items)
      → ((fetched key touched).1 ≡ true) ⊎ (value_at key path touched ≡ none)
  unfolding fetch stored lookup
  fetch_known key path touched = ground arith

  value_at-insert :
      (key j : EntityKey) (path : String) (base : EntityBaseline) (touched : Items)
      → value_at j path (insert entity_dec key base touched) ≡ (
          if test (entity_dec key j)
          then lookup text_dec path base.state
          else value_at j path touched)
  unfolding fetch
  value_at-insert key j path base touched =
      ground (arith, lookup-insert entity_dec key j base touched)

  -- A write to an entity is one to its value under a path.
  value_at-advanced :
      (sc : StateChange) (v : Value) (j : EntityKey) (path : String) (touched : Items)
      → value_at j path (
          insert entity_dec
            (key_of at sc)
            (advanced at sc v (fetched (key_of at sc) touched).0)
            touched)
        ≡ (if test (entity_dec (key_of at sc) j) && test (text_dec sc.path path)
            then (if is_op sc.op "delete" then none else some v)
            else value_at j path touched)
  unfolding advanced
  value_at-advanced sc v j path touched =
      let key = key_of at sc in
      let base = (fetched key touched).0 in
      let here = value_at-insert key j path (advanced at sc v base) touched in
      let there = lookup-write sc v base.state path in
      elim (entity_dec key j) [
        | yes e ↦
            let same : value_at key path touched ≡ value_at j path touched =
              ap (λ k. value_at k path touched) e in
            ground arith
        | no d ↦ ground arith
      ]

  -- A row tells what was, and the baselines become what it tells.
  RowTells : Option EnrichedStateChange → Items → Items → Type 0
  RowTells none touched next = next ≡ touched
  RowTells (some r) touched next =
      (key : EntityKey) (path : String)
      → (hits at key path r ≡ true → shown_before r ≡ value_at key path touched)
        × (value_at key path next
            ≡ (if hits at key path r then shown_after r else value_at key path touched))

  row_before :
      (item : Declared) (v : Value) (j : EntityKey) (path : String) (touched : Items)
      → let f = fetched (key_of at item.sc) touched in
        let r = enriched at item (resolve f.1 f.0.state item.sc) v in
        hits at j path r ≡ true → shown_before r ≡ value_at j path touched
  row_before item v j path touched h =
      let key = key_of at item.sc in
      let f = fetched key touched in
      let e : key ≡ j = ground arith in
      let d : item.sc.path ≡ path = ground arith in
      shown_before_resolve f.1 f.0.state item.sc (fetch_known key item.sc.path touched)
      ∙ ap₂ (λ k p. value_at k p touched) e d

  apply_one-RowTells :
      (item : Declared) (touched : Items)
      → RowTells (apply_one at ttl s item touched).0 touched (apply_one at ttl s item touched).1
  unfolding apply_one RowTells advanced
  apply_one-RowTells item touched =
      let key = key_of at item.sc in
      let base = (fetched key touched).0 in
      let old = resolve (fetched key touched).1 base.state item.sc in
      let v = effective item.sc base.state in
      elim (Bool-cases (old.1 && equal old.0 v)) [
        | inl y ↦ rw y refl
        | inr n ↦ rw n (λ j path. (
          λ h. row_before item v j path touched h,
          value_at-advanced item.sc v j path touched ∙ ground arith,
        ))
      ]

  ChainedTo : EntityKey → String → Option Value → List EnrichedStateChange × (ℕ × Items) → Type 0
  ChainedTo key path v out =
      Chained at key path out.0 v × (value_at key path out.1.1 ≡ replay at key path out.0 v)

  ChainedTo-with_row :
      (row : Option EnrichedStateChange) (touched next : Items)
      (out : List EnrichedStateChange × (ℕ × Items)) (key : EntityKey) (path : String)
      → RowTells row touched next
      → ChainedTo key path (value_at key path next) out
      → ChainedTo key path (value_at key path touched) (with_row row out)
  unfolding RowTells ChainedTo with_row
  ChainedTo-with_row none touched next out key path h c =
      subst (λ t. ChainedTo key path (value_at key path t) out) h c
  ChainedTo-with_row (some r) touched next out key path h c =
      let (told, same) = h key path in
      let (chained, replayed) = subst (λ v. ChainedTo key path v out) same c in
      ((told, chained), replayed)

  pub apply_loop-Chained :
      (items : List Declared) (touched : Items) (key : EntityKey) (path : String)
      → let out = apply_loop at ttl s items touched in
        Chained at key path out.0 (value_at key path touched)
        × (value_at key path out.1.1 ≡ replay at key path out.0 (value_at key path touched))
  unfolding apply_loop ChainedTo
  apply_loop-Chained [] touched key path = (tt, refl)
  apply_loop-Chained (item ∷ items) touched key path =
      let (row, next) = apply_one at ttl s item touched in
      ChainedTo-with_row row touched next (apply_loop at ttl s items next) key path
        (apply_one-RowTells item touched) (apply_loop-Chained items next key path)
