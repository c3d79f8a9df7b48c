-- ===== src/ErrorCollector/Tally.antt =====
-- What the count of a group says of the failures that there were.
use gametrace.Prelude.{
  ℕ, suc, ◌≤◌, ◌<◌, String, ◌≡◌, ◌≢◌, refl, sym, subst, true, false, List, [], ◌∷◌, ◌++◌, Option,
  none, some, arith, length, Bool-cases, Option-cases, inl, inr, ◌⊎◌,
}
use gametrace.Prelude.Map.{lookup, insert, lookup-insert}
use gametrace.Prelude.Keys.{length-insert_absent, length-insert_known}
use gametrace.Prelude.Text.{text_dec}
use gametrace.ErrorCollector.Collector.{
  DecodeErrorGroup, ErrorCollector, Failure, overflow_fingerprint, overflow_template, new_group,
  counted, add_to, overflows, add, new_error_collector,
}
use gametrace.ErrorCollector.Bounds.{
  IsValid, occurrences, add_to-known, add_to-new, count-counted, add-IsValid,
  new_error_collector-IsValid,
}

-- A kind that has a group has counted all its failures; one that has none has had no failures, or the
-- table is full.
Told : Option DecodeErrorGroup → ℕ → ℕ → ℕ → Type 0
Told (some g) n size max = g.count ≡ n
Told none n size max = (n ≡ 0) ⊎ (max ≤ size)

Tells : List String → ErrorCollector → Type 0
Tells fps c =
    (fp : String)
    → fp ≢ overflow_fingerprint
    → Told (lookup text_dec fp c.groups) (occurrences fp fps) (length c.groups) c.max_size

-- A failure that goes to the overflow group leaves the others alone.
Tells-aside :
    (fps order : List String) (x : String) (total : ℕ) (c : ErrorCollector) (k : DecodeErrorGroup)
    → lookup text_dec x c.groups ≡ none
    → c.max_size ≤ length c.groups
    → length c.groups ≤ length (insert text_dec overflow_fingerprint k c.groups)
    → Tells fps c
    → Tells (x ∷ fps) (record c {
      groups = insert text_dec overflow_fingerprint k c.groups;
      order = order;
      total = total;
    })
unfolding Tells Told
Tells-aside fps order x total c k e full size h fp n =
    ground (arith, h fp n, lookup-insert text_dec overflow_fingerprint fp k c.groups)

Tells-overflow :
    (fps : List String) (x tpl : String) (f : Failure) (now : ℕ) (c : ErrorCollector)
    → IsValid c
    → lookup text_dec x c.groups ≡ none
    → c.max_size ≤ length c.groups
    → Tells fps c
    → Tells (x ∷ fps) (add_to overflow_fingerprint tpl f now c)
Tells-overflow fps x tpl f now c v e full h =
    let ov = overflow_fingerprint in
    elim (Option-cases (lookup text_dec ov c.groups)) [
      | inl a ↦
          let k = counted f now (new_group ov f.kind tpl now) in
          subst (Tells (x ∷ fps)) (sym (add_to-new ov tpl f now c a)) (
            Tells-aside fps (c.order ++ ov ∷ []) x (suc c.total) c k e full
              (omega (arith, length-insert_absent text_dec ov k c.groups a)) h)
      | inr (g, a) ↦
          let k = counted f now g in
          subst (Tells (x ∷ fps)) (sym (add_to-known ov tpl f now c g a)) (
            Tells-aside fps c.order x (suc c.total) c k e full
              (omega (arith, length-insert_known text_dec ov k g c.groups v.unique a)) h)
    ]

Tells-known :
    (fps : List String) (x : String) (c : ErrorCollector) (g k : DecodeErrorGroup)
    → IsValid c
    → lookup text_dec x c.groups ≡ some g
    → k.count ≡ suc g.count
    → Tells fps c
    → Tells (x ∷ fps) (record c { groups = insert text_dec x k c.groups; total = suc c.total })
unfolding Tells Told
Tells-known fps x c g k v e s h fp n = ground (
  arith,
  h fp n,
  lookup-insert text_dec x fp k c.groups,
  length-insert_known text_dec x k g c.groups v.unique e,
)

-- A new kind that finds room had no failures before.
Tells-new :
    (fps : List String) (x : String) (c : ErrorCollector) (k : DecodeErrorGroup)
    → lookup text_dec x c.groups ≡ none
    → (length c.groups < c.max_size) ⊎ (x ≡ overflow_fingerprint)
    → k.count ≡ 1
    → Tells fps c
    → Tells (x ∷ fps) (record c {
      groups = insert text_dec x k c.groups;
      order = c.order ++ x ∷ [];
      total = suc c.total;
    })
unfolding Tells Told
Tells-new fps x c k e room s h fp n = ground (
  arith,
  h fp n,
  lookup-insert text_dec x fp k c.groups,
  length-insert_absent text_dec x k c.groups e,
)

room_for :
    (fp : String) (c : ErrorCollector)
    → overflows fp c ≡ false
    → lookup text_dec fp c.groups ≡ none
    → (length c.groups < c.max_size) ⊎ (fp ≡ overflow_fingerprint)
unfolding overflows
room_for fp c h e = ground arith

overflows-full :
    (fp : String) (c : ErrorCollector)
    → overflows fp c ≡ true
    → (lookup text_dec fp c.groups ≡ none) × (c.max_size ≤ length c.groups)
unfolding overflows
overflows-full fp c h = ground arith

module _ (template_of : String → String) (fingerprint_of : String → String → String) where
  abbrev pub fingerprint : Failure → String
  fingerprint f = fingerprint_of f.kind (template_of f.msg)

  Tells-add :
      (fps : List String) (f : Failure) (now : ℕ) (c : ErrorCollector)
      → IsValid c
      → Tells fps c
      → Tells (fingerprint f ∷ fps) (add template_of fingerprint_of f now c)
  unfolding add
  Tells-add fps f now c v h =
      let tpl = template_of f.msg in
      let fp = fingerprint f in
      elim (Bool-cases (overflows fp c)) [
        | inl full ↦
            let (e, m) = overflows-full fp c full in
            rw full (Tells-overflow fps fp overflow_template f now c v e m h)
        | inr room ↦ rw room (elim (Option-cases (lookup text_dec fp c.groups)) [
          | inl e ↦
              let k = counted f now (new_group fp f.kind tpl now) in
              subst (Tells (fp ∷ fps)) (sym (add_to-new fp tpl f now c e))
                (Tells-new fps fp c k e (room_for fp c room e) (count-counted f now _) h)
          | inr (g, e) ↦
              subst (Tells (fp ∷ fps)) (sym (add_to-known fp tpl f now c g e))
                (Tells-known fps fp c g (counted f now g) v e (count-counted f now g) h)
        ])
      ]

  -- All the failures of a session, the latest first.
  unfoldable pub add_all : List (Failure × ℕ) → ErrorCollector → ErrorCollector
  add_all [] c = c
  add_all ((f, now) ∷ fs) c = add template_of fingerprint_of f now (add_all fs c)

  abbrev pub fingerprints : List (Failure × ℕ) → List String
  fingerprints [] = []
  fingerprints ((f, now) ∷ fs) = fingerprint f ∷ fingerprints fs

  pub add_all-IsValid :
      (fs : List (Failure × ℕ)) (n : ℕ) → IsValid (add_all fs (new_error_collector n))
  unfolding add_all
  add_all-IsValid [] n = new_error_collector-IsValid template_of fingerprint_of n
  add_all-IsValid ((f, now) ∷ fs) n =
      add-IsValid template_of fingerprint_of f now _ (add_all-IsValid fs n)

  Tells-add_all :
      (fs : List (Failure × ℕ)) (n : ℕ)
      → Tells (fingerprints fs) (add_all fs (new_error_collector n))
  unfolding add_all Tells Told lookup
  Tells-add_all [] n = λ fp d. inl refl
  Tells-add_all ((f, now) ∷ fs) n =
      Tells-add (fingerprints fs) f now (add_all fs (new_error_collector n)) (add_all-IsValid fs n)
        (Tells-add_all fs n)

  -- The count of a group, other than that of the rest, is the number of all the failures of its kind,
  -- also of those that came before the table was full.
  pub count-add_all :
      (fs : List (Failure × ℕ)) (n : ℕ) (fp : String) (g : DecodeErrorGroup)
      → fp ≢ overflow_fingerprint
      → lookup text_dec fp (add_all fs (new_error_collector n)).groups ≡ some g
      → g.count ≡ occurrences fp (fingerprints fs)
  unfolding Tells Told
  count-add_all fs n fp g d e = let t = Tells-add_all fs n fp d in ground arith
