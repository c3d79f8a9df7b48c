-- ===== src/ErrorCollector/Stamps.antt =====
-- The times at which the groups of an ErrorCollector were first seen, along its order.
use gametrace.Prelude.{
  ℕ, suc, ◌≤◌, String, ◌≡◌, refl, sym, ap, subst, ◌∙◌, List, [], ◌∷◌, ◌++◌, some, arith, length,
  All, All-append, All-weaken, Bool-cases, Option-cases, inl, inr,
}
use gametrace.Prelude.Map.{Map, lookup, insert, lookup-insert, lookup-insert_self}
use gametrace.Prelude.Text.{text_dec}
use gametrace.ErrorCollector.Collector.{
  DecodeErrorGroup, ErrorCollector, Failure, listed, overflow_fingerprint, overflow_template,
  new_group, counted, add_to, overflows, add, new_error_collector,
}
use gametrace.ErrorCollector.Bounds.{IsValid, occurrences, add_to-known, add_to-new}
use gametrace.ErrorCollector.Tally.{add_all, add_all-IsValid}

abbrev pub stamps : List DecodeErrorGroup → List ℕ
stamps [] = []
stamps (g ∷ gs) = g.first_seen ∷ stamps gs

-- The numbers rise, or stay.
abbrev pub Rises : List ℕ → Type 0
Rises [] = Unit
Rises (n ∷ ns) = All (λ m. n ≤ m) ns × Rises ns

Rises-snoc : (ns : List ℕ) (t : ℕ) → Rises ns → All (λ n. n ≤ t) ns → Rises (ns ++ t ∷ [])
Rises-snoc [] t r a = (tt, tt)
Rises-snoc (n ∷ ns) t r a =
    (All-append (λ m. n ≤ m) ns (t ∷ []) r.0 (a.0, tt), Rises-snoc ns t r.1 a.1)

first_seen-counted :
    (f : Failure) (now : ℕ) (g : DecodeErrorGroup) → (counted f now g).first_seen ≡ g.first_seen
unfolding counted
first_seen-counted f now g = ground arith

stamps-known :
    (fps : List String) (fp : String) (g h : DecodeErrorGroup) (gs : Map String DecodeErrorGroup)
    → lookup text_dec fp gs ≡ some g
    → h.first_seen ≡ g.first_seen
    → stamps (listed fps (insert text_dec fp h gs)) ≡ stamps (listed fps gs)
unfolding listed
stamps-known [] fp g h gs e s = refl
stamps-known (x ∷ xs) fp g h gs e s =
    ground (arith, stamps-known xs fp g h gs e s, lookup-insert text_dec fp x h gs)

stamps-absent :
    (fps : List String) (fp : String) (h : DecodeErrorGroup) (gs : Map String DecodeErrorGroup)
    → occurrences fp fps ≡ 0
    → stamps (listed fps (insert text_dec fp h gs)) ≡ stamps (listed fps gs)
unfolding listed
stamps-absent [] fp h gs o = refl
stamps-absent (x ∷ xs) fp h gs o =
    let rest = stamps-absent xs fp h gs (omega arith) in
    ground (arith, rest, lookup-insert text_dec fp x h gs)

stamps-snoc :
    (fps : List String) (fp : String) (h : DecodeErrorGroup) (gs : Map String DecodeErrorGroup)
    → lookup text_dec fp gs ≡ some h
    → stamps (listed (fps ++ fp ∷ []) gs) ≡ stamps (listed fps gs) ++ h.first_seen ∷ []
unfolding listed
stamps-snoc [] fp h gs e = ground arith
stamps-snoc (x ∷ xs) fp h gs e = ground (arith, stamps-snoc xs fp h gs e)

-- The groups of the order were first seen one after the other, and none after `t`.
pub record Stamped (t : ℕ) (c : ErrorCollector) : Type 0 where
  pub rises : Rises (stamps (listed c.order c.groups))
  pub early : All (λ n. n ≤ t) (stamps (listed c.order c.groups))

early-later : (ns : List ℕ) (t u : ℕ) → t ≤ u → All (λ n. n ≤ t) ns → All (λ n. n ≤ u) ns
early-later ns t u le a = All-weaken (λ n. n ≤ t) (λ n. n ≤ u) (λ n h. omega arith) ns a

Stamped-add_to :
    (fp tpl : String) (f : Failure) (t now : ℕ) (c : ErrorCollector)
    → IsValid c
    → t ≤ now
    → Stamped t c
    → Stamped now (add_to fp tpl f now c)
Stamped-add_to fp tpl f t now c v le s = elim (Option-cases (lookup text_dec fp c.groups)) [
  | inl e ↦
      let k = counted f now (new_group fp f.kind tpl now) in
      let gs = insert text_dec fp k c.groups in
      let fresh = stamps-absent c.order fp k c.groups (ground (arith, v.ordered fp)) in
      let here : stamps (listed (c.order ++ fp ∷ []) gs)
          ≡ stamps (listed c.order c.groups) ++ now ∷ [] =
        stamps-snoc c.order fp k gs (lookup-insert_self text_dec fp k c.groups)
        ∙ (ap (◌++ k.first_seen ∷ []) fresh
            ∙ ap (λ n. stamps (listed c.order c.groups) ++ n ∷ [])
                (first_seen-counted f now (new_group fp f.kind tpl now))) in
      let all = early-later _ t now le s.early in
      subst (Stamped now) (sym (add_to-new fp tpl f now c e)) (record {
        rises = subst Rises (sym here) (Rises-snoc _ now s.rises all);
        early =
            subst (All (λ n. n ≤ now)) (sym here)
              (All-append (λ n. n ≤ now) _ (now ∷ []) all (omega arith, tt));
      })
  | inr (g, e) ↦
      let k = counted f now g in
      let here = stamps-known c.order fp g k c.groups e (first_seen-counted f now g) in
      subst (Stamped now) (sym (add_to-known fp tpl f now c g e)) (record {
        rises = subst Rises (sym here) s.rises;
        early = subst (All (λ n. n ≤ now)) (sym here) (early-later _ t now le s.early);
      })
]

-- The clock does not go back: a session's failures, the latest first.
abbrev pub Clocked : ℕ → List (Failure × ℕ) → Type 0
Clocked t [] = Unit
Clocked t ((f, now) ∷ fs) = (now ≤ t) × Clocked now fs

module _ (template_of : String → String) (fingerprint_of : String → String → String) where
  Stamped-add :
      (f : Failure) (t now : ℕ) (c : ErrorCollector)
      → IsValid c
      → t ≤ now
      → Stamped t c
      → Stamped now (add template_of fingerprint_of f now c)
  unfolding add
  Stamped-add f t now c v le s =
      let tpl = template_of f.msg in
      let fp = fingerprint_of f.kind tpl in
      elim (Bool-cases (overflows fp c)) [
        | inl full ↦
            rw full (Stamped-add_to overflow_fingerprint overflow_template f t now c v le s)
        | inr room ↦ rw room (Stamped-add_to fp tpl f t now c v le s)
      ]

  Stamped-later : (t u : ℕ) (c : ErrorCollector) → t ≤ u → Stamped t c → Stamped u c
  Stamped-later t u c le s = record { rises = s.rises; early = early-later _ t u le s.early }

  Stamped-add_all :
      (fs : List (Failure × ℕ)) (t n : ℕ)
      → Clocked t fs
      → Stamped t (add_all template_of fingerprint_of fs (new_error_collector n))
  unfolding add_all listed
  Stamped-add_all [] t n k = record { rises = tt; early = tt }
  Stamped-add_all ((f, now) ∷ fs) t n k =
      let c = add_all template_of fingerprint_of fs (new_error_collector n) in
      Stamped-later now t _ k.0 (
        Stamped-add f now now c (add_all-IsValid template_of fingerprint_of fs n) (omega arith)
          (Stamped-add_all fs now n k.1))

  pub stamps-add_all :
      (fs : List (Failure × ℕ)) (t n : ℕ)
      → Clocked t fs
      → let c = add_all template_of fingerprint_of fs (new_error_collector n) in
        Rises (stamps (listed c.order c.groups))
  stamps-add_all fs t n k = (Stamped-add_all fs t n k).rises

  total-add_to :
      (fp tpl : String) (f : Failure) (now : ℕ) (c : ErrorCollector)
      → (add_to fp tpl f now c).total ≡ suc c.total
  unfolding add_to
  total-add_to fp tpl f now c = ground arith

  total-add :
      (f : Failure) (now : ℕ) (c : ErrorCollector)
      → (add template_of fingerprint_of f now c).total ≡ suc c.total
  unfolding add
  total-add f now c =
      let tpl = template_of f.msg in
      let fp = fingerprint_of f.kind tpl in
      ground (
        arith,
        total-add_to fp tpl f now c,
        total-add_to overflow_fingerprint overflow_template f now c,
      )

  pub total-add_all :
      (fs : List (Failure × ℕ)) (n : ℕ)
      → (add_all template_of fingerprint_of fs (new_error_collector n)).total ≡ length fs
  unfolding add_all
  total-add_all [] n = refl
  total-add_all ((f, now) ∷ fs) n = omega (
    arith,
    total-add f now (add_all template_of fingerprint_of fs (new_error_collector n)),
    total-add_all fs n,
  )
