-- ===== src/ErrorCollector/Bounds.antt =====
-- What the table and the order of an ErrorCollector keep, whatever fails.
use gametrace.Prelude.{
  ℕ, suc, ◌+◌, ◌≤◌, ◌<◌, String, ◌≡◌, refl, sym, subst, false, List, [], ◌∷◌, ◌++◌, Option, none,
  some, arith, test, length, length-append, if◌then◌else◌, Bool-cases, Option-cases, inl, inr, ◌⊎◌,
}
use gametrace.Prelude.Map.{Map, lookup, insert, lookup-insert, lookup-insert_self}
use gametrace.Prelude.Keys.{Unique, Unique-insert, length-insert_absent, length-insert_known}
use gametrace.Prelude.Text.{text_dec}
use gametrace.ErrorCollector.Collector.{
  DecodeErrorGroup, ErrorCollector, Failure, overflow_fingerprint, overflow_template, new_group,
  counted, add_to, overflows, add, new_error_collector,
}

abbrev pub occurrences : String → List String → ℕ
occurrences a [] = 0
occurrences a (x ∷ xs) = (if test (text_dec x a) then 1 else 0) + occurrences a xs

occurrences-append :
    (a : String) (xs ys : List String)
    → occurrences a (xs ++ ys) ≡ occurrences a xs + occurrences a ys
occurrences-append a [] ys = omega arith
occurrences-append a (x ∷ xs) ys = omega (arith, occurrences-append a xs ys)

abbrev pub presence : Option DecodeErrorGroup → ℕ
presence none = 0
presence (some g) = 1

abbrev pub count_of : Option DecodeErrorGroup → ℕ
count_of none = 0
count_of (some g) = g.count

-- The counts of the groups that an order names.
abbrev pub sum_over : List String → Map String DecodeErrorGroup → ℕ
sum_over [] gs = 0
sum_over (fp ∷ fps) gs = count_of (lookup text_dec fp gs) + sum_over fps gs

-- The order names each group once, the counts add up to the total, and there is at most one group
-- more than `max_size`, which is the one of all kinds that did not fit.
pub record IsValid (c : ErrorCollector) : Type 0 where
  pub unique : Unique text_dec c.groups
  pub ordered : (fp : String) → occurrences fp c.order ≡ presence (lookup text_dec fp c.groups)
  pub as_long : length c.order ≡ length c.groups
  pub summed : sum_over c.order c.groups ≡ c.total
  pub bounded :
      (length c.groups ≤ c.max_size)
      ⊎ ((presence (lookup text_dec overflow_fingerprint c.groups) ≡ 1)
          × (length c.groups ≤ suc c.max_size))

sum_over-insert :
    (fp : String) (g : DecodeErrorGroup) (fps : List String) (gs : Map String DecodeErrorGroup)
    → g.count ≡ suc (count_of (lookup text_dec fp gs))
    → sum_over fps (insert text_dec fp g gs) ≡ sum_over fps gs + occurrences fp fps
sum_over-insert fp g [] gs h = omega arith
sum_over-insert fp g (x ∷ xs) gs h =
    ground (arith, sum_over-insert fp g xs gs h, lookup-insert text_dec fp x g gs)

sum_over-append :
    (xs ys : List String) (gs : Map String DecodeErrorGroup)
    → sum_over (xs ++ ys) gs ≡ sum_over xs gs + sum_over ys gs
sum_over-append [] ys gs = omega arith
sum_over-append (x ∷ xs) ys gs = omega (arith, sum_over-append xs ys gs)

pub count-counted :
    (f : Failure) (now : ℕ) (g : DecodeErrorGroup) → (counted f now g).count ≡ suc g.count
unfolding counted
count-counted f now g = ground arith

-- Where a failure may go: to a group that is there, to a new one while there is room, or to the one
-- of the rest.
abbrev Fits : String → ErrorCollector → Type 0
Fits fp c =
    (presence (lookup text_dec fp c.groups) ≡ 1)
    ⊎ ((length c.groups < c.max_size) ⊎ (fp ≡ overflow_fingerprint))

pub add_to-known :
    (fp tpl : String) (f : Failure) (now : ℕ) (c : ErrorCollector) (g : DecodeErrorGroup)
    → lookup text_dec fp c.groups ≡ some g
    → add_to fp tpl f now c
      ≡ record c { groups = insert text_dec fp (counted f now g) c.groups; total = suc c.total }
unfolding add_to
add_to-known fp tpl f now c g h = rw (add_to, h) refl

pub add_to-new :
    (fp tpl : String) (f : Failure) (now : ℕ) (c : ErrorCollector)
    → lookup text_dec fp c.groups ≡ none
    → add_to fp tpl f now c ≡ record c {
      groups = insert text_dec fp (counted f now (new_group fp f.kind tpl now)) c.groups;
      order = c.order ++ fp ∷ [];
      total = suc c.total;
    }
unfolding add_to
add_to-new fp tpl f now c h = rw (add_to, h) refl

IsValid-known :
    (fp : String) (c : ErrorCollector) (g h : DecodeErrorGroup)
    → IsValid c
    → lookup text_dec fp c.groups ≡ some g
    → h.count ≡ suc g.count
    → IsValid (record c { groups = insert text_dec fp h c.groups; total = suc c.total })
IsValid-known fp c g h v e k =
    let size = length-insert_known text_dec fp h g c.groups v.unique e in
    record {
      unique = Unique-insert text_dec fp h c.groups v.unique;
      ordered = λ x. ground (arith, v.ordered x, lookup-insert text_dec fp x h c.groups);
      as_long = omega (arith, v.as_long, size);
      summed = ground (arith, v.summed, v.ordered fp, sum_over-insert fp h c.order c.groups);
      bounded =
          ground
            (arith, v.bounded, size, lookup-insert text_dec fp overflow_fingerprint h c.groups);
    }

IsValid-new :
    (fp : String) (c : ErrorCollector) (h : DecodeErrorGroup)
    → IsValid c
    → lookup text_dec fp c.groups ≡ none
    → Fits fp c
    → h.count ≡ 1
    → IsValid (record c {
      groups = insert text_dec fp h c.groups;
      order = c.order ++ fp ∷ [];
      total = suc c.total;
    })
IsValid-new fp c h v e fits k =
    let size = length-insert_absent text_dec fp h c.groups e in
    record {
      unique = Unique-insert text_dec fp h c.groups v.unique;
      ordered = λ x. ground (
        arith,
        v.ordered x,
        v.ordered fp,
        lookup-insert text_dec fp x h c.groups,
        occurrences-append x c.order (fp ∷ []),
      );
      as_long = omega (arith, v.as_long, size, length-append c.order (fp ∷ []));
      summed = ground (
        arith,
        v.summed,
        v.ordered fp,
        sum_over-insert fp h c.order c.groups,
        sum_over-append c.order (fp ∷ []) (insert text_dec fp h c.groups),
        lookup-insert_self text_dec fp h c.groups,
      );
      bounded =
          ground
            (arith, v.bounded, size, lookup-insert text_dec fp overflow_fingerprint h c.groups);
    }

IsValid-add_to :
    (fp tpl : String) (f : Failure) (now : ℕ) (c : ErrorCollector)
    → IsValid c
    → Fits fp c
    → IsValid (add_to fp tpl f now c)
IsValid-add_to fp tpl f now c v fits = elim (Option-cases (lookup text_dec fp c.groups)) [
  | inl e ↦
      let g = new_group fp f.kind tpl now in
      subst IsValid (sym (add_to-new fp tpl f now c e))
        (IsValid-new fp c (counted f now g) v e fits (count-counted f now g))
  | inr (g, e) ↦
      subst IsValid (sym (add_to-known fp tpl f now c g e))
        (IsValid-known fp c g (counted f now g) v e (count-counted f now g))
]

-- A failure that does not find the table full has a place.
fits : (fp : String) (c : ErrorCollector) → overflows fp c ≡ false → Fits fp c
unfolding overflows
fits fp c h = ground arith

module _ (template_of : String → String) (fingerprint_of : String → String → String) where
  pub new_error_collector-IsValid : (n : ℕ) → IsValid (new_error_collector n)
  unfolding lookup
  new_error_collector-IsValid n = record {
    unique = tt;
    ordered = λ fp. refl;
    as_long = refl;
    summed = refl;
    bounded = inl (omega arith);
  }

  -- However a decoder fails, the collector has at most `max_size` kinds of failures and one more group
  -- for those that did not fit; its order names every group once, and the counts of the groups add up
  -- to the number of failures.
  pub add-IsValid :
      (f : Failure) (now : ℕ) (c : ErrorCollector)
      → IsValid c
      → IsValid (add template_of fingerprint_of f now c)
  unfolding add
  add-IsValid f now c v =
      let tpl = template_of f.msg in
      let fp = fingerprint_of f.kind tpl in
      elim (Bool-cases (overflows fp c)) [
        | inl full ↦
            rw full
              (IsValid-add_to overflow_fingerprint overflow_template f now c v (inr (inr refl)))
        | inr room ↦ rw room (IsValid-add_to fp tpl f now c v (fits fp c room))
      ]
