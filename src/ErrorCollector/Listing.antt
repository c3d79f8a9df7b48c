-- ===== src/ErrorCollector/Listing.antt =====
-- What Groups shows.
use gametrace.Prelude.{
  ℕ, suc, ◌+◌, ◌≤◌, ◌<◌, String, ◌≡◌, refl, ◌∙◌, List, [], ◌∷◌, arith, length, ltb, if◌then◌else◌,
  ◌==◌, Bool-cases, All-weaken, inl, inr, All,
}
use gametrace.Prelude.Map.{Map, lookup}
use gametrace.Prelude.Text.{text_dec}
use gametrace.ErrorCollector.Collector.{
  DecodeErrorGroup, ErrorCollector, listed, place_group, sort_stable, groups, total, kinds,
}
use gametrace.ErrorCollector.Bounds.{IsValid, occurrences, presence, sum_over}

abbrev pub sum_of : List DecodeErrorGroup → ℕ
sum_of [] = 0
sum_of (g ∷ gs) = g.count + sum_of gs

-- The counts fall.
abbrev pub Falls : List DecodeErrorGroup → Type 0
Falls [] = Unit
Falls (g ∷ gs) = All (λ h. h.count ≤ g.count) gs × Falls gs

-- The groups of one count.
abbrev pub of_count : ℕ → List DecodeErrorGroup → List DecodeErrorGroup
of_count n [] = []
of_count n (g ∷ gs) = if g.count == n then g ∷ of_count n gs else of_count n gs

sum_of-place_group :
    (g : DecodeErrorGroup) (gs : List DecodeErrorGroup)
    → sum_of (place_group g gs) ≡ g.count + sum_of gs
unfolding place_group
sum_of-place_group g [] = omega arith
sum_of-place_group g (h ∷ hs) = ground (arith, sum_of-place_group g hs)

sum_of-sort_stable : (gs : List DecodeErrorGroup) → sum_of (sort_stable gs) ≡ sum_of gs
unfolding sort_stable
sum_of-sort_stable [] = refl
sum_of-sort_stable (g ∷ gs) =
    omega (arith, sum_of-place_group g (sort_stable gs), sum_of-sort_stable gs)

of_count-place_group :
    (n : ℕ) (g : DecodeErrorGroup) (gs : List DecodeErrorGroup)
    → of_count n (place_group g gs) ≡ of_count n (g ∷ gs)
unfolding place_group
of_count-place_group n g [] = refl
of_count-place_group n g (h ∷ hs) = ground (arith, of_count-place_group n g hs)

-- Groups of one count keep their order.
of_count-sort_stable :
    (n : ℕ) (gs : List DecodeErrorGroup) → of_count n (sort_stable gs) ≡ of_count n gs
unfolding sort_stable
of_count-sort_stable n [] = refl
of_count-sort_stable n (g ∷ gs) =
    of_count-place_group n g (sort_stable gs) ∙ ground (arith, of_count-sort_stable n gs)

All-place_group :
    (m : ℕ) (g : DecodeErrorGroup) (gs : List DecodeErrorGroup)
    → g.count ≤ m
    → All (λ h. h.count ≤ m) gs
    → All (λ h. h.count ≤ m) (place_group g gs)
unfolding place_group
All-place_group m g [] h a = (h, tt)
All-place_group m g (x ∷ xs) h a = elim (Bool-cases (ltb g.count x.count)) [
  | inl lt ↦ rw lt (a.0, All-place_group m g xs h a.1)
  | inr ge ↦ rw ge (h, a)
]

Falls-place_group :
    (g : DecodeErrorGroup) (gs : List DecodeErrorGroup) → Falls gs → Falls (place_group g gs)
unfolding place_group
Falls-place_group g [] f = (tt, tt)
Falls-place_group g (h ∷ hs) f = elim (Bool-cases (ltb g.count h.count)) [
  | inl lt ↦ rw lt (All-place_group h.count g hs (ground arith) f.0, Falls-place_group g hs f.1)
  | inr ge ↦
      let le : h.count ≤ g.count = ground arith in
      let rest =
        All-weaken (λ (k : DecodeErrorGroup). k.count ≤ h.count) (λ k. k.count ≤ g.count)
          (λ k l. omega arith) hs f.0 in
      rw ge ((le, rest), f)
]

Falls-sort_stable : (gs : List DecodeErrorGroup) → Falls (sort_stable gs)
unfolding sort_stable
Falls-sort_stable [] = tt
Falls-sort_stable (g ∷ gs) = Falls-place_group g (sort_stable gs) (Falls-sort_stable gs)

length-place_group :
    (g : DecodeErrorGroup) (gs : List DecodeErrorGroup)
    → length (place_group g gs) ≡ suc (length gs)
unfolding place_group
length-place_group g [] = refl
length-place_group g (h ∷ hs) = ground (arith, length-place_group g hs)

length-sort_stable : (gs : List DecodeErrorGroup) → length (sort_stable gs) ≡ length gs
unfolding sort_stable
length-sort_stable [] = refl
length-sort_stable (g ∷ gs) =
    omega (arith, length-place_group g (sort_stable gs), length-sort_stable gs)

sum_of-listed :
    (fps : List String) (gs : Map String DecodeErrorGroup)
    → sum_of (listed fps gs) ≡ sum_over fps gs
unfolding listed
sum_of-listed [] gs = refl
sum_of-listed (fp ∷ fps) gs = ground (arith, sum_of-listed fps gs)

length-listed :
    (fps : List String) (gs : Map String DecodeErrorGroup)
    → ((fp : String) → 0 < occurrences fp fps → presence (lookup text_dec fp gs) ≡ 1)
    → length (listed fps gs) ≡ length fps
unfolding listed
length-listed [] gs h = refl
length-listed (fp ∷ fps) gs h =
    let rest = length-listed fps gs (λ x o. h x (omega arith)) in
    let here = h fp (ground arith) in ground arith

-- Groups shows as many groups as there are, with falling counts that add up to Total; the sort keeps the
-- order of groups of one count.
pub groups-Falls :
    (c : ErrorCollector)
    → IsValid c
    → Falls (groups c)
      × (length (groups c) ≡ kinds c)
      × (sum_of (groups c) ≡ total c)
      × ((n : ℕ) → of_count n (groups c) ≡ of_count n (listed c.order c.groups))
unfolding groups
groups-Falls c v =
    let gs = listed c.order c.groups in
    let there = length-listed c.order c.groups (λ x o. ground (arith, v.ordered x)) in
    (
      Falls-sort_stable gs,
      omega (arith, length-sort_stable gs, there, v.as_long),
      omega (arith, sum_of-sort_stable gs, sum_of-listed c.order c.groups, v.summed),
      λ n. of_count-sort_stable n gs,
    )
