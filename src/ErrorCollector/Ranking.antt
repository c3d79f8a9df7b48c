-- ===== src/ErrorCollector/Ranking.antt =====
-- The order in which Groups shows the groups.
use gametrace.Prelude.{
  ℕ, ◌≤◌, ◌<◌, String, ◌≡◌, ◌∙◌, ◌⊎◌, List, [], ◌∷◌, arith, length, ltb, Bool-cases, All, inl, inr,
}
use gametrace.ErrorCollector.Collector.{
  DecodeErrorGroup, Failure, listed, place_group, sort_stable, groups, kinds, new_error_collector,
}
use gametrace.ErrorCollector.Tally.{add_all, add_all-IsValid}
use gametrace.ErrorCollector.Listing.{sum_of, groups-Falls}
use gametrace.ErrorCollector.Stamps.{stamps, Rises, Clocked, stamps-add_all, total-add_all}

-- One group stands before another: it failed more often, or as often and was first seen no later.
abbrev pub Before : DecodeErrorGroup → DecodeErrorGroup → Type 0
Before g h = (h.count < g.count) ⊎ ((h.count ≡ g.count) × (g.first_seen ≤ h.first_seen))

-- Every group stands before all that come behind it.
abbrev pub Ranked : List DecodeErrorGroup → Type 0
Ranked [] = Unit
Ranked (g ∷ gs) = All (Before g) gs × Ranked gs

Before-place_group :
    (h g : DecodeErrorGroup) (gs : List DecodeErrorGroup)
    → Before h g
    → All (Before h) gs
    → All (Before h) (place_group g gs)
unfolding place_group
Before-place_group h g [] b a = (b, tt)
Before-place_group h g (x ∷ xs) b a = elim (Bool-cases (ltb g.count x.count)) [
  | inl y ↦ rw y (a.0, Before-place_group h g xs b a.1)
  | inr n ↦ rw n (b, a)
]

Before-rest :
    (g h : DecodeErrorGroup) (xs : List DecodeErrorGroup)
    → h.count ≤ g.count
    → All (λ x. g.first_seen ≤ x.first_seen) xs
    → All (Before h) xs
    → All (Before g) xs
Before-rest g h [] le t a = tt
Before-rest g h (x ∷ xs) le t a = (ground arith, Before-rest g h xs le t.1 a.1)

Ranked-place_group :
    (g : DecodeErrorGroup) (gs : List DecodeErrorGroup)
    → All (λ x. g.first_seen ≤ x.first_seen) gs
    → Ranked gs
    → Ranked (place_group g gs)
unfolding place_group
Ranked-place_group g [] t r = (tt, tt)
Ranked-place_group g (h ∷ hs) t r = elim (Bool-cases (ltb g.count h.count)) [
  | inl y ↦
      rw y (Before-place_group h g hs (inl (ground arith)) r.0, Ranked-place_group g hs t.1 r.1)
  | inr n ↦
      let le : h.count ≤ g.count = ground arith in
      rw n ((ground arith, Before-rest g h hs le t.1 r.0), r)
]

seen-place_group :
    (k : ℕ) (g : DecodeErrorGroup) (gs : List DecodeErrorGroup)
    → k ≤ g.first_seen
    → All (λ x. k ≤ x.first_seen) gs
    → All (λ x. k ≤ x.first_seen) (place_group g gs)
unfolding place_group
seen-place_group k g [] h a = (h, tt)
seen-place_group k g (x ∷ xs) h a = elim (Bool-cases (ltb g.count x.count)) [
  | inl y ↦ rw y (a.0, seen-place_group k g xs h a.1)
  | inr n ↦ rw n (h, a)
]

seen-sort_stable :
    (k : ℕ) (gs : List DecodeErrorGroup)
    → All (λ n. k ≤ n) (stamps gs)
    → All (λ x. k ≤ x.first_seen) (sort_stable gs)
unfolding sort_stable
seen-sort_stable k [] a = tt
seen-sort_stable k (g ∷ gs) a =
    seen-place_group k g (sort_stable gs) a.0 (seen-sort_stable k gs a.1)

Ranked-sort_stable : (gs : List DecodeErrorGroup) → Rises (stamps gs) → Ranked (sort_stable gs)
unfolding sort_stable
Ranked-sort_stable [] r = tt
Ranked-sort_stable (g ∷ gs) r =
    Ranked-place_group g (sort_stable gs) (seen-sort_stable g.first_seen gs r.0)
      (Ranked-sort_stable gs r.1)

module _ (template_of : String → String) (fingerprint_of : String → String → String) where
  -- After any failures of a session whose clock does not go back, Groups shows as many groups as there are
  -- kinds, those that failed more often first and of those that failed as often the one first that was
  -- first seen first; their counts add up to the number of the failures.
  pub groups-Ranked :
      (fs : List (Failure × ℕ)) (t n : ℕ)
      → Clocked t fs
      → let c = add_all template_of fingerprint_of fs (new_error_collector n) in
        Ranked (groups c) × (length (groups c) ≡ kinds c) × (sum_of (groups c) ≡ length fs)
  unfolding groups
  groups-Ranked fs t n k =
      let c = add_all template_of fingerprint_of fs (new_error_collector n) in
      let (_, all, sum, _) = groups-Falls c (add_all-IsValid template_of fingerprint_of fs n) in
      (
        Ranked-sort_stable (listed c.order c.groups)
            (stamps-add_all template_of fingerprint_of fs t n k),
        all,
        sum ∙ total-add_all template_of fingerprint_of fs n,
      )
