-- ===== src/Rule/Ids.antt =====
-- The ids of rules that sdk/rule/rule.go accepts, as a grammar, and the labels that an annotate rule may give.
use gametrace.Prelude.{
  ℕ, String, true, false, ◌≡◌, ◌≤◌, ◌↔◌, ◌⊎◌, inl, inr, refl, List, [], ◌∷◌, arith, ℕ_discrete,
  subst, sym, ap,
}
use gametrace.Prelude.Text.{codes}
use gametrace.Rule.Semantic.{
  Semantic, unset, unknown, request, response, notification, error, sem_closed, id_matches,
  in_segment,
}

-- A code point from `a` to `z`, and one of those, of `0` to `9` and `_`.
abbrev pub IsLetter : ℕ → Type 0
IsLetter c = (97 ≤ c) × (c ≤ 122)

abbrev pub IsLetterOrDigit : ℕ → Type 0
IsLetterOrDigit c = IsLetter c ⊎ (((48 ≤ c) × (c ≤ 57)) ⊎ (c ≡ 95))

-- Segments with a dot between each two: a segment begins with a letter and goes on with letters, digits
-- and underscores; the second type is what may follow inside a segment.
mutual
  pub data Dotted : List ℕ → Type 0 where
    begins_with : (c : ℕ) (cs : List ℕ) → IsLetter c → Within cs → Dotted (c ∷ cs)

  pub data Within : List ℕ → Type 0 where
    ends : Within []
    goes_on : (c : ℕ) (cs : List ℕ) → IsLetterOrDigit c → Within cs → Within (c ∷ cs)
    dot : (cs : List ℕ) → Dotted cs → Within (46 ∷ cs)

mutual
  sound_start : (cs : List ℕ) → in_segment true cs ≡ true → Dotted cs
  sound_start [] h = absurd (cc)
  sound_start (c ∷ cs) h = begins_with c cs (ground arith) (sound_inner cs (ground arith))

  sound_inner : (cs : List ℕ) → in_segment false cs ≡ true → Within cs
  sound_inner [] h = ends
  sound_inner (c ∷ cs) h = elim (ℕ_discrete c 46) [
    | yes e ↦ subst (λ k. Within (k ∷ cs)) (sym e) (dot cs (sound_start cs (ground arith)))
    | no n ↦ goes_on c cs (ground arith) (sound_inner cs (ground arith))
  ]

mutual
  complete_start : (cs : List ℕ) → Dotted cs → in_segment true cs ≡ true
  complete_start (_) (begins_with c cs l w) = ground (arith, complete_inner cs w)

  complete_inner : (cs : List ℕ) → Within cs → in_segment false cs ≡ true
  complete_inner (_) ends = refl
  complete_inner (_) (goes_on c cs l w) = ground (arith, complete_inner cs w)
  complete_inner (_) (dot cs d) = ground (arith, complete_start cs d)

pub id_matches-Dotted : (s : String) → (id_matches s ≡ true) ↔ Dotted (codes s)
unfolding id_matches
id_matches-Dotted s = (sound_start (codes s), complete_start (codes s))

-- The four labels.
abbrev pub IsLabel : Semantic → Type 0
IsLabel s = (s ≡ request) ⊎ ((s ≡ response) ⊎ ((s ≡ notification) ⊎ (s ≡ error)))

is_label : (s : Semantic) → sem_closed s ≡ true → IsLabel s
is_label request h = inl refl
is_label response h = inr (inl refl)
is_label notification h = inr (inr (inl refl))
is_label error h = inr (inr (inr refl))
is_label unset h = cc
is_label (unknown s) h = cc

closed_label : (s : Semantic) → IsLabel s → sem_closed s ≡ true
closed_label s (inl e) = ap sem_closed e
closed_label s (inr (inl e)) = ap sem_closed e
closed_label s (inr (inr (inl e))) = ap sem_closed e
closed_label s (inr (inr (inr e))) = ap sem_closed e

pub sem_closed-IsLabel : (s : Semantic) → (sem_closed s ≡ true) ↔ IsLabel s
sem_closed-IsLabel s = (is_label s, closed_label s)
