-- ===== src/Lease/Holding.antt =====
-- Ports that several holders have, each its own, out of a list of used ones.
use gametrace.Prelude.{
  ℕ, ◌≡◌, ◌≢◌, refl, sym, ap, ◌∙◌, true, false, List, [], ◌∷◌, Option, none, some, arith, inl, inr,
  ◌⊎◌,
}
use gametrace.Lease.Ports.{is_used, remove}

is_used-remove : (p q : ℕ) (l : List ℕ) → p ≢ q → is_used q (remove p l) ≡ is_used q l
is_used-remove p q [] n = refl
is_used-remove p q (x ∷ xs) n = ground (arith, is_used-remove p q xs n)

module _ {H : Type 0} where
  -- `held` says which port a holder has. No two holders have one port, and it is marked as used.
  pub record Holding (held : H → Option ℕ) (used : List ℕ) : Type 0 where
    pub apart : (h k : H) (p : ℕ) → held h ≡ some p → held k ≡ some p → h ≡ k
    pub marked : (h : H) (p : ℕ) → held h ≡ some p → is_used p used ≡ true

  -- Who holds no more than before still holds apart.
  pub Holding-fewer :
      (f g : H → Option ℕ) (used : List ℕ)
      → Holding f used
      → ((h : H) (p : ℕ) → g h ≡ some p → f h ≡ some p)
      → Holding g used
  Holding-fewer f g used a e = record {
    apart = λ h k p x y. a.apart h k p (e h p x) (e k p y);
    marked = λ h p x. a.marked h p (e h p x);
  }

  -- A free port for a holder.
  pub Holding-take :
      (f g : H → Option ℕ) (used : List ℕ) (h₀ : H) (p : ℕ)
      → Holding f used
      → is_used p used ≡ false
      → ((h : H) (q : ℕ) → g h ≡ some q → (f h ≡ some q) ⊎ ((h ≡ h₀) × (q ≡ p)))
      → Holding g (p ∷ used)
  Holding-take f g used h₀ p a free e = record {
    apart = λ h k q x y. elim (e h q x) [
      | inl fh ↦ elim (e k q y) [
        | inl fk ↦ a.apart h k q fh fk
        | inr (k₀, qp) ↦ absurd (ground (arith, a.marked h q fh))
      ]
      | inr (h₀', qp) ↦ elim (e k q y) [
        | inl fk ↦ absurd (ground (arith, a.marked k q fk))
        | inr (k₀, qp') ↦ h₀' ∙ sym k₀
      ]
    ];
    marked = λ h q x. elim (e h q x) [
      | inl fh ↦ ground (arith, a.marked h q fh)
      | inr (h₀', qp) ↦ ground (arith)
    ];
  }

  -- A holder that has given its port back.
  pub Holding-give :
      (f g : H → Option ℕ) (used : List ℕ) (p : ℕ)
      → Holding f used
      → ((h : H) (q : ℕ) → g h ≡ some q → (f h ≡ some q) × (q ≢ p))
      → Holding g (remove p used)
  Holding-give f g used p a e = record {
    apart = λ h k q x y. a.apart h k q (e h q x).0 (e k q y).0;
    marked = λ h q x. is_used-remove p q used (λ s. (e h q x).1 (sym s)) ∙ a.marked h q (e h q x).0;
  }

  -- A port that goes from one holder to another, which loses what it had.
  pub Holding-pass :
      (dec : Discrete H) (f g : H → Option ℕ) (used : List ℕ) (from to : H)
      → Holding f used
      → g from ≡ none
      → g to ≡ f from
      → ((h : H) (q : ℕ) → g h ≡ some q → h ≢ to → f h ≡ some q)
      → Holding g used
  Holding-pass dec f g used from to a lost got e = record {
    apart = λ h k p x y. elim (dec h to) [
      | yes ht ↦ elim (dec k to) [
        | yes kt ↦ ht ∙ sym kt
        | no kn ↦
            absurd
              (from_is k p (got_it h p ht x) y (a.apart from k p (got_it h p ht x) (e k p y kn)))
      ]
      | no hn ↦ elim (dec k to) [
        | yes kt ↦
            absurd
              (from_is h p (got_it k p kt y) x (a.apart from h p (got_it k p kt y) (e h p x hn)))
        | no kn ↦ a.apart h k p (e h p x hn) (e k p y kn)
      ]
    ];
    marked = λ h p x. elim (dec h to) [
      | yes ht ↦ a.marked from p (got_it h p ht x)
      | no hn ↦ a.marked h p (e h p x hn)
    ];
  }
    where
      got_it : (h : H) (p : ℕ) → h ≡ to → g h ≡ some p → f from ≡ some p
      got_it h p ht x = sym got ∙ (ap g (sym ht) ∙ x)

      from_is : (k : H) (p : ℕ) → f from ≡ some p → g k ≡ some p → from ≡ k → ⊥
      from_is k p x y ek = let z : none ≡ some p = sym lost ∙ (ap g ek ∙ y) in cc z
