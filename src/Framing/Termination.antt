-- ===== src/Framing/Termination.antt =====
-- The loop `drain` of sdk/framing/framing.go as a relation, and that it ends.
use gametrace.Prelude.{
  ℕ, zero, suc, ◌≤◌, ◌<◌, ◌≡◌, refl, sym, ap, true, false, arith, length, Bool-cases, inl, inr,
  subst,
}
use gametrace.Framing.Flow.{FlowState, first_pass, after_pass, drain_loop, drain}
use gametrace.Framing.Draining.{flag, first_pass-shrinks, loop-on, loop-off}

-- The loop of the source, with no fuel: a pass that does not advance is the last one, and after one that
-- advances the loop goes on. The number is that of the passes.
pub data Drains : ℕ → FlowState → FlowState → Type 0 where
  last_pass :
      (fs : FlowState)
      → (first_pass fs).advanced ≡ false
      → Drains 1 fs (after_pass fs (first_pass fs))
  next_pass :
      (n : ℕ) (fs out : FlowState)
      → (first_pass fs).advanced ≡ true
      → Drains n (after_pass fs (first_pass fs)) out
      → Drains (suc n) fs out

Drains-drain_loop :
    (fuel : ℕ) (fs : FlowState)
    → length fs.oob < fuel
    → (n : ℕ) × (n ≤ suc (length fs.oob)) × Drains n fs (drain_loop fuel fs)
Drains-drain_loop zero fs h = absurd (omega arith)
Drains-drain_loop (suc fuel) fs h = elim (Bool-cases (first_pass fs).advanced) [
  | inl on ↦
      let less = first_pass-shrinks fs in
      let (n, few, rest) =
        Drains-drain_loop fuel (after_pass fs (first_pass fs)) (omega (arith, less, ap flag on)) in
      (
        suc n,
        omega (arith, few, less, ap flag on),
        next_pass n fs _ on (subst (Drains n _) (sym (loop-on fuel fs on)) rest),
      )
  | inr off ↦ (1, omega arith, subst (Drains 1 fs) (sym (loop-off fuel fs off)) (last_pass fs off))
]

Drains-unique : (n m : ℕ) (fs a b : FlowState) → Drains n fs a → Drains m fs b → (n ≡ m) × (a ≡ b)
Drains-unique n m fs a b (last_pass _ _) (last_pass _ _) = (refl, refl)
Drains-unique n m fs a b (last_pass _ p) (next_pass k _ _ q e) = cc
Drains-unique n m fs a b (next_pass k _ _ q e) (last_pass _ p) = cc
Drains-unique n m fs a b (next_pass k _ _ p d) (next_pass l _ _ q e) =
    let (x, y) = Drains-unique k l _ _ _ d e in (ap suc x, y)

-- The loop `drain` ends, by its own test, after at most one pass more than there are parked segments, and
-- what it leaves is what `drain` gives; no other run of it is possible.
pub drain-Drains :
    (fs : FlowState)
    → (n : ℕ) × (n ≤ suc (length fs.oob))
      × Drains n fs (drain fs)
      × ((m : ℕ) (out : FlowState) → Drains m fs out → (m ≡ n) × (out ≡ drain fs))
unfolding drain
drain-Drains fs =
    let (n, few, done) = Drains-drain_loop (suc (length fs.oob)) fs (omega arith) in
    (n, few, done, λ m out d. Drains-unique m n fs out _ d done)
