-- ===== src/Lease/Allocation.antt =====
-- What a port range gives out.
use native.Mathlib.Nat.{add-mod_right, mod-lt, mod-eq_of_lt}
use gametrace.Prelude.{
  ℕ, zero, suc, ◌+◌, ◌-◌, ◌%◌, ◌≤◌, ◌<◌, ◌≡◌, refl, ap, subst, ◌∙◌, true, false, ◌∷◌, Option, none,
  some, arith, Bool-cases, le_cases, inl, inr,
}
use gametrace.Lease.Ports.{PortRange, is_used, width, port_at, allocate_loop, allocate}

pub record IsRange (pr : PortRange) : Type 0 where
  pub nonempty : pr.base ≤ pr.max
  pub turned : pr.cursor < width pr

abbrev pub InRange : ℕ → PortRange → Type 0
InRange p pr = (pr.base ≤ p) × (p ≤ pr.max)

-- A port that was free is marked, and that is all.
pub record Gives (pr : PortRange) (p : ℕ) (next : PortRange) : Type 0 where
  pub in_range : InRange p pr
  pub was_free : is_used p pr.used ≡ false
  pub marked : next.used ≡ p ∷ pr.used
  pub still : IsRange next
  pub same_base : next.base ≡ pr.base
  pub same_max : next.max ≡ pr.max

Gives-round :
    (pr : PortRange) (i : ℕ)
    → IsRange pr
    → is_used (port_at pr i) pr.used ≡ false
    → Gives pr
        (port_at pr i)
        (record pr { used = port_at pr i ∷ pr.used; cursor = (pr.cursor + i + 1) % width pr })
Gives-round pr i r free =
    let lt = mod-lt (pr.cursor + i) {m = width pr} (omega arith) in
    record {
      in_range = (omega arith, omega (arith, lt, r.nonempty));
      was_free = free;
      marked = refl;
      still = record {
        nonempty = r.nonempty;
        turned = mod-lt (pr.cursor + i + 1) {m = width pr} (omega arith);
      };
      same_base = refl;
      same_max = refl;
    }

Allocated : PortRange → ℕ → ℕ → Option (ℕ × PortRange) → Type 0
Allocated pr k i (some (p, next)) = Gives pr p next
Allocated pr k i none = (t : ℕ) → i ≤ t → t < i + k → is_used (port_at pr t) pr.used ≡ true

Allocated-earlier :
    (pr : PortRange) (k i : ℕ)
    → is_used (port_at pr i) pr.used ≡ true
    → (o : Option (ℕ × PortRange)) → Allocated pr k (suc i) o
    → Allocated pr (suc k) i o
unfolding Allocated
Allocated-earlier pr k i used (some (p, next)) a = a
Allocated-earlier pr k i used none a = λ t h l. elim (le_cases (suc i) t) [
  | inl later ↦ a t later (omega arith)
  | inr here ↦ subst (λ j. is_used (port_at pr j) pr.used ≡ true) (omega arith) used
]

Allocated-allocate_loop :
    (pr : PortRange) (k i : ℕ) → IsRange pr → Allocated pr k i (allocate_loop pr k i)
unfolding allocate_loop Allocated
Allocated-allocate_loop pr zero i r = λ t h l. absurd (omega arith)
Allocated-allocate_loop pr (suc k) i r = elim (Bool-cases (is_used (port_at pr i) pr.used)) [
  | inl used ↦ rw used (
      Allocated-earlier pr k i used (allocate_loop pr k (suc i))
        (Allocated-allocate_loop pr k (suc i) r))
  | inr free ↦ rw free (Gives-round pr i r free)
]

-- Every port of the range has its round.
round_of :
    (pr : PortRange) (p : ℕ)
    → IsRange pr
    → InRange p pr
    → (t : ℕ) × (t < width pr) × (port_at pr t ≡ p)
round_of pr p r h =
    let j = p - pr.base in
    let w = width pr in
    elim (le_cases pr.cursor j) [
      | inl ahead ↦
          let t = j - pr.cursor in
          let e : pr.cursor + t ≡ j = omega arith in
          let m : (pr.cursor + t) % w ≡ j =
            ap (λ n. n % w) e ∙ mod-eq_of_lt {n = j} {m = w} (omega (arith, r.nonempty)) in
          (t, omega (arith, r.nonempty), omega (arith, m))
      | inr behind ↦
          let t = j + w - pr.cursor in
          let e : pr.cursor + t ≡ j + w = omega (arith, r.turned) in
          let m : (pr.cursor + t) % w ≡ j =
            ap (λ n. n % w) e
            ∙ (add-mod_right j w ∙ mod-eq_of_lt {n = j} {m = w} (omega (arith, r.nonempty))) in
          (t, omega (arith, r.turned), omega (arith, m))
    ]

unfoldable pub Outcome : PortRange → Option (ℕ × PortRange) → Type 0
Outcome pr (some (p, next)) = Gives pr p next
Outcome pr none = (p : ℕ) → InRange p pr → is_used p pr.used ≡ true

Outcome-Allocated :
    (pr : PortRange) (o : Option (ℕ × PortRange))
    → IsRange pr
    → Allocated pr (width pr) 0 o
    → Outcome pr o
unfolding Allocated Outcome
Outcome-Allocated pr (some (p, next)) r a = a
Outcome-Allocated pr none r a = λ p h.
    let (t, l, e) = round_of pr p r h in
    subst (λ q. is_used q pr.used ≡ true) e (a t (omega arith) (omega arith))

-- A range gives out a port of its own that was free and marks it as used; it refuses only if every
-- port of the range is used.
pub allocate-Outcome : (pr : PortRange) → IsRange pr → Outcome pr (allocate pr)
unfolding allocate
allocate-Outcome pr r = Outcome-Allocated pr _ r (Allocated-allocate_loop pr (width pr) 0 r)
