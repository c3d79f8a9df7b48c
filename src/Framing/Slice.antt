-- ===== src/Framing/Slice.antt =====
-- Slices of the byte stream that a TCP peer sends, and the serial numbers of its positions.
use gametrace.Prelude.{
  take, ℕ, zero, suc, ◌+◌, ◌-◌, ◌≤◌, ◌<◌, ◌≡◌, refl, ap, ap₂, true, false, List, [], ◌∷◌, ◌++◌,
  arith, length, drop,
}
use gametrace.Framing.Flow.{word, half_word, u32, sub32, seq_less}

-- The n bytes of the stream `s` from position p on.
abbrev pub slice : (ℕ → ℕ) → ℕ → ℕ → List ℕ
slice s p zero = []
slice s p (suc n) = s p ∷ slice s (suc p) n

pub length-slice : (s : ℕ → ℕ) (p n : ℕ) → length (slice s p n) ≡ n
length-slice s p zero = refl
length-slice s p (suc n) = ap suc (length-slice s (suc p) n)

pub slice_add :
    (s : ℕ → ℕ) (p q m n k : ℕ) → p + m ≡ q → m + n ≡ k → slice s p m ++ slice s q n ≡ slice s p k
slice_add s p q zero n k e f = ap₂ (slice s) (omega arith) (omega arith)
slice_add s p q (suc m) n zero e f = absurd (omega arith)
slice_add s p q (suc m) n (suc k) e f =
    ap (◌∷◌ (s p)) (slice_add s (suc p) q m n k (omega arith) (omega arith))

pub drop-slice :
    (s : ℕ → ℕ) (p q n m k : ℕ) → p + k ≡ q → n ≡ m + k → drop k (slice s p n) ≡ slice s q m
drop-slice s p q n m zero e f = ap₂ (slice s) (omega arith) (omega arith)
drop-slice s p q zero m (suc k) e f = absurd (omega arith)
drop-slice s p q (suc n) m (suc k) e f = drop-slice s (suc p) q n m k (omega arith) (omega arith)

-- The sequence number of position p, for a stream that starts at `isn`.
abbrev pub seq_of : ℕ → ℕ → ℕ
seq_of isn p = u32 (isn + p)

-- Serial number arithmetic is exact within half a word.
pub sub32-seq_of :
    (isn p q : ℕ) → q ≤ p → p < q + word → sub32 (seq_of isn p) (seq_of isn q) ≡ p - q
sub32-seq_of isn p q h w = omega arith

pub seq_less-before :
    (isn p q : ℕ) → p < q → q ≤ p + half_word → seq_less (seq_of isn p) (seq_of isn q) ≡ true
unfolding seq_less
seq_less-before isn p q h w = ground arith

pub seq_less-after :
    (isn p q : ℕ) → q ≤ p → p < q + half_word → seq_less (seq_of isn p) (seq_of isn q) ≡ false
unfolding seq_less
seq_less-after isn p q h w = ground arith

pub take-slice : (s : ℕ → ℕ) (p n m : ℕ) → n ≤ m → take n (slice s p m) ≡ slice s p n
take-slice s p zero m h = refl
take-slice s p (suc n) zero h = absurd (omega arith)
take-slice s p (suc n) (suc m) h = ap (◌∷◌ (s p)) (take-slice s (suc p) n m (omega arith))
