-- ===== src/ErrorCollector/Template.antt =====
-- errorTemplate, errorFingerprint and truncateRunes of pkg/decode/errorcol.go. The regular expressions
-- and the hash are arguments: nothing here depends on what they do.
use Prim.Native.String.{len}
use Prim.Native.String.len
use text.Mathlib.TextPositions.{len_utf8-pos}
use gametrace.Prelude.{
  ℕ, zero, suc, ◌≤◌, ◌<◌, String, ◌≡◌, ◌≢◌, refl, ap, arith, test, leb, if◌then◌else◌,
}
use gametrace.Prelude.Text.{text_dec}

abbrev pub err_sample_max_len : ℕ
err_sample_max_len = 512

abbrev pub err_template_max_len : ℕ
err_template_max_len = 240

-- len([]rune(s))
abbrev pub rune_count : String → ℕ
rune_count String.[] = 0
rune_count (String.◌∷◌ c s) = suc (rune_count s)

-- string([]rune(s)[:n])
abbrev pub take_runes : ℕ → String → String
take_runes zero s = ""
take_runes (suc n) String.[] = ""
take_runes (suc n) (String.◌∷◌ c s) = String.◌∷◌ c (take_runes n s)

unfoldable pub truncate_runes : String → ℕ → String
truncate_runes s max =
    if leb (len s) max then s else if leb (rune_count s) max then s else take_runes max s

rune_count-take_runes : (n : ℕ) (s : String) → rune_count (take_runes n s) ≤ n
rune_count-take_runes zero s = omega arith
rune_count-take_runes (suc n) String.[] = omega arith
rune_count-take_runes (suc n) (String.◌∷◌ c s) = omega (arith, rune_count-take_runes n s)

-- A text has no more runes than bytes.
rune_count-le-len : (s : String) → rune_count s ≤ len s
rune_count-le-len String.[] = omega arith
rune_count-le-len (String.◌∷◌ c s) =
    omega (arith, len.cons c s, (len_utf8-pos c).1, rune_count-le-len s)

rune_count-truncate_runes : (s : String) (max : ℕ) → rune_count (truncate_runes s max) ≤ max
unfolding truncate_runes
rune_count-truncate_runes s max = ground (arith, rune_count-le-len s, rune_count-take_runes max s)

take_runes_empty : (n : ℕ) (s : String) → 0 < n → take_runes n s ≡ "" → s ≡ ""
take_runes_empty zero s p h = absurd (omega arith)
take_runes_empty (suc n) String.[] p h = refl
take_runes_empty (suc n) (String.◌∷◌ c s) p h = absurd (omega (arith, ap rune_count h))

truncate_runes_empty : (s : String) (max : ℕ) → 0 < max → truncate_runes s max ≡ "" → s ≡ ""
unfolding truncate_runes
truncate_runes_empty s max p h = ground (arith, take_runes_empty max s p)

-- What ReplaceAllString does for the five patterns, and strings.TrimSpace.
pub record Patterns : Type 0 where
  pub uuid : String → String
  pub addr : String → String
  pub hex : String → String
  pub num : String → String
  pub space : String → String
  pub trim : String → String

module _ (re : Patterns) where
  -- errorTemplate
  unfoldable pub error_template : String → String
  error_template msg =
      let s0 = truncate_runes msg err_sample_max_len in
      let s = re.trim (re.space (re.num (re.hex (re.addr (re.uuid s0))))) in
      if test (text_dec s "") then "(empty error)" else truncate_runes s err_template_max_len

  -- A template is never empty and never longer than its limit.
  pub error_template-bounded :
      (msg : String)
      → (error_template msg ≢ "") × (rune_count (error_template msg) ≤ err_template_max_len)
  unfolding error_template
  error_template-bounded msg =
      let s0 = truncate_runes msg err_sample_max_len in
      let s = re.trim (re.space (re.num (re.hex (re.addr (re.uuid s0))))) in
      elim (text_dec s "")
        as (λ (d : Dec (s ≡ "")).
          ((if test d then "(empty error)" else truncate_runes s err_template_max_len) ≢ "")
          × (rune_count (if test d then "(empty error)" else truncate_runes s err_template_max_len)
              ≤ err_template_max_len)) [
                | yes e ↦ (λ f. omega (arith, ap rune_count f), omega arith)
                | no n ↦ (
                  λ f. n (truncate_runes_empty s err_template_max_len (omega arith) f),
                  rune_count-truncate_runes s err_template_max_len,
                )
              ]
