-- ===== src/ErrorCollector/Tests.antt =====
-- Runs of pkg/decode/errorcol.go: a collector with room for one kind of failure.
use gametrace.Prelude.{
  length, arith, ℕ, ◌≡◌, ◌≢◌, refl, List, [], ◌∷◌, some, arith, length, String, ap, ◌≤◌,
}
use gametrace.Prelude.Map.{lookup, insert, delete}
use gametrace.Prelude.Text.{text_dec}
use gametrace.ErrorCollector.Template.{
  Patterns, rune_count, truncate_runes, error_template, error_template-bounded,
  err_template_max_len,
}
use gametrace.ErrorCollector.Collector.{
  DecodeErrorGroup, ErrorCollector, Failure, overflow_fingerprint, new_group, counted, add_to,
  overflows, add, new_error_collector, groups, kinds, total,
}
use gametrace.ErrorCollector.Bounds.{occurrences}
use gametrace.ErrorCollector.Tally.{add_all, fingerprints, count-add_all}
use gametrace.ErrorCollector.Listing.{sum_of}
use gametrace.ErrorCollector.Ranking.{Ranked, groups-Ranked}

-- Patterns that find nothing, and a fingerprint that is the template.
abbrev none_found : Patterns
none_found = record {
  uuid = λ s. s;
  addr = λ s. s;
  hex = λ s. s;
  num = λ s. s;
  space = λ s. s;
  trim = λ s. s;
}

abbrev template : String → String
template s = s

abbrev same : String → String → String
same kind tpl = tpl

abbrev failed : String → Failure
failed msg = record { kind = "plugin"; raw_id = "r"; src = "a"; dst = "b"; msg = msg }

abbrev failures : List (Failure × ℕ)
failures =
    (failed "bad tag", 4) ∷ (failed "eof", 3) ∷ (failed "bad tag", 2) ∷ (failed "eof", 1) ∷ []

abbrev collected : ErrorCollector
collected = add_all template same failures (new_error_collector 1)

-- The second kind has no room: its two failures are counted together.
collected_counts :
    (kinds collected ≡ 2)
    × (total collected ≡ 4)
    × (collected.order ≡ "eof" ∷ overflow_fingerprint ∷ [])
unfolding add_all add add_to overflows counted lookup insert delete text_dec
collected_counts = (refl, refl, refl)

abbrev eof_group : DecodeErrorGroup
eof_group = record {
  fingerprint = "eof";
  kind = "plugin";
  template = "eof";
  sample = "eof";
  sample_raw_id = "r";
  sample_src = "a";
  sample_dst = "b";
  count = 2;
  first_seen = 1;
  last_seen = 3;
}

eof_found : lookup text_dec "eof" collected.groups ≡ some eof_group
unfolding add_all add add_to overflows counted lookup insert delete text_dec truncate_runes
eof_found = refl

-- A failure without a text names the last packet, since its sample stays empty.
unnamed_sample :
    (id : String)
    → (counted
        (record (failed "") { raw_id = id })
        5
        (new_group "f" "plugin" "(empty error)" 4)).sample
      ≡ ""
unfolding counted truncate_runes text_dec
unnamed_sample id = refl

error_template-bounded_example :
    (error_template none_found "bad tag" ≢ "")
    × (rune_count (error_template none_found "bad tag") ≤ err_template_max_len)
error_template-bounded_example = error_template-bounded none_found "bad tag"

eof_is_not_overflow : ◌≢◌ {A = String} "eof" overflow_fingerprint
eof_is_not_overflow e = omega (arith, ap rune_count e)

count-add_all_example : 2 ≡ occurrences "eof" (fingerprints template same failures)
count-add_all_example =
    count-add_all template same failures 1 "eof" eof_group eof_is_not_overflow eof_found

groups-Ranked_example :
    Ranked (groups collected)
    × (length (groups collected) ≡ kinds collected)
    × (sum_of (groups collected) ≡ length failures)
groups-Ranked_example =
    groups-Ranked template same failures 9 1
      (omega arith, (omega arith, (omega arith, (omega arith, tt))))
