-- ===== src/ErrorCollector/Collector.antt =====
-- ErrorCollector of pkg/decode/errorcol.go. The mutex makes an operation one step; the clock's reading
-- is an argument, and so is the template and the fingerprint of a failure.
use gametrace.Prelude.{
  ℕ, suc, String, Bool, false, not, ◌&&◌, List, [], ◌∷◌, ◌++◌, none, some, test, length, leb, ltb,
  if◌then◌else◌,
}
use gametrace.Prelude.Map.{Map, lookup, insert}
use gametrace.Prelude.Text.{text_dec}
use gametrace.ErrorCollector.Template.{truncate_runes, err_sample_max_len}

pub record DecodeErrorGroup : Type 0 where
  pub fingerprint : String
  pub kind : String
  pub template : String
  pub sample : String
  pub sample_raw_id : String
  pub sample_src : String
  pub sample_dst : String
  pub count : ℕ
  pub first_seen : ℕ
  pub last_seen : ℕ

pub record ErrorCollector : Type 0 where
  pub groups : Map String DecodeErrorGroup
  pub order : List String
  pub total : ℕ
  pub max_size : ℕ

abbrev pub default_max_error_groups : ℕ
default_max_error_groups = 32

abbrev pub overflow_fingerprint : String
overflow_fingerprint = "overflow"

abbrev pub overflow_template : String
overflow_template = "其他解码错误（种类已超上限，仅计数）"

-- NewErrorCollector with WithMaxErrorGroups(n); a number below 0 is treated as 0 is.
abbrev pub new_error_collector : ℕ → ErrorCollector
new_error_collector n = record {
  groups = [];
  order = [];
  total = 0;
  max_size = if ltb 0 n then n else default_max_error_groups;
}

-- What a caller says of a failure.
pub record Failure : Type 0 where
  pub kind : String
  pub raw_id : String
  pub src : String
  pub dst : String
  pub msg : String

abbrev pub new_group : String → String → String → ℕ → DecodeErrorGroup
new_group fp kind tpl now = record {
  fingerprint = fp;
  kind = kind;
  template = tpl;
  sample = "";
  sample_raw_id = "";
  sample_src = "";
  sample_dst = "";
  count = 0;
  first_seen = now;
  last_seen = now;
}

-- The end of Add: one more of a group, which keeps the first sample that has a text.
unfoldable pub counted : Failure → ℕ → DecodeErrorGroup → DecodeErrorGroup
counted f now g =
    let h : DecodeErrorGroup = record g { count = suc g.count; last_seen = now } in
    if test (text_dec g.sample "")
    then record h {
      sample = truncate_runes f.msg err_sample_max_len;
      sample_raw_id = f.raw_id;
      sample_src = f.src;
      sample_dst = f.dst;
    }
    else h

-- The group `fp` gets the failure; it is made, at the end of the order, if it is not there.
unfoldable pub add_to : String → String → Failure → ℕ → ErrorCollector → ErrorCollector
add_to fp tpl f now c = elim (lookup text_dec fp c.groups) [
  | none ↦ record c {
    groups = insert text_dec fp (counted f now (new_group fp f.kind tpl now)) c.groups;
    order = c.order ++ fp ∷ [];
    total = suc c.total;
  }
  | some g ↦ record c {
    groups = insert text_dec fp (counted f now g) c.groups;
    total = suc c.total;
  }
]

-- Whether a failure of a new kind finds the table full.
unfoldable pub overflows : String → ErrorCollector → Bool
overflows fp c = elim (lookup text_dec fp c.groups) [
  | none ↦ not (test (text_dec fp overflow_fingerprint)) && leb c.max_size (length c.groups)
  | some g ↦ false
]

module _ (template_of : String → String) (fingerprint_of : String → String → String) where
  unfoldable pub add : Failure → ℕ → ErrorCollector → ErrorCollector
  add f now c =
      let tpl = template_of f.msg in
      let fp = fingerprint_of f.kind tpl in
      if overflows fp c
      then add_to overflow_fingerprint overflow_template f now c
      else add_to fp tpl f now c

-- The groups in the order in which they were first seen.
unfoldable pub listed : List String → Map String DecodeErrorGroup → List DecodeErrorGroup
listed [] gs = []
listed (fp ∷ fps) gs =
    let rest = listed fps gs in elim (lookup text_dec fp gs) [ none ↦ rest | some g ↦ g ∷ rest ]

-- sort.SliceStable by falling counts.
unfoldable pub place_group : DecodeErrorGroup → List DecodeErrorGroup → List DecodeErrorGroup
place_group g [] = g ∷ []
place_group g (h ∷ hs) =
    let rest = place_group g hs in if ltb g.count h.count then h ∷ rest else g ∷ h ∷ hs

unfoldable pub sort_stable : List DecodeErrorGroup → List DecodeErrorGroup
sort_stable [] = []
sort_stable (g ∷ gs) = place_group g (sort_stable gs)

unfoldable pub groups : ErrorCollector → List DecodeErrorGroup
groups c = sort_stable (listed c.order c.groups)

abbrev pub total : ErrorCollector → ℕ
total c = c.total

abbrev pub kinds : ErrorCollector → ℕ
kinds c = length c.groups
