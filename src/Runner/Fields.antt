-- ===== src/Runner/Fields.antt =====
-- src/eda_lab/runner.py with src/eda_lab/parser.py: the fields of the synthetic adapter's report, read
-- line by line, with the padding behind them.
use semiconductor_domain_lab.Prelude.{
  ℕ, suc, ◌-◌, if◌then◌else◌, ltb, String, Bool, true, false, none, some, List, [], ◌∷◌, ◌++◌, ◌≡◌,
  refl, arith, ◌==◌, not, ◌&&◌,
}
use Prim.Native.Char.{Char, code}
use semiconductor_domain_lab.Prelude.Text.{
  ◌<>◌, starts_with, split_lines, split_once, strip, is_line, all_lines, onto_first, size, repeat,
}
use semiconductor_domain_lab.Models.{pos, Decimal, JobSpec}
use semiconductor_domain_lab.Parser.Numbers.{SlackUnit, read_int, int_digits, read_slack, is_finite}
use semiconductor_domain_lab.Parser.Synthetic.{
  Values, Checked, missing_fields, finish_fields, finish_checked, synthetic_finish, check_fields,
  check_version, check_exit, check_slack, lookup, set_value, add_field, take_field, read_line,
  read_lines,
}
use semiconductor_domain_lab.Runner.Synthetic.{
  first_fields, synthetic_fields, padding_line, padding,
}

-- There is no "=" in the text.
unfoldable pub plain : String → Bool
plain String.[] = true
plain (String.◌∷◌ c s) = let rest = plain s in not (code c == 61) && rest

unfoldable pub all_plain : List String → Bool
unfolding plain
all_plain [] = true
all_plain (l ∷ ls) = let rest = all_plain ls in plain l && rest

onto_first-plain :
    (c : Char) (ls : List String)
    → not (code c == 61) ≡ true
    → all_plain ls ≡ true
    → all_plain (onto_first c ls) ≡ true
unfolding plain all_plain
onto_first-plain c [] h k = ground arith
onto_first-plain c (l ∷ ls) h k = ground arith

pub plain-split_lines : (s : String) → plain s ≡ true → all_plain (split_lines s) ≡ true
unfolding plain all_plain split_lines
plain-split_lines String.[] h = refl
plain-split_lines (String.◌∷◌ c s) h =
    ground (arith, plain-split_lines s, onto_first-plain c (split_lines s))

plain-split_once : (s : String) → plain s ≡ true → split_once s ≡ none
unfolding plain split_once
plain-split_once String.[] h = refl
plain-split_once (String.◌∷◌ c s) h = ground (arith, plain-split_once s)

plain-append : (s t : String) → plain s ≡ true → plain t ≡ true → plain (s <> t) ≡ true
unfolding plain ◌<>◌
plain-append String.[] t h k = k
plain-append (String.◌∷◌ c s) t h k = ground (arith, plain-append s t)

plain-repeat : (n : ℕ) → plain (repeat "x" n) ≡ true
unfolding plain repeat
plain-repeat ℕ.zero = refl
plain-repeat (suc n) = plain-repeat n

pub plain-padding : (n : ℕ) (payload : String) → plain (padding n payload) ≡ true
unfolding plain padding
plain-padding n payload =
    elim (ltb (size payload) n)
      as (λ long.
        plain (if long then padding_line <> repeat "x" (n - size payload) else "") ≡ true) [
          | true ↦
              plain-append padding_line (repeat "x" (n - size payload)) refl
                (plain-repeat (n - size payload))
          | false ↦ refl
        ]

read_line-plain :
    (k : ℕ) (l : String) (state : Values × List String)
    → plain l ≡ true
    → read_line k l state ≡ state
unfolding read_line take_field
read_line-plain k l state h = ground (arith, plain-split_once l h)

-- Lines without "=" are passed over.
pub read_lines-plain :
    (k : ℕ) (ls : List String) (state : Values × List String)
    → all_plain ls ≡ true
    → read_lines k ls state ≡ state
unfolding read_lines read_line all_plain
read_lines-plain k [] state h = refl
read_lines-plain k (l ∷ ls) state h =
    rw (read_line-plain k l state (ground arith)) (read_lines-plain (suc k) ls state (ground arith))

-- The values that the lines of a report give.
abbrev pub first_values : String → String → Values
first_values job_id corner =
    ("fixture_source", "synthetic")
    ∷ ("fixture_format_version", "1")
    ∷ ("run_id", strip job_id)
    ∷ ("stage", "timing")
    ∷ ("corner", strip corner)
    ∷ ("tool_exit_code", "0")
    ∷ []

abbrev pub values_of : String → String → String → Values
values_of job_id corner slack =
    ("fixture_source", "synthetic")
    ∷ ("fixture_format_version", "1")
    ∷ ("run_id", strip job_id)
    ∷ ("stage", "timing")
    ∷ ("corner", strip corner)
    ∷ ("tool_exit_code", "0")
    ∷ ("worst_slack", strip slack)
    ∷ []

pub read_fields :
    (show : Decimal → String) (spec : JobSpec) (rest : List String)
    → read_lines 1 (synthetic_fields show spec ++ rest) ([], [])
      ≡ read_lines 9 rest
          (values_of spec.job_id spec.corner (show spec.worst_slack <> (" " <> spec.unit)), [])
unfolding read_lines read_line take_field add_field lookup set_value split_once synthetic_fields
    strip starts_with
read_fields show spec rest = refl

pub synthetic_fields-lines :
    (show : Decimal → String) (spec : JobSpec)
    → is_line spec.job_id ≡ true
    → is_line spec.corner ≡ true
    → is_line (show spec.worst_slack <> (" " <> spec.unit)) ≡ true
    → all_lines (synthetic_fields show spec) ≡ true
unfolding all_lines synthetic_fields is_line
synthetic_fields-lines show spec h k l = ground (arith, h, k, l)

pub finish_values :
    (job_id corner slack sha : String) (d : Decimal) (u : SlackUnit)
    → read_slack (strip slack) ≡ some (d, u)
    → is_finite d ≡ true
    → synthetic_finish (values_of job_id corner slack) [] sha
      ≡ finish_checked
          (values_of job_id corner slack)
          sha
          (Checked.checked (record { version = pos 1; exit_code = pos 0; numeric = d; unit = u }))
unfolding synthetic_finish missing_fields lookup finish_fields check_fields check_version check_exit
    check_slack read_int int_digits
finish_values job_id corner slack sha d u h k = rw h (rw k refl)

-- The fields without the last one.
pub read_first_fields :
    (spec : JobSpec) (rest : List String)
    → read_lines 1 (first_fields spec ++ rest) ([], [])
      ≡ read_lines 8 rest (first_values spec.job_id spec.corner, [])
unfolding read_lines read_line take_field add_field lookup set_value split_once strip starts_with
    ◌<>◌
read_first_fields spec rest = refl

pub first_fields-lines :
    (spec : JobSpec)
    → is_line spec.job_id ≡ true
    → is_line spec.corner ≡ true
    → all_lines (first_fields spec) ≡ true
unfolding all_lines is_line ◌<>◌
first_fields-lines spec h k = ground (arith, h, k)
