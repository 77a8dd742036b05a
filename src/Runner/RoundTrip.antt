-- ===== src/Runner/RoundTrip.antt =====
-- src/eda_lab/runner.py with src/eda_lab/parser.py: the report that the synthetic adapter writes, and
-- what the parser reads from it.
use semiconductor_domain_lab.Prelude.{ℕ, String, true, List, [], ◌∷◌, ◌++◌, ◌≡◌, refl}
use semiconductor_domain_lab.Prelude.Text.{
  ◌<>◌, starts_with, split_lines, strip, is_line, all_lines, join_newline, split_lines-join_newline,
}
use semiconductor_domain_lab.Models.{Decimal, JobSpec}
use semiconductor_domain_lab.Parser.Provenance.{invalid}
use semiconductor_domain_lab.Parser.Synthetic.{
  Values, lookup, missing_fields, read_lines, synthetic_marker, synthetic_finish, finish_fields,
  parse_synthetic,
}
use semiconductor_domain_lab.Parser.OpenSta.{Library}
use semiconductor_domain_lab.Parser.Report.{File, dispatch, parse_report}
use semiconductor_domain_lab.Runner.Synthetic.{
  Ran, without_prefix, synthetic_fields, padding, write_report, run_synthetic,
}
use semiconductor_domain_lab.Runner.Fields.{
  first_values, plain-padding, plain-split_lines, read_lines-plain, read_first_fields,
  first_fields-lines,
}

abbrev pub written : Ran → String
written (Ran.returned text result) = text
written (Ran.raised e) = ""

-- What is parsed from lines of which the first is the marker, when the values are read from them.
parse_written :
    (lib : Library) (lines : List String) (artifact_bytes : ℕ) (directory sha : String)
    (values : Values) (k : ℕ)
    → all_lines (synthetic_marker ∷ lines) ≡ true
    → ((rest : List String)
        → read_lines 1 ((synthetic_marker ∷ lines) ++ rest) ([], [])
          ≡ read_lines k rest (values, []))
    → parse_report lib
        (File.utf8 (written (write_report artifact_bytes directory (synthetic_marker ∷ lines))) sha)
      ≡ synthetic_finish values [] sha
unfolding parse_report dispatch parse_synthetic write_report strip
parse_written lib lines artifact_bytes directory sha values k h read =
    let pad = padding artifact_bytes (join_newline (synthetic_marker ∷ lines) <> "\n") in
    rw (split_lines-join_newline synthetic_marker lines pad h) (
      rw (read (split_lines pad)) (
        rw
          (read_lines-plain k (split_lines pad) (values, [])
            (plain-split_lines pad (plain-padding artifact_bytes _)))
          refl))

-- The report under the profile "missing_worst_slack" is refused, for that field alone.
pub run_synthetic-missing_worst_slack :
    (lib : Library) (show : Decimal → String) (artifact_bytes : ℕ) (directory sha : String)
    (spec : JobSpec)
    → is_line spec.job_id ≡ true
    → is_line spec.corner ≡ true
    → parse_report lib (
        File.utf8
          (written (run_synthetic show "missing_worst_slack" artifact_bytes directory spec))
          sha)
      ≡ invalid ("missing field worst_slack" ∷ []) "synthetic" sha "eda_lab.synthetic:v1"
unfolding run_synthetic synthetic_fields without_prefix starts_with synthetic_finish missing_fields
    lookup finish_fields
run_synthetic-missing_worst_slack lib show artifact_bytes directory sha spec h₁ h₂ =
    rw
      (parse_written lib _ artifact_bytes directory sha (first_values spec.job_id spec.corner) 8
        (first_fields-lines spec h₁ h₂) (read_first_fields spec))
      refl
