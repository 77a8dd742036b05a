-- ===== src/Examples/Reports.antt =====
-- The parser and the synthetic adapter on small reports.
use Prim.Native.Nat.{◌^◌}
use semiconductor_domain_lab.Prelude.{
  ℕ, suc, ◌+◌, ◌*◌, ◌-◌, ltb, String, true, false, some, [], ◌∷◌, ◌≡◌, ◌↔◌, refl,
}
use semiconductor_domain_lab.Prelude.Text.{◌<>◌, is_line, starts_with, split_once}
use semiconductor_domain_lab.Models.{ℤ, pos, negsuc, Decimal, TrustStatus}
use semiconductor_domain_lab.Service.Validation.{trust_status}
use semiconductor_domain_lab.Parser.Provenance.{invalid}
use semiconductor_domain_lab.Parser.Synthetic.{read_lines, missing_fields, parse_synthetic}
use semiconductor_domain_lab.Service.Text.{show_ℕ}
use semiconductor_domain_lab.Parser.OpenSta.{Scan, Library, Matched, semantic_errors}
use semiconductor_domain_lab.Parser.Report.{File, dispatch, parse_report}
use semiconductor_domain_lab.Parser.Report.Outcome.{
  Settles, parse_report-Settles, trust_status-parse_report,
}
use semiconductor_domain_lab.Runner.Synthetic.{run_synthetic}
use semiconductor_domain_lab.Runner.RoundTrip.{written, run_synthetic-missing_worst_slack}
use semiconductor_domain_lab.Examples.Scene.{spec}

abbrev nothing_found : Scan
nothing_found = record {
  banners = [];
  error_diagnostic = false;
  units = [];
  startpoints = [];
  endpoints = [];
  path_groups = [];
  path_types = [];
  summaries = [];
  worsts = [];
  arrivals = [];
}

-- A difference of two whole numbers of 10⁻⁷.
record Amount : Type 0 where
  plus : ℕ
  minus : ℕ

abbrev to_amount : ℤ → ℕ → Amount
to_amount (ℤ.pos n) scale = record { plus = n * 10 ^ (7 - scale); minus = 0 }
to_amount (ℤ.negsuc n) scale = record { plus = 0; minus = suc n * 10 ^ (7 - scale) }

-- Floats that are exact, for decimals of at most seven places.
abbrev exact : Library
exact = record {
  scan = λ text. nothing_found;
  Float = Amount;
  float = λ d. to_amount d.mantissa d.scale;
  plus = λ x y. record { plus = x.plus + y.plus; minus = x.minus + y.minus };
  minus = λ x y. record { plus = x.plus + y.minus; minus = x.minus + y.plus };
  abs = λ x. record { plus = (x.plus - x.minus) + (x.minus - x.plus); minus = 0 };
  above = λ x y. ltb (y.plus + x.minus) (x.plus + y.minus);
}

abbrev synthetic_file : File
synthetic_file =
    File.utf8
      "SYNTHETIC / NOT GENERATED BY AN EDA TOOL\nrun_id=job\nrun_id=job\nfixture_format_version=1\n"
      "ab"

duplicate_test :
    (parse_report exact synthetic_file).errors
    ≡ "duplicate field run_id at line 3" ∷ "missing field stage" ∷ "missing field corner"
      ∷ "missing field tool_exit_code" ∷ "missing field worst_slack" ∷ []
unfolding parse_report dispatch parse_synthetic read_lines starts_with split_once invalid ◌<>◌
    missing_fields show_ℕ
duplicate_test = refl

parse_report-Settles_example : Settles (parse_report exact synthetic_file)
parse_report-Settles_example = parse_report-Settles exact synthetic_file

trust_status-parse_report_example :
    (trust_status (parse_report exact synthetic_file) (some (pos 0)) ≡ TrustStatus.trusted)
    ↔ (((parse_report exact synthetic_file).errors ≡ []) × (some (pos 0) ≡ some (pos 0)))
trust_status-parse_report_example = trust_status-parse_report exact synthetic_file (some (pos 0))

abbrev decimal : ℕ → Decimal
decimal n = record { mantissa = pos n; scale = 2 }

-- required 2.00, arrival 1.25, slack 0.75
abbrev setup : Matched
setup = record {
  tool_version = "3.1.0";
  tool_revision = "abc";
  startpoint = "a";
  endpoint = "b";
  path_group = "clk";
  path_type = "max";
  summary = record {
    required = decimal 200;
    signed_arrival = record { mantissa = negsuc 124; scale = 2 };
    slack = decimal 75;
    met = true;
  };
  worst_slack = decimal 75;
  arrival = decimal 125;
}

setup_test :
    (semantic_errors exact setup ≡ [])
    × (semantic_errors exact (record setup { worst_slack = decimal 74 })
        ≡ "reported path slack differs from worst slack" ∷ [])
unfolding semantic_errors
setup_test = (refl, refl)

-- 0.12, whatever the decimal
abbrev show : Decimal → String
show d = "0.12"

run_synthetic-missing_worst_slack_example :
    parse_report exact
      (File.utf8 (written (run_synthetic show "missing_worst_slack" 0 "/tmp/lab" spec)) "ab")
    ≡ invalid ("missing field worst_slack" ∷ []) "synthetic" "ab" "eda_lab.synthetic:v1"
unfolding is_line
run_synthetic-missing_worst_slack_example =
    run_synthetic-missing_worst_slack exact show 0 "/tmp/lab" "ab" spec refl refl
