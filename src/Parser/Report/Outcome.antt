-- ===== src/Parser/Report/Outcome.antt =====
-- src/eda_lab/parser.py: the two kinds of result that a report can have.
use semiconductor_domain_lab.Prelude.{
  String, Bool, true, false, Option, none, some, List, [], ◌∷◌, ◌++◌, if◌then◌else◌, ◌≡◌, ◌≢◌, refl,
  ◌⊎◌, inl, inr, ◌↔◌, sym, ◌∙◌, arith, not, str_eq,
}
use semiconductor_domain_lab.Prelude.Text.{starts_with, split_lines}
use semiconductor_domain_lab.Parser.OpenSta.Found.{scan_errors-found}
use semiconductor_domain_lab.Models.{
  ℤ, pos, ParseStatus, CheckStatus, Completeness, Validity, TrustStatus, Decimal, ParseResult,
}
use semiconductor_domain_lab.Service.Validation.{trust_status}
use semiconductor_domain_lab.Service.Trust.{trust_status-trusted_iff}
use semiconductor_domain_lab.Parser.Provenance.{invalid}
use semiconductor_domain_lab.Parser.Synthetic.{
  Values, Fields, Checked, check_fields, missing_fields, check_of, in_ns, finish_checked,
  finish_fields, parser_name, synthetic_required, synthetic_finish, parse_synthetic, read_lines,
  synthetic_marker, synthetic_metrics,
}
use semiconductor_domain_lab.Parser.OpenSta.{
  Library, Matched, semantic_errors, report_of, scanned, scan_errors, parse_opensta_setup_max,
  opensta_metrics, judged, all_finite, opensta_parser,
}
use semiconductor_domain_lab.Parser.Report.{File, first_line, dispatch, parse_report}

-- A report that could not be read.
pub record Rejected (r : ParseResult) : Type 0 where
  pub parse : r.parse_status ≡ ParseStatus.invalid
  pub check : r.check_status ≡ CheckStatus.unknown
  pub no_metrics : r.metrics ≡ []
  pub reasons : r.errors ≢ []
  pub completeness : r.completeness ≡ Completeness.incomplete
  pub semantic : r.semantic_status ≡ Validity.unknown
  pub provenance : r.provenance_status ≡ Validity.unknown

-- A report that was read: it is VALID without errors, and then it has a check, or it has errors and
-- is INVALID, and then it has none.
pub record Accepted (r : ParseResult) : Type 0 where
  pub parse : r.parse_status ≡ ParseStatus.ok
  pub metrics : r.metrics ≢ []
  pub completeness : r.completeness ≡ Completeness.complete
  pub provenance : r.provenance_status ≡ Validity.valid
  pub verdict :
      ((r.errors ≡ [])
        × (r.semantic_status ≡ Validity.valid)
        × (r.check_status ≢ CheckStatus.unknown))
      ⊎ ((r.errors ≢ [])
          × (r.semantic_status ≡ Validity.invalid)
          × (r.check_status ≡ CheckStatus.unknown))

abbrev pub Settles : ParseResult → Type 0
Settles r = Rejected r ⊎ Accepted r

metrics-nonempty :
    (values : Values) (sha : String) (f : Fields) → synthetic_metrics values sha f ≢ []
unfolding synthetic_metrics
metrics-nonempty values sha f h = cc

opensta_metrics-nonempty : (m : Matched) (sha : String) → opensta_metrics m sha ≢ []
unfolding opensta_metrics
opensta_metrics-nonempty m sha h = cc

invalid-Rejected :
    (e : String) (errors : List String) (kind sha parser : String)
    → Rejected (invalid (e ∷ errors) kind sha parser)
unfolding invalid
invalid-Rejected e errors kind sha parser = record {
  parse = refl;
  check = refl;
  no_metrics = refl;
  reasons = λ h. cc;
  completeness = refl;
  semantic = refl;
  provenance = refl;
}

check_of-decides : (d : Decimal) → check_of d ≢ CheckStatus.unknown
unfolding check_of
check_of-decides d h = ground arith

finish_checked-Settles :
    (values : Values) (sha : String) (checked : Checked Fields)
    → Settles (finish_checked values sha checked)
unfolding finish_checked
finish_checked-Settles values sha (Checked.value_error message) =
    inl (invalid-Rejected message [] "synthetic" sha parser_name)
finish_checked-Settles values sha (Checked.checked f) = inr (record {
  parse = refl;
  metrics = metrics-nonempty values sha f;
  completeness = refl;
  provenance = refl;
  verdict = inl (refl, refl, check_of-decides (in_ns f.numeric f.unit));
})

finish_fields-Settles :
    (values : Values) (errors : List String) (sha : String)
    → Settles (finish_fields values errors sha)
unfolding finish_fields
finish_fields-Settles values [] sha = finish_checked-Settles values sha (check_fields values)
finish_fields-Settles values (e ∷ errors) sha =
    inl (invalid-Rejected e errors "synthetic" sha parser_name)

synthetic-Settles :
    (values : Values) (errors : List String) (sha : String)
    → Settles (synthetic_finish values errors sha)
unfolding synthetic_finish
synthetic-Settles values errors sha =
    finish_fields-Settles values (errors ++ missing_fields synthetic_required values) sha

label-decides :
    (met : Bool) → (if met then CheckStatus.pass else CheckStatus.fail) ≢ CheckStatus.unknown
label-decides true h = cc
label-decides false h = cc

judged-Settles : (m : Matched) (sha : String) (errors : List String) → Settles (judged m sha errors)
unfolding judged
judged-Settles m sha [] = inr (record {
  parse = refl;
  metrics = opensta_metrics-nonempty m sha;
  completeness = refl;
  provenance = refl;
  verdict = inl (refl, refl, label-decides m.summary.met);
})
judged-Settles m sha (e ∷ errors) = inr (record {
  parse = refl;
  metrics = opensta_metrics-nonempty m sha;
  completeness = refl;
  provenance = refl;
  verdict = inr ((λ h. cc), refl, refl);
})

report_of-Settles : (lib : Library) (m : Matched) (sha : String) → Settles (report_of lib m sha)
unfolding report_of
report_of-Settles lib m sha =
    elim (all_finite m)
      as (λ finite. Settles (
        if not finite
        then invalid ("non-finite OpenSTA timing value" ∷ []) "tool_generated" sha opensta_parser
        else judged m sha (semantic_errors lib m))) [
          | true ↦ judged-Settles m sha (semantic_errors lib m)
          | false ↦ inl (
              invalid-Rejected "non-finite OpenSTA timing value" [] "tool_generated" sha
                opensta_parser)
        ]

scanned-Settles :
    (lib : Library) (sha : String) (m : Option Matched) (errors : List String)
    → (errors ≡ [] → m ≢ none)
    → Settles (scanned lib sha m errors)
unfolding scanned
scanned-Settles lib sha none [] found = absurd (found refl refl)
scanned-Settles lib sha none (e ∷ errors) found =
    inl (invalid-Rejected e errors "tool_generated" sha opensta_parser)
scanned-Settles lib sha (some m) [] found = report_of-Settles lib m sha
scanned-Settles lib sha (some m) (e ∷ errors) found =
    inl (invalid-Rejected e errors "tool_generated" sha opensta_parser)

opensta-Settles :
    (lib : Library) (text sha : String) → Settles (parse_opensta_setup_max lib text sha)
unfolding parse_opensta_setup_max
opensta-Settles lib text sha =
    scanned-Settles lib sha (scan_errors text (lib.scan text)).0
      (scan_errors text (lib.scan text)).1 (scan_errors-found text (lib.scan text))

parse_synthetic-Settles : (text sha : String) → Settles (parse_synthetic text sha)
unfolding parse_synthetic
parse_synthetic-Settles text sha =
    let read = read_lines 1 (split_lines text) ([], []) in synthetic-Settles read.0 read.1 sha

abbrev unsupported : String → ParseResult
unsupported sha =
    invalid ("unsupported timing report format" ∷ []) "unknown" sha "eda_lab.dispatch:v1"

dispatch-Settles : (lib : Library) (line text sha : String) → Settles (dispatch lib line text sha)
unfolding dispatch
dispatch-Settles lib line text sha =
    elim (str_eq line synthetic_marker)
      as (λ is_synthetic. Settles (
        if is_synthetic
        then parse_synthetic text sha
        else if starts_with line "OpenSTA "
        then parse_opensta_setup_max lib text sha
        else unsupported sha)) [
          | true ↦ parse_synthetic-Settles text sha
          | false ↦
              elim (starts_with line "OpenSTA ")
                as (λ is_opensta.
                  Settles (
                    if is_opensta then parse_opensta_setup_max lib text sha else unsupported sha)) [
                      | true ↦ opensta-Settles lib text sha
                      | false ↦ inl (
                          invalid-Rejected "unsupported timing report format" [] "unknown" sha
                            "eda_lab.dispatch:v1")
                    ]
        ]

-- Every report, of whatever bytes, is either rejected or accepted. A rejected report has parse status
-- INVALID, check UNKNOWN, no metrics, at least one error, and nothing else that is known. An accepted
-- report has parse status OK, metrics, VALID provenance, and either no error, VALID semantics and a
-- check that passes or fails, or errors, INVALID semantics and an UNKNOWN check.
pub parse_report-Settles : (lib : Library) (file : File) → Settles (parse_report lib file)
unfolding parse_report
parse_report-Settles lib (File.not_utf8 sha) =
    inl (invalid-Rejected "report is not UTF-8" [] "unknown" sha "eda_lab.dispatch:v1")
parse_report-Settles lib (File.utf8 text sha) =
    dispatch-Settles lib (first_line (split_lines text)) text sha

Settles-trusted_iff :
    (r : ParseResult) (code : Option ℤ)
    → Settles r
    → (trust_status r code ≡ TrustStatus.trusted) ↔ ((r.errors ≡ []) × (code ≡ some (pos 0)))
Settles-trusted_iff r code (inl s) = (
  (λ h. let t = (trust_status-trusted_iff r code).0 h in absurd (ok-invalid (sym t.0 ∙ s.parse))),
  λ h. absurd (s.reasons h.0),
)
  where
    ok-invalid : ParseStatus.ok ≢ ParseStatus.invalid
    ok-invalid h = cc
Settles-trusted_iff r code (inr s) = elim s.verdict [
  | inl v ↦ (
    (λ h. (v.0, ((trust_status-trusted_iff r code).0 h).3)),
    λ h. (trust_status-trusted_iff r code).1 (s.parse, v.1, s.provenance, h.1),
  )
  | inr v ↦ (
    (λ h. let t = (trust_status-trusted_iff r code).0 h in absurd (valid-invalid (sym t.1 ∙ v.1))),
    λ h. absurd (v.0 h.0),
  )
]
  where
    valid-invalid : Validity.valid ≢ Validity.invalid
    valid-invalid h = cc

-- A Run is TRUSTED for a report exactly when parsing the report found no error and the process is
-- known to have exited with 0.
pub trust_status-parse_report :
    (lib : Library) (file : File) (code : Option ℤ)
    → (trust_status (parse_report lib file) code ≡ TrustStatus.trusted)
      ↔ (((parse_report lib file).errors ≡ []) × (code ≡ some (pos 0)))
trust_status-parse_report lib file code =
    Settles-trusted_iff (parse_report lib file) code (parse_report-Settles lib file)
