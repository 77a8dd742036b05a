-- ===== src/Parser/Provenance.antt =====
-- src/eda_lab/parser.py: `_provenance` and `_invalid`.
use semiconductor_domain_lab.Prelude.{String, List, [], ◌∷◌, some}
use semiconductor_domain_lab.Models.{
  Json, Dict, ParseStatus, CheckStatus, Completeness, Validity, ParseResult,
}

unfoldable pub provenance : String → String → String → Dict → Dict
provenance source_kind source_sha256 parser extra =
    ("source_kind", Json.text source_kind)
    ∷ ("source_sha256", Json.text source_sha256)
    ∷ ("parser", Json.text parser)
    ∷ ("artifact_kind", Json.text "timing_report")
    ∷ extra

-- With the default statuses and no further provenance, as every call has it.
unfoldable pub invalid : List String → String → String → String → ParseResult
unfolding provenance
invalid errors source_kind source_sha256 parser = record {
  parse_status = ParseStatus.invalid;
  check_status = CheckStatus.unknown;
  metrics = [];
  errors = errors;
  completeness = Completeness.incomplete;
  provenance = some (provenance source_kind source_sha256 parser []);
  semantic_status = Validity.unknown;
  provenance_status = Validity.unknown;
}
