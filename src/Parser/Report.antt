-- ===== src/Parser/Report.antt =====
-- src/eda_lab/parser.py: `parse_report`. The bytes of the file are given by whether they are UTF-8, the
-- text that they spell and their SHA-256 digest.
pub mod Outcome
use semiconductor_domain_lab.Prelude.{String, Bool, List, [], ◌∷◌, if◌then◌else◌, str_eq}
use semiconductor_domain_lab.Prelude.Text.{split_lines, strip, starts_with}
use semiconductor_domain_lab.Models.{ParseResult}
use semiconductor_domain_lab.Parser.Provenance.{invalid}
use semiconductor_domain_lab.Parser.Synthetic.{synthetic_marker, parse_synthetic}
use semiconductor_domain_lab.Parser.OpenSta.{Library, parse_opensta_setup_max}

pub data File : Type 0 where
  not_utf8 : String → File
  utf8 : String → String → File

abbrev pub first_line : List String → String
first_line [] = ""
first_line (line ∷ lines) = strip line

unfoldable pub dispatch : Library → String → String → String → ParseResult
unfolding parse_synthetic parse_opensta_setup_max
dispatch lib line text source_sha256 =
    if str_eq line synthetic_marker
    then parse_synthetic text source_sha256
    else if starts_with line "OpenSTA "
    then parse_opensta_setup_max lib text source_sha256
    else invalid ("unsupported timing report format" ∷ []) "unknown" source_sha256
        "eda_lab.dispatch:v1"

unfoldable pub parse_report : Library → File → ParseResult
unfolding dispatch strip split_lines
parse_report lib (File.not_utf8 source_sha256) =
    invalid ("report is not UTF-8" ∷ []) "unknown" source_sha256 "eda_lab.dispatch:v1"
parse_report lib (File.utf8 text source_sha256) =
    dispatch lib (first_line (split_lines text)) text source_sha256
