-- ===== src/Parser/OpenSta/Found.antt =====
-- src/eda_lab/parser.py: when the scan of an OpenSTA report leaves no error, every pattern has matched.
use semiconductor_domain_lab.Prelude.{
  String, Bool, true, false, not, Option, none, some, List, [], ◌∷◌, ◌++◌, ◌≡◌, ◌≢◌, refl, arith,
  ◌==◌, str_eq, length,
}
use semiconductor_domain_lab.Models.{Decimal}
use semiconductor_domain_lab.Parser.OpenSta.{
  Scan, Summary, opensta_completion_marker, count_text, single_match, note, note_version, note_unit,
  first, matched_of, scan_errors,
}

grown : (errors : List String) (e : String) → errors ++ e ∷ [] ≢ []
grown [] e h = cc
grown (x ∷ errors) e h = cc

pub note-clear :
    (b : Bool) (message : String) (errors : List String)
    → note b message errors ≡ []
    → (errors ≡ []) × (b ≡ false)
note-clear true message errors h = absurd (grown errors message h)
note-clear false message errors h = (h, refl)

single_match-clear {ℓ} :
    {A : Type ℓ}
    → (found : List A) (field : String) (errors : List String)
    → (single_match found field errors).1 ≡ []
    → (errors ≡ []) × ((single_match found field errors).0 ≢ none)
unfolding single_match
single_match-clear [] field errors h = absurd (grown errors _ h)
single_match-clear (a ∷ []) field errors h = (h, λ k. cc)
single_match-clear (a ∷ b ∷ rest) field errors h = absurd (grown errors _ h)

note_version-clear :
    (banner : Option (String × String)) (errors : List String)
    → note_version banner errors ≡ []
    → errors ≡ []
unfolding note_version
note_version-clear none errors h = h
note_version-clear (some (version, revision)) errors h =
    (note-clear (not (str_eq version "3.1.0")) _ errors h).0

note_unit-clear :
    (unit : Option String) (errors : List String) → note_unit unit errors ≡ [] → errors ≡ []
unfolding note_unit
note_unit-clear none errors h = h
note_unit-clear (some unit) errors h = (note-clear (not (str_eq unit "1ns")) _ errors h).0

two_first {ℓ} :
    {A : Type ℓ} → (arrivals : List A) → not (length arrivals == 2) ≡ false → first arrivals ≢ none
two_first [] h k = ground arith
two_first (a ∷ rest) h k = cc

matched_of-found :
    (banner : Option (String × String)) (s e g t : Option String) (m : Option Summary)
    (w : Option Decimal) (arrivals : List Decimal)
    → banner ≢ none
    → s ≢ none
    → e ≢ none
    → g ≢ none
    → t ≢ none
    → m ≢ none
    → w ≢ none
    → first arrivals ≢ none
    → matched_of banner s e g t m w arrivals ≢ none
matched_of-found banner s e g t m w arrivals h₁ h₂ h₃ h₄ h₅ h₆ h₇ h₈ k = ground arith

-- Without errors the scan has matched everything.
pub scan_errors-found :
    (text : String) (s : Scan) → (scan_errors text s).1 ≡ [] → (scan_errors text s).0 ≢ none
unfolding scan_errors
scan_errors-found text s h =
    let banner = single_match s.banners "OpenSTA banner" [] in
    let once = not (count_text opensta_completion_marker text == 1) in
    let e₂ = note_version banner.0 banner.1 in
    let e₃ = note once "missing or duplicate OpenSTA completion marker" e₂ in
    let e₄ = note s.error_diagnostic "OpenSTA error diagnostic present" e₃ in
    let unit = single_match s.units "time unit" e₄ in
    let m₁ = note-clear _ _ _ h in
    let m₂ = single_match-clear s.worsts "worst slack" _ m₁.0 in
    let m₃ = single_match-clear s.summaries "OpenSTA setup summary" _ m₂.0 in
    let m₄ = single_match-clear s.path_types "path type" _ m₃.0 in
    let m₅ = single_match-clear s.path_groups "path group" _ m₄.0 in
    let m₆ = single_match-clear s.endpoints "endpoint" _ m₅.0 in
    let m₇ = single_match-clear s.startpoints "startpoint" _ m₆.0 in
    let m₈ = note_unit-clear unit.0 unit.1 m₇.0 in
    let m₉ = single_match-clear s.units "time unit" e₄ m₈ in
    let n₁ = note-clear s.error_diagnostic "OpenSTA error diagnostic present" e₃ m₉.0 in
    let n₂ = note-clear once "missing or duplicate OpenSTA completion marker" e₂ n₁.0 in
    let n₃ = note_version-clear banner.0 banner.1 n₂.0 in
    let n₄ = single_match-clear s.banners "OpenSTA banner" [] n₃ in
    matched_of-found _ _ _ _ _ _ _ s.arrivals n₄.1 m₇.1 m₆.1 m₅.1 m₄.1 m₃.1 m₂.1
      (two_first s.arrivals m₁.1)
