-- ===== src/Api/Paths.antt =====
-- src/eda_lab/api.py: the texts of the paths that `do_GET` takes apart.
use semiconductor_domain_lab.Prelude.{
  ℕ, zero, suc, ◌-◌, String, Bool, ◌&&◌, ◌||◌, if◌then◌else◌, str_eq,
}
use semiconductor_domain_lab.Prelude.Text.{starts_with, has_char, size}

-- text[n:]
unfoldable pub drop_chars : ℕ → String → String
drop_chars zero s = s
drop_chars (suc n) String.[] = ""
drop_chars (suc n) (String.◌∷◌ c s) = drop_chars n s

-- text[:n]
unfoldable pub take_chars : ℕ → String → String
take_chars zero s = ""
take_chars (suc n) String.[] = ""
take_chars (suc n) (String.◌∷◌ c s) = String.◌∷◌ c (take_chars n s)

-- text.endswith(suffix)
unfoldable pub ends_with : String → String → Bool
ends_with String.[] suffix = str_eq "" suffix
ends_with (String.◌∷◌ c s) suffix =
    let rest = ends_with s suffix in str_eq (String.◌∷◌ c s) suffix || rest

-- The routes of `do_GET`.
pub data Route : Type 0 where
  runs : Route
  run : String → Route
  new_violations : String → Route
  job : String → Route
  not_found : Route

abbrev pub run_prefix : String
run_prefix = "/runs/"

abbrev pub revision_prefix : String
revision_prefix = "/revisions/"

abbrev pub revision_suffix : String
revision_suffix = "/new-violations"

abbrev pub job_prefix : String
job_prefix = "/jobs/"

-- A Run's name is not empty and has no "/" in it.
abbrev run_route : String → Route
run_route String.[] = Route.not_found
run_route (String.◌∷◌ c s) =
    if has_char "/" (String.◌∷◌ c s) then Route.not_found else Route.run (String.◌∷◌ c s)

-- path[len(prefix):-len(suffix)]
abbrev pub candidate_of : String → String
candidate_of path =
    drop_chars (size revision_prefix) (take_chars (size path - size revision_suffix) path)

unfoldable pub route : String → Route
unfolding has_char starts_with ends_with drop_chars take_chars size
route path =
    if str_eq path "/runs"
    then Route.runs
    else if starts_with path run_prefix
    then run_route (drop_chars (size run_prefix) path)
    else if starts_with path revision_prefix && ends_with path revision_suffix
    then Route.new_violations (candidate_of path)
    else if starts_with path job_prefix
    then Route.job (drop_chars (size job_prefix) path)
    else Route.not_found
