-- ===== src/Api/Lists.antt =====
-- src/eda_lab/api.py: `_list_runs`.
use semiconductor_domain_lab.Prelude.{
  ℕ, zero, suc, ◌+◌, String, false, ◌&&◌, Option, none, some, List, [], ◌∷◌, if◌then◌else◌, leb,
  str_eq,
}
use semiconductor_domain_lab.Prelude.Text.{strip}
use semiconductor_domain_lab.Models.{ℤ, pos, negsuc, RunStatus}
use semiconductor_domain_lab.Store.Schema.{Database}
use semiconductor_domain_lab.Store.Runs.{RunView}
use semiconductor_domain_lab.Store.Pages.{take, list_runs}
use semiconductor_domain_lab.Parser.Numbers.{read_int}
use semiconductor_domain_lab.Api.{PublicRun, public_run, Payload, Sent, sent}
use semiconductor_domain_lab.Api.Request.{Libraries, Read, ◌>>=◌}

-- The first value of each key of the query.
pub record Query : Type 0 where
  pub limit : Option String
  pub cursor : Option String
  pub status : Option String
  pub baseline : Option String

abbrev pub in_range : ℤ → Read ℕ
in_range (pos n) =
    if leb 1 n && leb n 100 then Read.read n else Read.refused "limit must be between 1 and 100"
in_range (negsuc n) = Read.refused "limit must be between 1 and 100"

abbrev pub read_limit : (String → String) → String → Option ℤ → Read ℕ
read_limit int_error s none = Read.refused (int_error s)
read_limit int_error s (some n) = in_range n

unfoldable pub limit_of : (String → String) → Option String → Read ℕ
unfolding read_int strip
limit_of int_error none = Read.read 25
limit_of int_error (some s) = read_limit int_error s (read_int (strip s))

abbrev decoded : Option (ℕ × String) → Read (Option (ℕ × String))
decoded none = Read.refused "invalid cursor"
decoded (some c) = Read.read (some c)

unfoldable pub cursor_of : Libraries → Option String → Read (Option (ℕ × String))
cursor_of libs none = Read.read none
cursor_of libs (some String.[]) = Read.read none
cursor_of libs (some (String.◌∷◌ c s)) = decoded (libs.decode_cursor (String.◌∷◌ c s))

-- The status that the text names; a text that names none matches no Run.
unfoldable pub named_status : String → Option RunStatus
named_status s =
    if str_eq s "QUEUED"
    then some RunStatus.queued
    else if str_eq s "RUNNING"
    then some RunStatus.running
    else if str_eq s "SUCCEEDED"
    then some RunStatus.succeeded
    else if str_eq s "FAILED"
    then some RunStatus.failed
    else if str_eq s "CANCELLED"
    then some RunStatus.cancelled
    else if str_eq s "TIMED_OUT"
    then some RunStatus.timed_out
    else none

abbrev rows_named : Database → Option RunStatus → ℕ → Option (ℕ × String) → List RunView
rows_named db none limit cursor = []
rows_named db (some status) limit cursor = list_runs db (some status) limit cursor

unfoldable pub rows_of : Database → Option String → ℕ → Option (ℕ × String) → List RunView
unfolding list_runs named_status
rows_of db none limit cursor = list_runs db none limit cursor
rows_of db (some String.[]) limit cursor = list_runs db none limit cursor
rows_of db (some (String.◌∷◌ c s)) limit cursor =
    rows_named db (named_status (String.◌∷◌ c s)) limit cursor

-- rows[limit:]
unfoldable pub drop {ℓ} : {A : Type ℓ} → ℕ → List A → List A
drop zero xs = xs
drop (suc n) [] = []
drop (suc n) (x ∷ xs) = drop n xs

-- page[-1], where there is one
unfoldable pub last {ℓ} : {A : Type ℓ} → List A → Option A
last [] = none
last (x ∷ []) = some x
last (x ∷ y ∷ rest) = last (y ∷ rest)

abbrev pub encode : Libraries → Option RunView → Option String
encode libs none = none
encode libs (some v) = some (libs.encode_cursor v.run.updated_at v.run.job_id)

unfoldable pub next_cursor : Libraries → List RunView → List RunView → Option String
unfolding last
next_cursor libs page [] = none
next_cursor libs page (v ∷ remaining) = encode libs (last page)

unfoldable pub public_runs : List RunView → List PublicRun
unfolding public_run
public_runs [] = []
public_runs (v ∷ vs) = public_run false v ∷ public_runs vs

unfoldable pub page_of : Libraries → ℕ → List RunView → Sent
unfolding public_runs next_cursor take drop
page_of libs limit rows = sent 200 (
    Payload.items (public_runs (take limit rows))
      (next_cursor libs (take limit rows) (drop limit rows)))

unfoldable pub listed : Libraries → Query → Database → Read (ℕ × Option (ℕ × String)) → Sent
unfolding page_of rows_of
listed libs q db (Read.refused e) = sent 400 (Payload.error_text e)
listed libs q db (Read.read (limit, cursor)) =
    page_of libs limit (rows_of db q.status (limit + 1) cursor)

abbrev pub with_limit : Read (Option (ℕ × String)) → ℕ → Read (ℕ × Option (ℕ × String))
with_limit cursor limit = do c ← cursor; Read.read (limit, c)

unfoldable pub read_query : Libraries → Query → Read (ℕ × Option (ℕ × String))
unfolding limit_of cursor_of
read_query libs q = limit_of libs.int_error q.limit >>= with_limit (cursor_of libs q.cursor)

unfoldable pub list_runs_handler : Libraries → Query → Database → Sent
unfolding listed read_query
list_runs_handler libs q db = listed libs q db (read_query libs q)
