-- ===== src/Store/Pages.antt =====
-- src/eda_lab/store.py: `list_runs`, a page of Runs, newest first.
use Prim.Native.Nat.{Ordering}
use Prim.Native.String.{compare}
use mathlib.Core.List.{Memᴰ}
use mathlib.Core.List.Memᴰ.{head, tail}
use semiconductor_domain_lab.Prelude.{
  ℕ, zero, suc, ◌≤◌, ◌<◌, String, Bool, true, false, not, ◌&&◌, ◌||◌, Option, none, some, List, [],
  ◌∷◌, ◌≡◌, arith, ltb, ◌==◌, length,
}
use semiconductor_domain_lab.Prelude.Table.{select_rows, order_by}
use semiconductor_domain_lab.Prelude.Rows.{select-mem, mem-select, order_by-mem, mem-order_by}
use semiconductor_domain_lab.Models.{RunStatus}
use semiconductor_domain_lab.Store.Schema.{Run, Database}
use semiconductor_domain_lab.Store.Runs.{RunView, get_run}

abbrev same_status : RunStatus → RunStatus → Bool
same_status RunStatus.queued RunStatus.queued = true
same_status RunStatus.running RunStatus.running = true
same_status RunStatus.succeeded RunStatus.succeeded = true
same_status RunStatus.failed RunStatus.failed = true
same_status RunStatus.cancelled RunStatus.cancelled = true
same_status RunStatus.timed_out RunStatus.timed_out = true
same_status _ _ = false

abbrev pub has_status : Option RunStatus → Run → Bool
has_status none r = true
has_status (some s) r = same_status r.status s

abbrev lt_text : String → String → Bool
lt_text a b = elim (compare a b) [ Ordering.lt ↦ true | _ ↦ false ]

-- (updated_at, job_id) is below the cursor's.
abbrev pub is_after : Option (ℕ × String) → Run → Bool
is_after none r = true
is_after (some (updated_at, job_id)) r =
    ltb r.updated_at updated_at || r.updated_at == updated_at && lt_text r.job_id job_id

-- ORDER BY updated_at DESC, job_id DESC
abbrev pub newest_first : Run → Run → Bool
newest_first a b =
    ltb b.updated_at a.updated_at || a.updated_at == b.updated_at && not (lt_text a.job_id b.job_id)

-- LIMIT
unfoldable pub take {ℓ} : {A : Type ℓ} → ℕ → List A → List A
take zero xs = []
take (suc n) [] = []
take (suc n) (x ∷ xs) = x ∷ take n xs

-- The rows that the SELECT of `list_runs` gives.
unfoldable pub page : Database → Option RunStatus → ℕ → Option (ℕ × String) → List Run
unfolding take
page db status limit cursor =
    take limit
      (order_by newest_first (select_rows (λ r. has_status status r && is_after cursor r) db.runs))

abbrev views : Database → List Run → List RunView
views db [] = []
views db (r ∷ rs) =
    let rest = views db rs in elim (get_run db r.job_id) [ none ↦ rest | some v ↦ v ∷ rest ]

unfoldable pub list_runs : Database → Option RunStatus → ℕ → Option (ℕ × String) → List RunView
unfolding page
list_runs db status limit cursor = views db (page db status limit cursor)

module _ {ℓ} {A : Type ℓ} where
  length-take_le : (n : ℕ) (xs : List A) → length (take n xs) ≤ n
  unfolding take
  length-take_le zero xs = omega arith
  length-take_le (suc n) [] = omega arith
  length-take_le (suc n) (x ∷ xs) = omega (arith, length-take_le n xs)

  take-mem : (n : ℕ) (a : A) (xs : List A) → Memᴰ a (take n xs) → Memᴰ a xs
  unfolding take
  take-mem zero a xs h = elim h [ ]
  take-mem (suc n) a [] h = h
  take-mem (suc n) a (x ∷ xs) (head e) = head e
  take-mem (suc n) a (x ∷ xs) (tail h) = tail (take-mem n a xs h)

  -- A list that LIMIT does not fill is whole.
  mem-take : (n : ℕ) (a : A) (xs : List A) → length (take n xs) < n → Memᴰ a xs → Memᴰ a (take n xs)
  unfolding take
  mem-take zero a xs lt h = absurd (omega arith)
  mem-take (suc n) a [] lt h = h
  mem-take (suc n) a (x ∷ xs) lt (head e) = head e
  mem-take (suc n) a (x ∷ xs) lt (tail h) = tail (mem-take n a xs (omega arith) h)

-- A page has at most `limit` rows, each of them a stored Run of the status that is asked for and
-- after the cursor; a page that is not full has every such Run.
pub page_lem :
    (db : Database) (status : Option RunStatus) (limit : ℕ) (cursor : Option (ℕ × String))
    → (length (page db status limit cursor) ≤ limit)
      × ((r : Run)
          → Memᴰ r (page db status limit cursor)
          → Memᴰ r db.runs × ((has_status status r && is_after cursor r) ≡ true))
      × (length (page db status limit cursor) < limit
          → (r : Run) → Memᴰ r db.runs
          → (has_status status r && is_after cursor r) ≡ true
          → Memᴰ r (page db status limit cursor))
unfolding page
page_lem db status limit cursor =
    let here = λ (r : Run). has_status status r && is_after cursor r in
    let rows = select_rows here db.runs in
    (
      length-take_le limit (order_by newest_first rows),
      λ r m. select-mem here r db.runs (order_by-mem newest_first r rows (take-mem limit r _ m)),
      λ short r m e. mem-take limit r _ short (mem-order_by newest_first r (mem-select here r m e)),
    )
