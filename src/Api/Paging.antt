-- ===== src/Api/Paging.antt =====
-- src/eda_lab/api.py: what a list of Runs is answered with.
use semiconductor_domain_lab.Prelude.{
  ℕ, zero, suc, ◌+◌, ◌≤◌, ◌<◌, String, Option, none, some, List, [], ◌∷◌, ◌≡◌, ◌≢◌, refl, ap, ◌⊎◌,
  inl, inr, arith, length,
}
use semiconductor_domain_lab.Prelude.Text.{strip}
use semiconductor_domain_lab.Models.{ℤ, pos, negsuc}
use semiconductor_domain_lab.Store.Schema.{Database}
use semiconductor_domain_lab.Store.Runs.{RunView}
use semiconductor_domain_lab.Store.Pages.{take}
use semiconductor_domain_lab.Parser.Numbers.{read_int}
use semiconductor_domain_lab.Api.{Payload, Sent, sent}
use semiconductor_domain_lab.Api.Request.{Libraries, Read, ◌>>=◌}
use semiconductor_domain_lab.Api.Lists.{
  Query, drop, last, next_cursor, encode, public_runs, page_of, listed, in_range, read_limit,
  limit_of, cursor_of, with_limit, read_query, rows_of, list_runs_handler,
}

in_range-bounds : (n : ℤ) (k : ℕ) → in_range n ≡ Read.read k → (1 ≤ k) × (k ≤ 100)
in_range-bounds (pos n) k h = ground (arith, h)
in_range-bounds (negsuc n) k h = ground (arith, h)

limit_of-bounds :
    (e : String → String) (limit : Option String) (k : ℕ)
    → limit_of e limit ≡ Read.read k
    → (1 ≤ k) × (k ≤ 100)
unfolding limit_of
limit_of-bounds e none k h = ground (arith, h)
limit_of-bounds e (some s) k h = go (read_int (strip s)) h
  where
    go : (o : Option ℤ) → read_limit e s o ≡ Read.read k → (1 ≤ k) × (k ≤ 100)
    go none g = ground (arith, g)
    go (some n) g = in_range-bounds n k g

length-public_runs : (rows : List RunView) → length (public_runs rows) ≡ length rows
unfolding public_runs
length-public_runs [] = refl
length-public_runs (v ∷ rows) = ground (arith, length-public_runs rows)

length-take : {A : Type 0} → (n : ℕ) (xs : List A) → n ≤ length xs → length (take n xs) ≡ n
unfolding take
length-take zero xs h = refl
length-take (suc n) [] h = absurd (omega (arith, h))
length-take (suc n) (x ∷ xs) h = omega (arith, length-take n xs (omega (arith, h)))

drop-short :
    {A : Type 0} → (n : ℕ) (xs : List A) → length xs ≤ n → (drop n xs ≡ []) × (take n xs ≡ xs)
unfolding drop take
drop-short zero [] h = (refl, refl)
drop-short zero (x ∷ xs) h = absurd (omega (arith, h))
drop-short (suc n) [] h = (refl, refl)
drop-short (suc n) (x ∷ xs) h =
    let r = drop-short n xs (omega (arith, h)) in (r.0, ap (λ ys. x ∷ ys) r.1)

drop-long : {A : Type 0} → (n : ℕ) (xs : List A) → n < length xs → drop n xs ≢ []
unfolding drop
drop-long n [] h e = absurd (omega (arith, h))
drop-long zero (x ∷ xs) h e = cc
drop-long (suc n) (x ∷ xs) h e = drop-long n xs (omega (arith, h)) e

-- What `_list_runs` sends for the rows that it has asked for, one more than its limit.
pub record Page (libs : Libraries) (limit : ℕ) (rows : List RunView) (answer : Sent) : Type 0 where
  pub status : answer.status ≡ 200
  pub within : (1 ≤ limit) × (limit ≤ 100)
  -- every row, and no cursor
  pub whole : length rows ≤ limit → answer.payload ≡ Payload.items (public_runs rows) none
  -- `limit` rows, and the cursor of the last of them
  pub continued :
      limit < length rows
      → (length (take limit rows) ≡ limit)
        × (answer.payload
            ≡ Payload.items (public_runs (take limit rows)) (encode libs (last (take limit rows))))

next_cursor-more :
    (libs : Libraries) (shown remaining : List RunView)
    → remaining ≢ []
    → next_cursor libs shown remaining ≡ encode libs (last shown)
unfolding next_cursor
next_cursor-more libs shown [] h = absurd (h refl)
next_cursor-more libs shown (v ∷ remaining) h = refl

page_of-Page :
    (libs : Libraries) (limit : ℕ) (rows : List RunView)
    → (1 ≤ limit) × (limit ≤ 100)
    → Page libs limit rows (page_of libs limit rows)
unfolding page_of next_cursor
page_of-Page libs limit rows bounds = record {
  status = refl;
  within = bounds;
  whole = λ short. let d = drop-short limit rows short in rw d.1 (rw d.0 refl);
  continued = λ long. (
    length-take limit rows (omega (arith, long)),
    ap (Payload.items (public_runs (take limit rows)))
        (next_cursor-more libs (take limit rows) (drop limit rows) (drop-long limit rows long)),
  );
}

read_both :
    (a : Read ℕ) (b : Read (Option (ℕ × String))) (limit : ℕ) (cursor : Option (ℕ × String))
    → ((k : ℕ) → a ≡ Read.read k → (1 ≤ k) × (k ≤ 100))
    → (a >>= with_limit b) ≡ Read.read (limit, cursor)
    → (1 ≤ limit) × (limit ≤ 100)
read_both (Read.refused e) b limit cursor bounds h = ground arith
read_both (Read.read k) (Read.refused e) limit cursor bounds h = ground arith
read_both (Read.read k) (Read.read c) limit cursor bounds h =
    let within = bounds k refl in ground (arith, h, within.0, within.1)

read_query-bounds :
    (libs : Libraries) (q : Query) (limit : ℕ) (cursor : Option (ℕ × String))
    → read_query libs q ≡ Read.read (limit, cursor)
    → (1 ≤ limit) × (limit ≤ 100)
unfolding read_query
read_query-bounds libs q limit cursor h =
    read_both (limit_of libs.int_error q.limit) (cursor_of libs q.cursor) limit cursor
      (limit_of-bounds libs.int_error q.limit) h

abbrev pub Answered : Libraries → Query → Database → Sent → Type 0
Answered libs q db answer =
    ((e : String) × (read_query libs q ≡ Read.refused e)
      × (answer ≡ sent 400 (Payload.error_text e)))
    ⊎ ((limit : ℕ) × (cursor : Option (ℕ × String)) × (read_query libs q
          ≡ Read.read (limit, cursor))
        × Page libs limit (rows_of db q.status (limit + 1) cursor) answer)

listed-Answered :
    (libs : Libraries) (q : Query) (db : Database) (r : Read (ℕ × Option (ℕ × String)))
    → read_query libs q ≡ r
    → Answered libs q db (listed libs q db r)
unfolding listed
listed-Answered libs q db (Read.refused e) h = inl (e, h, refl)
listed-Answered libs q db (Read.read (limit, cursor)) h = inr (
  limit,
  cursor,
  h,
  page_of-Page libs limit (rows_of db q.status (limit + 1) cursor)
      (read_query-bounds libs q limit cursor h),
)

-- A list of Runs is answered with 400 when its limit or its cursor cannot be read; otherwise with 200, a limit of 1 to 100, and of one row more than the
-- limit either all rows and no cursor, or as many as the limit and the cursor of the last.
pub list_runs_handler-Page :
    (libs : Libraries) (q : Query) (db : Database)
    → Answered libs q db (list_runs_handler libs q db)
unfolding list_runs_handler
list_runs_handler-Page libs q db = listed-Answered libs q db (read_query libs q) refl
