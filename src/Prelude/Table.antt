-- ===== src/Prelude/Table.antt =====
-- Tables as lists of rows, and what the SQL statements of the stores do to them.
use Prim.Native.Nat.{ℕ, ◌+◌, ◌≤◌}
use mathlib.Core.Path.{◌≡◌, refl}
use mathlib.Core.Bool.{Bool, true, false, ◌&&◌, ◌||◌}
use mathlib.Core.Option.{Option, none, some}
use mathlib.Core.List.{List, [], ◌∷◌, ◌++◌}
use native.Mathlib.Omega.{arith}
use semiconductor_domain_lab.Prelude.Tests.{if◌then◌else◌, coalesce}

module _ {ℓ} {A : Type ℓ} where
  -- UPDATE … SET f WHERE p
  unfoldable pub update_rows : (A → Bool) → (A → A) → List A → List A
  update_rows p f [] = []
  update_rows p f (x ∷ xs) = (if p x then f x else x) ∷ update_rows p f xs

  -- SELECT COUNT(*) … WHERE p, and the rowcount of an UPDATE
  unfoldable pub count_rows : (A → Bool) → List A → ℕ
  count_rows p [] = 0
  count_rows p (x ∷ xs) = (if p x then 1 else 0) + count_rows p xs

  -- SELECT … WHERE p
  unfoldable pub select_rows : (A → Bool) → List A → List A
  select_rows p [] = []
  select_rows p (x ∷ xs) = let rest = select_rows p xs in if p x then x ∷ rest else rest

  -- SELECT … WHERE p, with fetchone
  unfoldable pub fetch_one : (A → Bool) → List A → Option A
  fetch_one p [] = none
  fetch_one p (x ∷ xs) = let rest = fetch_one p xs in if p x then some x else rest

  -- EXISTS (SELECT 1 … WHERE p)
  unfoldable pub exists_row : (A → Bool) → List A → Bool
  exists_row p [] = false
  exists_row p (x ∷ xs) = p x || exists_row p xs

  -- ORDER BY; of rows that `le` does not tell apart, the one inserted first comes first.
  unfoldable pub insert_by : (A → A → Bool) → A → List A → List A
  insert_by le a [] = a ∷ []
  insert_by le a (b ∷ bs) = let rest = insert_by le a bs in if le a b then a ∷ b ∷ bs else b ∷ rest

  unfoldable pub order_by : (A → A → Bool) → List A → List A
  unfolding insert_by
  order_by le [] = []
  order_by le (a ∷ rest) = insert_by le a (order_by le rest)

  -- What an UPDATE does to the one row that a key names.
  abbrev pub set_if : (A → Bool) → (A → A) → Option A → Option A
  set_if g f none = none
  set_if g f (some x) = some (if g x then f x else x)

  -- Whether there is a row and it passes.
  abbrev pub passes : (A → Bool) → Option A → Bool
  passes g none = false
  passes g (some x) = g x

  module _ (q p : A → Bool) (f : A → A) (keeps : (x : A) → q (f x) ≡ q x) where
    -- An UPDATE that leaves the key alone keeps the number of rows of each key.
    pub count-update : (xs : List A) → count_rows q (update_rows p f xs) ≡ count_rows q xs
    unfolding count_rows update_rows
    count-update [] = refl
    count-update (x ∷ xs) = ground (arith, count-update xs, keeps x)

    pub count-update_le :
        (xs : List A) {n : ℕ} → count_rows q xs ≤ n → count_rows q (update_rows p f xs) ≤ n
    count-update_le xs h = omega (arith, count-update xs)

    pub exists-update : (xs : List A) → exists_row q (update_rows p f xs) ≡ exists_row q xs
    unfolding exists_row update_rows
    exists-update [] = refl
    exists-update (x ∷ xs) = ground (arith, exists-update xs, keeps x)

    pub fetch-update :
        (xs : List A) → fetch_one q (update_rows p f xs) ≡ set_if p f (fetch_one q xs)
    unfolding fetch_one update_rows
    fetch-update [] = refl
    fetch-update (x ∷ xs) = ground (arith, fetch-update xs, keeps x)

  -- What an UPDATE of one key's row does to that row.
  pub fetch-update_key :
      (q g : A → Bool) (f : A → A)
      → ((x : A) → q (f x) ≡ q x)
      → (xs : List A)
      → fetch_one q (update_rows (λ x. q x && g x) f xs) ≡ set_if g f (fetch_one q xs)
  unfolding fetch_one update_rows
  fetch-update_key q g f keeps [] = refl
  fetch-update_key q g f keeps (x ∷ xs) = ground (arith, fetch-update_key q g f keeps xs, keeps x)

  -- An UPDATE whose clause no row of the key passes leaves that key's row alone.
  pub fetch-update_other :
      (q p : A → Bool) (f : A → A)
      → ((x : A) → q (f x) ≡ q x)
      → ((x : A) → q x ≡ true → p x ≡ false)
      → (xs : List A) → fetch_one q (update_rows p f xs) ≡ fetch_one q xs
  unfolding fetch_one update_rows
  fetch-update_other q p f keeps apart [] = refl
  fetch-update_other q p f keeps apart (x ∷ xs) =
      ground (arith, fetch-update_other q p f keeps apart xs, keeps x, apart x)

  -- An UPDATE that no row passes does nothing.
  pub update-count_zero :
      (p : A → Bool) (f : A → A) (xs : List A) → count_rows p xs ≡ 0 → update_rows p f xs ≡ xs
  unfolding count_rows update_rows
  update-count_zero p f [] h = refl
  update-count_zero p f (x ∷ xs) h = ground (arith, update-count_zero p f xs)

  module _ (q g : A → Bool) where
    pub count-and-le : (xs : List A) → count_rows (λ x. q x && g x) xs ≤ count_rows q xs
    unfolding count_rows
    count-and-le [] = omega arith
    count-and-le (x ∷ xs) = ground (arith, count-and-le xs)

    -- Where a key names one row at most, the rowcount tells whether that row passes.
    pub count-key :
        (xs : List A)
        → count_rows q xs ≤ 1
        → count_rows (λ x. q x && g x) xs ≡ (if passes g (fetch_one q xs) then 1 else 0)
    unfolding count_rows fetch_one
    count-key [] h = refl
    count-key (x ∷ xs) h = ground (arith, count-key xs, count-and-le xs)

  pub count-append :
      (q : A → Bool) (xs ys : List A) → count_rows q (xs ++ ys) ≡ count_rows q xs + count_rows q ys
  unfolding count_rows
  count-append q [] ys = omega arith
  count-append q (x ∷ xs) ys = ground (arith, count-append q xs ys)

  pub fetch-append :
      (q : A → Bool) (xs ys : List A)
      → fetch_one q (xs ++ ys) ≡ coalesce (fetch_one q xs) (fetch_one q ys)
  unfolding fetch_one
  fetch-append q [] ys = refl
  fetch-append q (x ∷ xs) ys = ground (arith, fetch-append q xs ys)

  -- Whether a new row may take a key.
  pub count-fetch_none : (q : A → Bool) (xs : List A) → fetch_one q xs ≡ none → count_rows q xs ≡ 0
  unfolding fetch_one count_rows
  count-fetch_none q [] h = refl
  count-fetch_none q (x ∷ xs) h = ground (arith, count-fetch_none q xs)

  pub exists-count : (q : A → Bool) (xs : List A) → exists_row q xs ≡ false → count_rows q xs ≡ 0
  unfolding count_rows exists_row
  exists-count q [] h = refl
  exists-count q (x ∷ xs) h = ground (arith, exists-count q xs)

  pub exists-fetch : (q : A → Bool) (xs : List A) → exists_row q xs ≡ passes q (fetch_one q xs)
  unfolding fetch_one exists_row
  exists-fetch q [] = refl
  exists-fetch q (x ∷ xs) = ground (arith, exists-fetch q xs)

  pub fetch-IsSome : (q : A → Bool) (xs : List A) (x : A) → fetch_one q xs ≡ some x → q x ≡ true
  unfolding fetch_one
  fetch-IsSome q [] x h = cc
  fetch-IsSome q (y ∷ xs) x h = ground (arith, fetch-IsSome q xs x)

  module _ (le : A → A → Bool) (q : A → Bool) where
    count-insert_by :
        (a : A) (xs : List A)
        → count_rows q (insert_by le a xs) ≡ (if q a then 1 else 0) + count_rows q xs
    unfolding count_rows insert_by
    count-insert_by a [] = refl
    count-insert_by a (x ∷ xs) = ground (arith, count-insert_by a xs)

    -- ORDER BY neither loses nor adds a row.
    pub count-order_by : (xs : List A) → count_rows q (order_by le xs) ≡ count_rows q xs
    unfolding count_rows order_by
    count-order_by [] = refl
    count-order_by (x ∷ xs) = omega (arith, count-insert_by x (order_by le xs), count-order_by xs)

  pub count-select :
      (q p : A → Bool) (xs : List A)
      → count_rows q (select_rows p xs) ≡ count_rows (λ x. p x && q x) xs
  unfolding count_rows select_rows
  count-select q p [] = refl
  count-select q p (x ∷ xs) = ground (arith, count-select q p xs)

  pub fetch-absent : (q : A → Bool) (xs : List A) → exists_row q xs ≡ false → fetch_one q xs ≡ none
  unfolding fetch_one exists_row
  fetch-absent q [] h = refl
  fetch-absent q (x ∷ xs) h = ground (arith, fetch-absent q xs)

  -- An INSERT under a key that no row has is what the key then names.
  pub fetch-append_new :
      (q : A → Bool) (xs : List A) (x : A)
      → exists_row q xs ≡ false
      → q x ≡ true
      → fetch_one q (xs ++ x ∷ []) ≡ some x
  unfolding fetch_one exists_row
  fetch-append_new q [] x h e = rw e
  fetch-append_new q (y ∷ xs) x h e = ground (arith, fetch-append_new q xs x)

  pub fetch-append_other :
      (q : A → Bool) (xs : List A) (x : A)
      → q x ≡ false
      → fetch_one q (xs ++ x ∷ []) ≡ fetch_one q xs
  unfolding fetch_one
  fetch-append_other q [] x e = rw e
  fetch-append_other q (y ∷ xs) x e = ground (arith, fetch-append_other q xs x e)

  -- An UPDATE that moves the rows of `p` out of `q` takes that many off the count of `q`.
  pub count-update_out :
      (q p : A → Bool) (f : A → A)
      → ((x : A) → p x ≡ true → q x ≡ true)
      → ((x : A) → p x ≡ true → q (f x) ≡ false)
      → (xs : List A) → count_rows q (update_rows p f xs) + count_rows p xs ≡ count_rows q xs
  unfolding count_rows update_rows
  count-update_out q p f inside out [] = refl
  count-update_out q p f inside out (x ∷ xs) =
      ground (arith, count-update_out q p f inside out xs, inside x, out x)

  pub exists-append_new :
      (q : A → Bool) (xs : List A) (x : A) → q x ≡ true → exists_row q (xs ++ x ∷ []) ≡ true
  unfolding exists_row
  exists-append_new q [] x e = rw e
  exists-append_new q (y ∷ xs) x e = ground (arith, exists-append_new q xs x e)

  pub count-select_nil : (p : A → Bool) (xs : List A) → select_rows p xs ≡ [] → count_rows p xs ≡ 0
  unfolding count_rows select_rows
  count-select_nil p [] h = refl
  count-select_nil p (x ∷ xs) h = ground (arith, count-select_nil p xs)
