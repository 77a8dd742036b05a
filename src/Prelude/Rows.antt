-- ===== src/Prelude/Rows.antt =====
-- Which rows stand in a table, for proofs that follow one row through a query.
use Prim.Native.Nat.{◌≤◌}
use mathlib.Core.Path.{◌≡◌, refl, ap, fun_ext}
use mathlib.Core.Logic.{inl, inr}
use mathlib.Core.Bool.{Bool, true, false}
use mathlib.Core.Option.{some}
use mathlib.Core.List.{List, [], ◌∷◌, ◌++◌, Memᴰ}
use mathlib.Core.List.Memᴰ.{head, tail}
use Prim.Native.String.{String}
use text.Mathlib.Text.{◌==◌ as str_eq}
use text.Mathlib.TextEquality.{eq_iff}
use native.Mathlib.Omega.{arith}
use semiconductor_domain_lab.Prelude.Tests.{if◌then◌else◌, Bool-cases}
use semiconductor_domain_lab.Prelude.Table.{
  count_rows, select_rows, fetch_one, exists_row, order_by, insert_by, count-append, exists-count,
}

module _ {ℓ} {A : Type ℓ} where
  pub count-mem :
      (q : A → Bool) (a : A) {xs : List A} → Memᴰ a xs → q a ≡ true → 1 ≤ count_rows q xs
  unfolding count_rows
  count-mem q a (head p) e = rw (← p) (ground arith)
  count-mem q a (tail h) e = ground (arith, count-mem q a h e)

  -- The row that a unique key names.
  pub fetch-mem :
      (q : A → Bool) (a : A) {xs : List A}
      → Memᴰ a xs
      → q a ≡ true
      → count_rows q xs ≤ 1
      → fetch_one q xs ≡ some a
  unfolding count_rows fetch_one
  fetch-mem q a (head p) e u = rw (← p, e)
  fetch-mem q a (tail h) e u = ground (arith, fetch-mem q a h e, count-mem q a h e)

  mem-cons_if : (b : Bool) (a x : A) (ys : List A) → Memᴰ a ys → Memᴰ a (if b then x ∷ ys else ys)
  mem-cons_if true a x ys h = tail h
  mem-cons_if false a x ys h = h

  pub mem-select :
      (p : A → Bool) (a : A) {xs : List A} → Memᴰ a xs → p a ≡ true → Memᴰ a (select_rows p xs)
  unfolding select_rows
  mem-select p a (head q) e = rw (← q, e) (head refl)
  mem-select p a (tail {x = x} {xs = xs} h) e =
      mem-cons_if (p x) a x (select_rows p xs) (mem-select p a h e)

  mem-if :
      (b : Bool) (p : A → Bool) (a x : A) {xs ys : List A}
      → p x ≡ b
      → (Memᴰ a ys → Memᴰ a xs × (p a ≡ true))
      → Memᴰ a (if b then x ∷ ys else ys)
      → Memᴰ a (x ∷ xs) × (p a ≡ true)
  mem-if true p a x e ih (head q) = (head q, rw q e)
  mem-if true p a x e ih (tail h) = (tail (ih h).0, (ih h).1)
  mem-if false p a x e ih h = (tail (ih h).0, (ih h).1)

  -- A query returns rows of the table that pass its clause.
  pub select-mem :
      (p : A → Bool) (a : A) (xs : List A) → Memᴰ a (select_rows p xs) → Memᴰ a xs × (p a ≡ true)
  unfolding select_rows
  select-mem p a [] h = elim h [ ]
  select-mem p a (x ∷ xs) h = mem-if (p x) p a x refl (select-mem p a xs) h

  insert_by-mem :
      (le : A → A → Bool) (a x : A) (xs : List A) → Memᴰ a (insert_by le x xs) → Memᴰ a (x ∷ xs)
  unfolding insert_by
  insert_by-mem le a x [] h = h
  insert_by-mem le a x (y ∷ ys) h = choose (le x y) h (insert_by-mem le a x ys)
    where
      swap : Memᴰ a (x ∷ ys) → Memᴰ a (x ∷ y ∷ ys)
      swap (head q) = head q
      swap (tail s) = tail (tail s)

      choose :
          (b : Bool)
          → Memᴰ a (if b then x ∷ y ∷ ys else y ∷ insert_by le x ys)
          → (Memᴰ a (insert_by le x ys) → Memᴰ a (x ∷ ys))
          → Memᴰ a (x ∷ y ∷ ys)
      choose true h ih = h
      choose false (head q) ih = tail (head q)
      choose false (tail r) ih = swap (ih r)

  -- ORDER BY returns the rows that it is given, and all of them.
  pub order_by-mem : (le : A → A → Bool) (a : A) (xs : List A) → Memᴰ a (order_by le xs) → Memᴰ a xs
  unfolding order_by
  order_by-mem le a [] h = h
  order_by-mem le a (x ∷ xs) h =
      lift (insert_by-mem le a x (order_by le xs) h) (order_by-mem le a xs)
    where
      lift : Memᴰ a (x ∷ order_by le xs) → (Memᴰ a (order_by le xs) → Memᴰ a xs) → Memᴰ a (x ∷ xs)
      lift (head q) ih = head q
      lift (tail r) ih = tail (ih r)

  mem-insert_by :
      (le : A → A → Bool) (a x : A) (xs : List A) → Memᴰ a (x ∷ xs) → Memᴰ a (insert_by le x xs)
  unfolding insert_by
  mem-insert_by le a x [] h = h
  mem-insert_by le a x (y ∷ ys) h = choose (le x y) h (mem-insert_by le a x ys)
    where
      choose :
          (b : Bool)
          → Memᴰ a (x ∷ y ∷ ys)
          → (Memᴰ a (x ∷ ys) → Memᴰ a (insert_by le x ys))
          → Memᴰ a (if b then x ∷ y ∷ ys else y ∷ insert_by le x ys)
      choose true h ih = h
      choose false (head q) ih = tail (ih (head q))
      choose false (tail (head q)) ih = head q
      choose false (tail (tail r)) ih = tail (ih (tail r))

  pub mem-order_by : (le : A → A → Bool) (a : A) {xs : List A} → Memᴰ a xs → Memᴰ a (order_by le xs)
  unfolding order_by
  mem-order_by le a (head {xs = xs} q) = mem-insert_by le a _ (order_by le xs) (head q)
  mem-order_by le a (tail {xs = xs} h) =
      mem-insert_by le a _ (order_by le xs) (tail (mem-order_by le a h))

  pub select_none :
      (p : A → Bool) (xs : List A) → ((x : A) → Memᴰ x xs → p x ≡ false) → select_rows p xs ≡ []
  unfolding select_rows
  select_none p [] h = refl
  select_none p (x ∷ xs) h = rw (h x (head refl)) (select_none p xs (λ y m. h y (tail m)))

  pub exists_none : (p : A → Bool) (xs : List A) → ((x : A) → p x ≡ false) → exists_row p xs ≡ false
  unfolding exists_row
  exists_none p [] h = refl
  exists_none p (x ∷ xs) h = rw (h x) (exists_none p xs h)

  pub count_none : (p : A → Bool) (xs : List A) → ((x : A) → p x ≡ false) → count_rows p xs ≡ 0
  unfolding count_rows
  count_none p [] h = refl
  count_none p (x ∷ xs) h = ground (arith, count_none p xs h, h x)

  pub exists-mem :
      (p : A → Bool) (a : A) {xs : List A} → Memᴰ a xs → p a ≡ true → exists_row p xs ≡ true
  unfolding exists_row
  exists-mem p a (head q) e = rw (← q, e)
  exists-mem p a (tail h) e = ground (arith, exists-mem p a h e)

-- The row that a passing test has found.
pub exists-found {ℓ} :
    {A : Type ℓ} (p : A → Bool) (xs : List A)
    → exists_row p xs ≡ true
    → (a : A) × Memᴰ a xs × (p a ≡ true)
unfolding exists_row
exists-found p [] h = cc
exists-found p (x ∷ xs) h = elim (Bool-cases (p x)) [
  | inl e ↦ (x, head refl, e)
  | inr e ↦ let r = exists-found p xs (ground (arith, h, e)) in (r.0, tail r.1, r.2)
]

-- A primary key of texts stays unique when a row with a new key is inserted.
pub append_unique {ℓ} :
    {A : Type ℓ} (key : A → String) (xs : List A) (x : A)
    → exists_row (λ y. str_eq (key y) (key x)) xs ≡ false
    → (s : String) → count_rows (λ y. str_eq (key y) s) xs ≤ 1
    → count_rows (λ y. str_eq (key y) s) (xs ++ x ∷ []) ≤ 1
unfolding count_rows
append_unique key xs x new s h = elim (Bool-cases (str_eq (key x) s)) [
  | inr e ↦ rw (count-append (λ y. str_eq (key y) s) xs (x ∷ []), e) (omega arith)
  | inl e ↦
      rw (count-append (λ y. str_eq (key y) s) xs (x ∷ []), e)
        (omega (
          arith,
          ap (λ t. count_rows (λ y. str_eq (key y) t) xs) ((eq_iff (key x) s).0 e),
          exists-count (λ y. str_eq (key y) (key x)) xs new,
        ))
]

-- The same for a key of any columns: `p` is the clause of the new row's key.
pub append_unique_by {ℓ} :
    {A : Type ℓ} (p q : A → Bool) (xs : List A) (x : A)
    → exists_row p xs ≡ false
    → (q x ≡ true → (y : A) → q y ≡ p y)
    → count_rows q xs ≤ 1
    → count_rows q (xs ++ x ∷ []) ≤ 1
unfolding count_rows
append_unique_by {A} p q xs x new same h = elim (Bool-cases (q x)) [
  | inr e ↦ rw (count-append q xs (x ∷ []), e) (omega arith)
  | inl e ↦
      rw (count-append q xs (x ∷ []), e)
        (omega
          (arith, ap (λ (f : A → Bool). count_rows f xs) (fun_ext (same e)), exists-count p xs new))
]
