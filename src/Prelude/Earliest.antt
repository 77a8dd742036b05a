-- ===== src/Prelude/Earliest.antt =====
-- ORDER BY a time LIMIT 1, over a list of rows, and what an UPDATE of one row does to a count.
use mathlib.Core.List.{Memᴰ}
use mathlib.Core.List.Memᴰ.{head, tail}
use Prim.Native.Nat.{ℕ, ◌+◌, ◌≤◌}
use mathlib.Core.Path.{◌≡◌, refl, ap, subst}
use mathlib.Core.Logic.{inl, inr}
use mathlib.Core.Bool.{Bool}
use mathlib.Core.Option.{some-injective, Option, none, some}
use mathlib.Core.List.{List, [], ◌∷◌}
use native.Mathlib.Omega.{arith}
use semiconductor_domain_lab.Prelude.Tests.{ltb, if◌then◌else◌, Bool-cases, Option-cases}
use semiconductor_domain_lab.Prelude.Table.{count_rows, fetch_one, update_rows, update-count_zero}

module _ {ℓ} {A : Type ℓ} where
  -- Of rows with one time, the row inserted first.
  unfoldable pub earliest : (A → ℕ) → List A → Option A
  earliest time [] = none
  earliest time (x ∷ xs) = elim (earliest time xs) [
    | none ↦ some x
    | some d ↦ if ltb (time d) (time x) then some d else some x
  ]

  pub earliest-none : (time : A → ℕ) (xs : List A) → earliest time xs ≡ none → xs ≡ []
  unfolding earliest
  earliest-none time [] h = refl
  earliest-none time (x ∷ xs) h =
      absurd (elim (Option-cases (earliest time xs)) [
        | inl n ↦ ground arith
        | inr (d, s) ↦ ground arith
      ])

  pub earliest-mem : (time : A → ℕ) (xs : List A) (a : A) → earliest time xs ≡ some a → Memᴰ a xs
  unfolding earliest
  earliest-mem time [] a h = absurd (cc)
  earliest-mem time (x ∷ xs) a h = elim (Option-cases (earliest time xs)) [
    | inl n ↦ head (ground arith)
    | inr (d, s) ↦ elim (Bool-cases (ltb (time d) (time x))) [
      | inl lt ↦ tail (earliest-mem time xs a (ground arith))
      | inr ge ↦ head (ground arith)
    ]
  ]

  not_before :
      (time : A → ℕ) (n m : ℕ) (xs : List A)
      → m ≤ n
      → count_rows (λ x. ltb (time x) n) xs ≡ 0
      → count_rows (λ x. ltb (time x) m) xs ≡ 0
  unfolding count_rows
  not_before time n m [] h c = refl
  not_before time n m (x ∷ xs) h c = ground (arith, not_before time n m xs h)

  -- No row is earlier than the one chosen.
  pub earliest-first :
      (time : A → ℕ) (xs : List A) (a : A)
      → earliest time xs ≡ some a
      → count_rows (λ x. ltb (time x) (time a)) xs ≡ 0
  unfolding earliest count_rows
  earliest-first time [] a h = refl
  earliest-first time (x ∷ xs) a h = elim (Option-cases (earliest time xs)) [
    | inl n ↦
        let same : x ≡ a = some-injective _ _ (rw n at h) in
        subst (λ y. count_rows (λ z. ltb (time z) (time y)) (x ∷ xs) ≡ 0) same
          (ground (arith, ap (count_rows (λ y. ltb (time y) (time x))) (earliest-none time xs n)))
    | inr (d, s) ↦ elim (Bool-cases (ltb (time d) (time x))) [
      | inl lt ↦
          let same : d ≡ a = some-injective _ _ (rw (s, lt) at h) in
          subst (λ y. count_rows (λ z. ltb (time z) (time y)) (x ∷ xs) ≡ 0) same
            (ground (arith, earliest-first time xs d s))
      | inr ge ↦
          let same : x ≡ a = some-injective _ _ (rw (s, ge) at h) in
          subst (λ y. count_rows (λ z. ltb (time z) (time y)) (x ∷ xs) ≡ 0) same
            (ground (
              arith,
              earliest-first time xs d s,
              not_before time (time d) (time x) xs (ground arith),
            ))
    ]
  ]

  -- An UPDATE of the one row of a key changes a count by that row alone.
  pub count-update_one :
      (q p : A → Bool) (f : A → A) (a : A) (xs : List A)
      → count_rows p xs ≤ 1
      → fetch_one p xs ≡ some a
      → count_rows q (update_rows p f xs) + (if q a then 1 else 0)
        ≡ count_rows q xs + (if q (f a) then 1 else 0)
  unfolding count_rows fetch_one update_rows
  count-update_one q p f a [] u h = absurd (cc)
  count-update_one q p f a (x ∷ xs) u h = elim (Bool-cases (p x)) [
    | inl e ↦
        let same : x ≡ a = some-injective _ _ (rw e at h) in
        rw (e, same) (ground (arith, rw e at u, update-count_zero p f xs))
    | inr e ↦
        rw e (ground (arith, rw e at u, count-update_one q p f a xs (ground arith) (rw e at h)))
  ]
