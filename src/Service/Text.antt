-- ===== src/Service/Text.antt =====
-- The messages that src/eda_lab/service.py puts together: `"; ".join(…)` and numbers in f-strings.
pub use Prim.Native.String.{◌++◌}
use Prim.Native.String.{String}
use semiconductor_domain_lab.Prelude.{
  ℕ, zero, suc, ◌/◌, ◌%◌, List, [], ◌∷◌, if◌then◌else◌, ltb, ◌==◌,
}
use semiconductor_domain_lab.Models.{ℤ, pos, negsuc}

-- separator.join(parts)
unfoldable pub join : String → List String → String
join sep [] = ""
join sep (s ∷ []) = s
join sep (s ∷ t ∷ rest) = s ++ (sep ++ join sep (t ∷ rest))

digit : ℕ → String
digit n =
    if n == 0
    then "0"
    else if n == 1
    then "1"
    else if n == 2
    then "2"
    else if n == 3
    then "3"
    else if n == 4
    then "4"
    else if n == 5
    then "5"
    else if n == 6
    then "6"
    else if n == 7
    then "7"
    else if n == 8
    then "8"
    else "9"

-- The fuel is the number of digits left to write.
show_digits : ℕ → ℕ → String
unfolding digit
show_digits zero n = ""
show_digits (suc f) n =
    let rest = show_digits f (n / 10) in if ltb n 10 then digit n else rest ++ digit (n % 10)

unfoldable pub show_ℕ : ℕ → String
unfolding show_digits
show_ℕ n = show_digits (suc n) n

unfoldable pub show_ℤ : ℤ → String
unfolding show_ℕ
show_ℤ (pos n) = show_ℕ n
show_ℤ (negsuc n) = "-" ++ show_ℕ (suc n)
