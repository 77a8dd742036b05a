-- ===== src/Parser/Numbers.antt =====
-- src/eda_lab/parser.py: the numbers that it reads, `int(…)`, the pattern NUMBER, and `float(…)` of
-- what that pattern matches. A float is the decimal number that its text spells; the digits are the
-- ASCII digits.
use Prim.Native.Nat.{◌^◌}
use Prim.Native.Char.{Char, code}
use semiconductor_domain_lab.Prelude.{
  ℕ, zero, suc, ◌≡◌, refl, ◌+◌, ◌*◌, ◌-◌, String, Bool, true, false, not, ◌&&◌, Option, none, some,
  if◌then◌else◌, ltb, leb, ◌==◌, str_eq,
}
use semiconductor_domain_lab.Prelude.Text.{strip_left}
use semiconductor_domain_lab.Models.{ℤ, pos, negsuc, Decimal}

-- \d
abbrev pub is_digit : Char → Bool
is_digit c = leb b'0' (code c) && leb (code c) b'9'

abbrev signed : Bool → ℕ → ℤ
signed false n = pos n
signed true zero = pos 0
signed true (suc n) = negsuc n

-- The digits in front: how many there are, the number that they continue, and what follows.
unfoldable pub take_digits : ℕ → ℕ → String → ℕ × ℕ × String
take_digits k v String.[] = (k, v, "")
take_digits k v (String.◌∷◌ c s) =
    let more = take_digits (suc k) (v * 10 + (code c - b'0')) s in
    if is_digit c then more else (k, v, String.◌∷◌ c s)

-- (?:\.\d+)?
fraction : Bool → ℕ → String → Decimal × String
unfolding take_digits
fraction minus v String.[] = (record { mantissa = signed minus v; scale = 0 }, "")
fraction minus v (String.◌∷◌ c s) =
    let (k, w, rest) = take_digits 0 v s in
    if code c == b'.' && not (k == 0)
    then (record { mantissa = signed minus w; scale = k }, rest)
    else (record { mantissa = signed minus v; scale = 0 }, String.◌∷◌ c s)

-- \d+(?:\.\d+)?
unsigned : Bool → String → Option (Decimal × String)
unfolding take_digits fraction
unsigned minus s =
    let (k, v, rest) = take_digits 0 0 s in if k == 0 then none else some (fraction minus v rest)

-- [-+]?\d+(?:\.\d+)?, and what follows it.
unfoldable pub read_number : String → Option (Decimal × String)
unfolding unsigned
read_number String.[] = none
read_number (String.◌∷◌ c s) =
    if code c == b'-'
    then unsigned true s
    else if code c == b'+'
    then unsigned false s
    else unsigned false (String.◌∷◌ c s)

pub data SlackUnit : Type 0 where
  ns ps : SlackUnit

unit_of : Decimal → String → Option (Decimal × SlackUnit)
unit_of d s =
    if str_eq s "ns"
    then some (d, SlackUnit.ns)
    else if str_eq s "ps"
    then some (d, SlackUnit.ps)
    else none

after_number : Option (Decimal × String) → Option (Decimal × SlackUnit)
unfolding unit_of
after_number none = none
after_number (some (d, rest)) = unit_of d (strip_left rest)

-- re.fullmatch(rf"({NUMBER})\s*(ns|ps)", text)
unfoldable pub read_slack : String → Option (Decimal × SlackUnit)
unfolding read_number after_number
read_slack s = after_number (read_number s)

-- The digits of `int(…)`, which may have single underscores between them.
unfoldable pub int_digits : Bool → ℕ → String → Option ℕ
int_digits after_digit v String.[] = if after_digit then some v else none
int_digits after_digit v (String.◌∷◌ c s) =
    let digit = int_digits true (v * 10 + (code c - b'0')) s in
    let underscore = int_digits false v s in
    if is_digit c then digit else if code c == b'_' && after_digit then underscore else none

abbrev with_sign : Bool → Option ℕ → Option ℤ
with_sign minus none = none
with_sign minus (some n) = some (signed minus n)

-- int(text), of a text that is stripped.
unfoldable pub read_int : String → Option ℤ
unfolding int_digits
read_int String.[] = none
read_int (String.◌∷◌ c s) =
    if code c == b'-'
    then with_sign true (int_digits false 0 s)
    else if code c == b'+'
    then with_sign false (int_digits false 0 s)
    else with_sign false (int_digits false 0 (String.◌∷◌ c s))

abbrev magnitude : ℤ → ℕ
magnitude (pos n) = n
magnitude (negsuc n) = suc n

-- math.isfinite: a magnitude from here on is rounded to infinity.
unfoldable pub is_finite : Decimal → Bool
is_finite d = ltb (magnitude d.mantissa) ((2 ^ 1024 - 2 ^ 970) * 10 ^ d.scale)

read_slack_test :
    read_slack "-12.50 ps" ≡ some (record { mantissa = negsuc 1249; scale = 2 }, SlackUnit.ps)
unfolding read_slack strip_left
read_slack_test = refl

read_int_test : (read_int "1_000" ≡ some (pos 1000)) × (read_int "1__0" ≡ none)
unfolding read_int
read_int_test = (refl, refl)

is_finite_test : is_finite (record { mantissa = pos 12; scale = 2 }) ≡ true
unfolding is_finite
is_finite_test = refl
