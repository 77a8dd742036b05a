-- ===== src/Prelude/Text.antt =====
-- The methods of Python's `str` that the sources call, as functions by clauses on the characters,
-- and what the line by line reading of a text gives for a text that was put together from lines.
use Prim.Native.Nat.{ℕ, zero, suc}
use Prim.Native.Char.{Char, code}
use Prim.Native.String.{String}
use mathlib.Core.Path.{◌≡◌, refl, ap, ◌∙◌}
use mathlib.Core.Bool.{Bool, true, false, not, ◌&&◌, ◌||◌}
use mathlib.Core.Option.{Option, none, some}
use mathlib.Core.List.{List, [], ◌∷◌, ◌++◌}
use native.Mathlib.Omega.{arith}
use semiconductor_domain_lab.Prelude.Tests.{◌==◌, leb, if◌then◌else◌}

-- a + b
infixr 65 ◌<>◌
unfoldable pub ◌<>◌ : String → String → String
String.[] <> t = t
String.◌∷◌ c s <> t = String.◌∷◌ c (s <> t)

abbrev between : ℕ → ℕ → ℕ → Bool
between a b n = leb a n && leb n b

-- The characters at which `splitlines` breaks a line.
unfoldable pub is_break : Char → Bool
is_break c =
    between 10 13 (code c) || between 28 30 (code c) || code c == 133 || between 8232 8233 (code c)

-- `str.isspace`
unfoldable pub is_space : Char → Bool
is_space c =
    between 9 13 (code c)
    || between 28 32 (code c)
    || code c == 133
    || code c == 160
    || code c == 5760
    || between 8192 8202 (code c)
    || between 8232 8233 (code c)
    || code c == 8239
    || code c == 8287
    || code c == 12288

abbrev starts_newline : String → Bool
starts_newline String.[] = false
starts_newline (String.◌∷◌ c s) = code c == 10

abbrev pub onto_first : Char → List String → List String
onto_first c [] = String.◌∷◌ c "" ∷ []
onto_first c (l ∷ ls) = String.◌∷◌ c l ∷ ls

-- text.splitlines(); a carriage return and a newline are one break.
unfoldable pub split_lines : String → List String
unfolding is_break
split_lines String.[] = []
split_lines (String.◌∷◌ c s) =
    let rest = split_lines s in
    if code c == 13 && starts_newline s
    then rest
    else if is_break c
    then "" ∷ rest
    else onto_first c rest

unfoldable pub strip_left : String → String
unfolding is_space
strip_left String.[] = ""
strip_left (String.◌∷◌ c s) = let rest = strip_left s in if is_space c then rest else String.◌∷◌ c s

abbrev is_empty : String → Bool
is_empty String.[] = true
is_empty (String.◌∷◌ c s) = false

unfoldable pub strip_right : String → String
unfolding is_space
strip_right String.[] = ""
strip_right (String.◌∷◌ c s) =
    let rest = strip_right s in if is_empty rest && is_space c then "" else String.◌∷◌ c rest

-- text.strip()
unfoldable pub strip : String → String
unfolding strip_left strip_right
strip s = strip_right (strip_left s)

-- text.startswith(prefix)
unfoldable pub starts_with : String → String → Bool
starts_with s String.[] = true
starts_with String.[] (String.◌∷◌ d t) = false
starts_with (String.◌∷◌ c s) (String.◌∷◌ d t) =
    let rest = starts_with s t in code c == code d && rest

abbrev onto_key : Char → Option (String × String) → Option (String × String)
onto_key c none = none
onto_key c (some (k, v)) = some (String.◌∷◌ c k, v)

-- text.split("=", 1), where there is a "="
unfoldable pub split_once : String → Option (String × String)
split_once String.[] = none
split_once (String.◌∷◌ c s) =
    let rest = split_once s in if code c == 61 then some ("", s) else onto_key c rest

-- Every line with a newline behind it.
unfoldable pub join_lines : List String → String
unfolding ◌<>◌
join_lines [] = ""
join_lines (l ∷ ls) = l <> String.◌∷◌ "\n" (join_lines ls)

-- "\n".join(lines)
unfoldable pub join_newline : List String → String
unfolding ◌<>◌
join_newline [] = ""
join_newline (l ∷ []) = l
join_newline (l ∷ k ∷ ls) = l <> String.◌∷◌ "\n" (join_newline (k ∷ ls))

-- len(text)
unfoldable pub size : String → ℕ
size String.[] = 0
size (String.◌∷◌ c s) = suc (size s)

-- c * n
unfoldable pub repeat : Char → ℕ → String
repeat c zero = ""
repeat c (suc n) = String.◌∷◌ c (repeat c n)

-- Whether the character is in the text.
unfoldable pub has_char : Char → String → Bool
has_char d String.[] = false
has_char d (String.◌∷◌ c s) = let rest = has_char d s in code c == code d || rest

-- Path(text).name, of a text that does not end in "/": what follows the last "/"
unfoldable pub file_name : String → String
unfolding has_char
file_name String.[] = ""
file_name (String.◌∷◌ c s) =
    let rest = file_name s in
    if has_char "/" s then rest else if code c == 47 then s else String.◌∷◌ c s

-- No character of the text breaks a line.
unfoldable pub is_line : String → Bool
unfolding is_break
is_line String.[] = true
is_line (String.◌∷◌ c s) = let rest = is_line s in not (is_break c) && rest

-- A text put together from lines is read line by line.
pub split_lines-join :
    (l rest : String)
    → is_line l ≡ true
    → split_lines (l <> String.◌∷◌ "\n" rest) ≡ l ∷ split_lines rest
unfolding split_lines is_line ◌<>◌ is_break
split_lines-join String.[] rest h = refl
split_lines-join (String.◌∷◌ c s) rest h = ground (arith, split_lines-join s rest)

pub is_line-append : (s t : String) → is_line s ≡ true → is_line t ≡ true → is_line (s <> t) ≡ true
unfolding is_line ◌<>◌
is_line-append String.[] t hs ht = ht
is_line-append (String.◌∷◌ c s) t hs ht = ground (arith, is_line-append s t)

-- No line of the list has a break in it.
unfoldable pub all_lines : List String → Bool
unfolding is_line
all_lines [] = true
all_lines (l ∷ ls) = let rest = all_lines ls in is_line l && rest

assoc : (s t u : String) → (s <> t) <> u ≡ s <> t <> u
unfolding ◌<>◌
assoc String.[] t u = refl
assoc (String.◌∷◌ c s) t u = ap (String.◌∷◌ c) (assoc s t u)

-- A text of lines, with anything behind them, is read back as those lines and the rest.
pub split_lines-join_newline :
    (l : String) (ls : List String) (t : String)
    → all_lines (l ∷ ls) ≡ true
    → split_lines ((join_newline (l ∷ ls) <> "\n") <> t) ≡ (l ∷ ls) ++ split_lines t
unfolding join_newline all_lines ◌<>◌
split_lines-join_newline l [] t h = rw (assoc l "\n" t) (split_lines-join l t (ground arith))
split_lines-join_newline l (k ∷ ls) t h =
    rw (assoc l (String.◌∷◌ "\n" (join_newline (k ∷ ls))) "\n") (
      rw (assoc l (String.◌∷◌ "\n" (join_newline (k ∷ ls) <> "\n")) t) (
        split_lines-join l ((join_newline (k ∷ ls) <> "\n") <> t) (ground arith)
        ∙ ap (λ r. l ∷ r) (split_lines-join_newline k ls t (ground arith))))

split_test : split_lines "a b\r\n\nc" ≡ "a b" ∷ "" ∷ "c" ∷ []
unfolding split_lines
split_test = refl

strip_test : strip "\t a b \n" ≡ "a b"
unfolding strip
strip_test = refl

split_once_test : split_once "k=v=w" ≡ some ("k", "v=w")
unfolding split_once
split_once_test = refl
