-- ===== src/Prelude/Text.antt =====
-- Texts as lists of Unicode code points, and the methods of `str` that the program calls:
-- equality, `len` (bytes of UTF-8), ASCII case, `contains`, `starts_with`, `trim`, `split`,
-- `split_once`, `join` and the parsing of unsigned decimals.
use Prim.Native.Char.{code}
use Prim.Native.String.{String}
use Prim.Native.Nat.{ℕ, ◌+◌, ◌-◌, ◌*◌, ◌≤◌}
use mathlib.Core.Path.{◌≡◌, refl}
use mathlib.Core.Logic.{◌↔◌}
use mathlib.Core.Bool.{Bool, true, false, ◌&&◌, ◌||◌}
use mathlib.Core.Option.{Option, none, some}
use mathlib.Core.List.{List, [], ◌∷◌, ◌++◌, map, reverse}
use native.Mathlib.Omega.{arith}
use stackhouse.Prelude.Tests.{ltb, leb, ◌==◌, if◌then◌else◌}
use stackhouse.Prelude.Lists.{length, is_empty, any}

abbrev pub Text : Type 0
Text = List ℕ

-- The code points of a literal.
abbrev pub codes : String → Text
codes String.[] = []
codes (String.◌∷◌ c s) = code c ∷ codes s

abbrev pub text_eq : Text → Text → Bool
text_eq [] [] = true
text_eq [] (y ∷ ys) = false
text_eq (x ∷ xs) [] = false
text_eq (x ∷ xs) (y ∷ ys) = x == y && text_eq xs ys

pub text_eq_refl : (s : Text) → text_eq s s ≡ true
text_eq_refl [] = refl
text_eq_refl (x ∷ xs) = ground (arith, text_eq_refl xs)

text_eq-eq : (s t : Text) → text_eq s t ≡ true → s ≡ t
text_eq-eq [] [] h = refl
text_eq-eq [] (y ∷ ys) h = cc
text_eq-eq (x ∷ xs) [] h = cc
text_eq-eq (x ∷ xs) (y ∷ ys) h = ground (arith, text_eq-eq xs ys)

pub text_eq_iff : (s t : Text) → (text_eq s t ≡ true) ↔ (s ≡ t)
text_eq_iff s t = (text_eq-eq s t, λ e. rw e (text_eq_refl t))

-- `str::len`: the bytes of the UTF-8 encoding.
abbrev pub char_bytes : ℕ → ℕ
char_bytes c = if ltb c 0x80 then 1 else if ltb c 0x800 then 2 else if ltb c 0x10000 then 3 else 4

abbrev pub byte_len : Text → ℕ
byte_len [] = 0
byte_len (c ∷ s) = char_bytes c + byte_len s

pub byte_len-le : (s : Text) → length s ≤ byte_len s
byte_len-le [] = omega arith
byte_len-le (c ∷ s) = ground (arith, byte_len-le s)

abbrev pub is_upper : ℕ → Bool
is_upper c = leb b'A' c && leb c b'Z'

abbrev pub is_lower : ℕ → Bool
is_lower c = leb b'a' c && leb c b'z'

abbrev pub is_digit : ℕ → Bool
is_digit c = leb b'0' c && leb c b'9'

abbrev pub is_alpha : ℕ → Bool
is_alpha c = is_upper c || is_lower c

abbrev pub is_alnum : ℕ → Bool
is_alnum c = is_alpha c || is_digit c

-- Case folding on ASCII letters; every other character stays.
unfoldable pub lower_char : ℕ → ℕ
lower_char c = if is_upper c then c + 32 else c

unfoldable pub upper_char : ℕ → ℕ
upper_char c = if is_lower c then c - 32 else c

unfoldable pub to_lowercase : Text → Text
unfolding lower_char
to_lowercase s = map lower_char s

unfoldable pub to_uppercase : Text → Text
unfolding upper_char
to_uppercase s = map upper_char s

lower_char_idem : (c : ℕ) → lower_char (lower_char c) ≡ lower_char c
unfolding lower_char
lower_char_idem c = ground arith

map-lower_char_idem : (s : Text) → map lower_char (map lower_char s) ≡ map lower_char s
map-lower_char_idem [] = refl
map-lower_char_idem (c ∷ s) = cc (lower_char_idem c, map-lower_char_idem s)

pub to_lowercase_idem : (s : Text) → to_lowercase (to_lowercase s) ≡ to_lowercase s
unfolding to_lowercase
to_lowercase_idem s = map-lower_char_idem s

abbrev pub starts_with : Text → Text → Bool
starts_with [] s = true
starts_with (p ∷ ps) [] = false
starts_with (p ∷ ps) (c ∷ s) = p == c && starts_with ps s

-- `s.contains(p)`.
abbrev pub contains : Text → Text → Bool
contains p [] = is_empty p
contains p (c ∷ s) = starts_with p (c ∷ s) || contains p s

abbrev pub contains_char : ℕ → Text → Bool
contains_char k s = any (λ c. c == k) s

-- ASCII white space; the program trims only texts that are checked to be ASCII, or parsed after.
abbrev pub is_whitespace : ℕ → Bool
is_whitespace c = c == 32 || (leb 9 c && leb c 13)

abbrev pub trim_start : Text → Text
trim_start [] = []
trim_start (c ∷ s) = let rest = trim_start s in if is_whitespace c then rest else c ∷ s

abbrev pub trim : Text → Text
trim s = reverse (trim_start (reverse s))

-- `s.split(k)`: never empty.
abbrev pub split_step : ℕ → ℕ → List Text → List Text
split_step k c [] = []
split_step k c (w ∷ ws) = if c == k then [] ∷ w ∷ ws else (c ∷ w) ∷ ws

abbrev pub split : ℕ → Text → List Text
split k [] = [] ∷ []
split k (c ∷ s) = split_step k c (split k s)

-- `s.split_once(k)`.
abbrev pub before_step : ℕ → Option (Text × Text) → Option (Text × Text)
before_step c none = none
before_step c (some (a, b)) = some (c ∷ a, b)

abbrev pub split_once : ℕ → Text → Option (Text × Text)
split_once k [] = none
split_once k (c ∷ s) =
    let rest = split_once k s in if c == k then some ([], s) else before_step c rest

-- `parts.join(sep)`.
abbrev pub join : Text → List Text → Text
join sep [] = []
join sep (w ∷ []) = w
join sep (w ∷ (v ∷ ws)) = w ++ (sep ++ join sep (v ∷ ws))

-- `str::parse` into an unsigned integer below `limit`: an optional `+`, then digits.
abbrev pub parse_digits : ℕ → ℕ → Text → Option ℕ
parse_digits limit acc [] = some acc
parse_digits limit acc (c ∷ s) =
    let rest = parse_digits limit (acc * 10 + (c - b'0')) s in
    if is_digit c && ltb (acc * 10 + (c - b'0')) limit then rest else none

abbrev pub parse_some_digits : ℕ → Text → Option ℕ
parse_some_digits limit [] = none
parse_some_digits limit (c ∷ s) = parse_digits limit 0 (c ∷ s)

abbrev pub parse_unsigned : ℕ → Text → Option ℕ
parse_unsigned limit [] = none
parse_unsigned limit (c ∷ s) =
    if c == b'+' then parse_some_digits limit s else parse_digits limit 0 (c ∷ s)
