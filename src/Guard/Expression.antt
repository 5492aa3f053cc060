-- ===== src/Guard/Expression.antt =====
-- src/security/guard.rs: `validate_sql_expression`. Letters outside ASCII are kept by the model's
-- `to_lowercase`: the last test refuses any text with such a character, so the verdict is the same.
pub mod Laws
use Prim.Native.String.{String}
use stackhouse.Prelude.{
  ℕ, Bool, true, false, ◌&&◌, ◌||◌, not, Option, none, some, List, [], ◌∷◌, ◌==◌, ltb,
  if◌then◌else◌, is_empty, any, all, length, drop,
}
use stackhouse.Prelude.Text.{
  Text, codes, to_lowercase, byte_len, is_alnum, starts_with, contains, contains_char,
}
use stackhouse.Errors.{Result, ok, invalid_payload, fail_if, ◌>>=◌, ◌>>◌}

abbrev pub forbidden_keywords : List String
forbidden_keywords =
    "delete" ∷ "drop" ∷ "insert" ∷ "update" ∷ "create" ∷ "alter" ∷ "grant" ∷ "revoke" ∷ "truncate"
    ∷ "execute" ∷ "exec" ∷ "union" ∷ "select" ∷ "copy" ∷ "listen" ∷ "notify" ∷ "load" ∷ "set"
    ∷ "reset" ∷ "show" ∷ []

abbrev pub is_word_char : ℕ → Bool
is_word_char c = is_alnum c || c == b'_'

-- `x.map_or(true, |c| !is_word_char(c))`
abbrev pub no_word : Option ℕ → Bool
no_word none = true
no_word (some c) = not (is_word_char c)

abbrev next_char : Text → Option ℕ
next_char [] = none
next_char (c ∷ s) = some c

-- `normalized.find(keyword)`, with the characters before and after that first place. `before` is
-- the character in front of the text.
first_place : Text → Option ℕ → Text → Option (Option ℕ × Option ℕ)
first_place keyword before [] = none
first_place keyword before (c ∷ s) =
    let later = first_place keyword (some c) s in
    if starts_with keyword (c ∷ s)
    then some (before, next_char (drop (length keyword) (c ∷ s)))
    else later

abbrev stands_alone : Option (Option ℕ × Option ℕ) → Bool
stands_alone none = false
stands_alone (some (before, after)) = no_word before && no_word after

-- The body of the loop over the keywords.
unfoldable pub has_keyword : Text → Text → Bool
unfolding first_place
has_keyword normalized keyword = stands_alone (first_place keyword none normalized)

abbrev allowed_marks : Text
allowed_marks = codes " \t\n\r_.,()[]'\"=<>!+-*/%|&~#:?@"

unfoldable pub is_allowed : ℕ → Bool
is_allowed c = is_alnum c || contains_char c allowed_marks

unfoldable pub has_comment : Text → Bool
has_comment s =
    contains_char b';' s
    || contains (codes "--") s
    || contains (codes "/*") s
    || contains (codes "*/") s

unfoldable pub validate_sql_expression : Text → Result (Unit {0})
validate_sql_expression expr = do
  fail_if (is_empty expr || ltb 2048 (byte_len expr))
      (invalid_payload "RLS expression must be 1-2048 characters")
  let normalized = to_lowercase expr
  fail_if (has_comment normalized)
      (invalid_payload "RLS expression contains forbidden characters or comments")
  fail_if (any (λ w. has_keyword normalized (codes w)) forbidden_keywords)
      (invalid_payload "RLS expression contains forbidden keyword '{}'")
  fail_if (not (all is_allowed expr)) (invalid_payload "RLS expression contains invalid characters")
