-- ===== src/Guard/Identifier/Laws.antt =====
-- What an accepted identifier is, and what sanitising gives.
use Prim.Native.String.{String}
use stackhouse.Prelude.{
  ℕ, zero, suc, ◌≤◌, ◌≡◌, refl, ◌≢◌, ◌↔◌, Bool, true, false, ◌&&◌, [], ◌∷◌, all, map, take, arith,
  length, length-take,
}
use stackhouse.Prelude.Text.{Text, byte_len, char_bytes}
use stackhouse.Errors.{ok}
use stackhouse.Guard.Identifier.{
  identifier_re, is_reserved, validate_identifier, is_start, is_word, sanitize_identifier,
  sanitize_char, sanitize_start,
}

-- The texts that the pattern `^[a-zA-Z_][a-zA-Z0-9_]*$` describes.
abbrev pub is_identifier : Text → Bool
is_identifier [] = false
is_identifier (c ∷ s) = is_start c && all is_word s

-- The documented meaning of the pattern, for the crate's matcher.
abbrev pub MatchesIdentifiers : (String → Text → Bool) → Type 0
MatchesIdentifiers is_match = (s : Text) → is_match identifier_re s ≡ is_identifier s

-- A word character takes one byte.
char_bytes-word : (c : ℕ) → is_word c ≡ true → char_bytes c ≡ 1
char_bytes-word c h = ground arith

byte_len-word : (s : Text) → all is_word s ≡ true → byte_len s ≡ length s
byte_len-word [] h = refl
byte_len-word (c ∷ s) h = ground (arith, char_bytes-word c, byte_len-word s)

module _ (is_match : String → Text → Bool) (pattern_holds : MatchesIdentifiers is_match) where
  -- Where the matcher reads the identifier pattern as documented, a name is accepted exactly if
  -- it is a letter or underscore followed by letters, digits and underscores, has at most 128
  -- characters, and is no reserved keyword in any case.
  pub validate_identifier_iff :
      (name : Text)
      → (validate_identifier is_match name ≡ ok tt)
        ↔ ((is_identifier name ≡ true) × (length name ≤ 128) × (is_reserved name ≡ false))
  unfolding validate_identifier
  validate_identifier_iff [] = (λ h. cc, λ h. cc h.0)
  validate_identifier_iff (c ∷ s) = (
    λ h. ground (arith, pattern_holds (c ∷ s), byte_len-word s, char_bytes-word c),
    λ h. ground (arith, pattern_holds (c ∷ s), byte_len-word s, char_bytes-word c),
  )

all-sanitize : (n : ℕ) (s : Text) → all is_word (take n (map sanitize_char s)) ≡ true
all-sanitize zero s = refl
all-sanitize (suc n) [] = refl
all-sanitize (suc n) (c ∷ s) = ground (arith, all-sanitize n s)

take-sanitize :
    (n : ℕ) (s : Text) → all is_word s ≡ true → length s ≤ n → take n (map sanitize_char s) ≡ s
take-sanitize zero [] h k = refl
take-sanitize zero (c ∷ s) h k = absurd (omega arith)
take-sanitize (suc n) [] h k = refl
take-sanitize (suc n) (c ∷ s) h k = ground (arith, take-sanitize n s)

is_identifier-sanitize : (c : ℕ) (s : Text) → is_identifier (sanitize_identifier (c ∷ s)) ≡ true
unfolding sanitize_identifier
is_identifier-sanitize c s = ground (arith, all-sanitize 127 s)

length-sanitize : (s : Text) → length (sanitize_identifier s) ≤ 128
unfolding sanitize_identifier
length-sanitize [] = omega arith
length-sanitize (c ∷ s) = length-take 128 (sanitize_start c ∷ map sanitize_char s)

sanitize_valid :
    (name : Text) → is_identifier name ≡ true → length name ≤ 128 → sanitize_identifier name ≡ name
unfolding sanitize_identifier
sanitize_valid [] h k = refl
sanitize_valid (c ∷ s) h k = ground (arith, take-sanitize 127 s)

-- Sanitising changes no name that has the form of an identifier and at most 128 characters, and
-- doing it twice is doing it once.
pub sanitize_identifier_idem :
    (name : Text)
    → (is_identifier name ≡ true → length name ≤ 128 → sanitize_identifier name ≡ name)
      × (sanitize_identifier (sanitize_identifier name) ≡ sanitize_identifier name)
sanitize_identifier_idem [] = (sanitize_valid [], unfold sanitize_identifier in refl)
sanitize_identifier_idem (c ∷ s) = (
  sanitize_valid (c ∷ s),
  sanitize_valid (sanitize_identifier (c ∷ s)) (is_identifier-sanitize c s)
      (length-sanitize (c ∷ s)),
)

module _ (is_match : String → Text → Bool) (pattern_holds : MatchesIdentifiers is_match) where
  -- Where the matcher reads the identifier pattern as documented, what sanitising makes of a
  -- name that is not empty is accepted unless it is a reserved keyword.
  pub validate_identifier-sanitize :
      (name : Text)
      → name ≢ []
      → is_reserved (sanitize_identifier name) ≡ false
      → validate_identifier is_match (sanitize_identifier name) ≡ ok tt
  validate_identifier-sanitize [] h k = absurd (h refl)
  validate_identifier-sanitize (c ∷ s) h k =
      (validate_identifier_iff is_match pattern_holds (sanitize_identifier (c ∷ s))).1
        (is_identifier-sanitize c s, length-sanitize (c ∷ s), k)
