-- ===== src/Guard/Expression/Laws.antt =====
-- Accepted RLS expressions, and the test for keywords.
use stackhouse.Prelude.{
  ℕ, ◌≤◌, ◌<◌, ◌≡◌, refl, ap₂, sym, ◌∙◌, ◌≢◌, Bool, true, false, ◌||◌, not, [], ◌∷◌, ◌++◌, ◌==◌,
  ltb, is_empty, all, map, length, arith, All,
}
use stackhouse.Prelude.Text.{
  Text, codes, to_lowercase, lower_char, byte_len, byte_len-le, starts_with, contains,
  contains_char,
}
use stackhouse.Errors.{ok, fail_if-ok, fail_if-last}
use stackhouse.Guard.Expression.{validate_sql_expression, is_allowed, has_comment, has_keyword}

lower_mark : (m c : ℕ) → m < 65 → (lower_char c == m) ≡ (c == m)
unfolding lower_char
lower_mark m c h = ground arith

contains_char-lower :
    (m : ℕ) (s : Text) → m < 65 → contains_char m (map lower_char s) ≡ contains_char m s
contains_char-lower m [] h = refl
contains_char-lower m (c ∷ s) h = ground (arith, lower_mark m c h, contains_char-lower m s h)

mark_lower : (m c : ℕ) → m < 65 → (m == lower_char c) ≡ (m == c)
unfolding lower_char
mark_lower m c h = ground arith

starts_with-lower :
    (m n : ℕ) (s : Text)
    → m < 65
    → n < 65
    → starts_with (m ∷ n ∷ []) (map lower_char s) ≡ starts_with (m ∷ n ∷ []) s
starts_with-lower m n [] h k = refl
starts_with-lower m n (c ∷ []) h k = rw (mark_lower m c h) refl
starts_with-lower m n (c ∷ d ∷ s) h k = rw (mark_lower m c h, mark_lower n d k) refl

contains-lower :
    (m n : ℕ) (s : Text)
    → m < 65
    → n < 65
    → contains (m ∷ n ∷ []) (map lower_char s) ≡ contains (m ∷ n ∷ []) s
contains-lower m n [] h k = refl
contains-lower m n (c ∷ s) h k =
    ap₂ (λ x y. x || y) (starts_with-lower m n (c ∷ s) h k) (contains-lower m n s h k)

has_comment-lower : (s : Text) → has_comment (to_lowercase s) ≡ has_comment s
unfolding has_comment to_lowercase
has_comment-lower s =
    rw
      (
        contains_char-lower b';' s (omega arith),
        contains-lower b'-' b'-' s (omega arith) (omega arith),
        contains-lower b'/' b'*' s (omega arith) (omega arith),
        contains-lower b'*' b'/' s (omega arith) (omega arith),
      )
      refl

allowed_ascii : (c : ℕ) → is_allowed c ≡ true → c < 128
unfolding is_allowed
allowed_ascii c h = ground arith

allowed-All : (s : Text) → all is_allowed s ≡ true → All (λ c. c < 128) s
allowed-All [] h = tt
allowed-All (c ∷ s) h = ground (arith, allowed_ascii c, allowed-All s)

comment_parts :
    (s : Text)
    → has_comment s ≡ false
    → (contains_char b';' s ≡ false)
      × (contains (codes "--") s ≡ false)
      × (contains (codes "/*") s ≡ false)
      × (contains (codes "*/") s ≡ false)
unfolding has_comment
comment_parts s h = ground arith

not_empty :
    (s : Text) → (is_empty s || ltb 2048 (byte_len s)) ≡ false → (s ≢ []) × (length s ≤ 2048)
not_empty [] h = cc
not_empty (c ∷ s) h = (λ e. cc, ground (arith, byte_len-le (c ∷ s)))

of_not : (b : Bool) → not b ≡ false → b ≡ true
of_not b h = ground arith

-- An accepted expression is not empty, has at most 2048 characters, all of them ASCII, and holds
-- no statement terminator and no comment mark.
pub validate_sql_expression-safe :
    (expr : Text)
    → validate_sql_expression expr ≡ ok tt
    → (expr ≢ [])
      × (length expr ≤ 2048)
      × All (λ c. c < 128) expr
      × (contains_char b';' expr ≡ false)
      × (contains (codes "--") expr ≡ false)
      × (contains (codes "/*") expr ≡ false)
      × (contains (codes "*/") expr ≡ false)
unfolding validate_sql_expression
validate_sql_expression-safe expr h =
    let (sized, h1) = fail_if-ok _ _ _ h in
    let (clean, h2) = fail_if-ok _ _ _ h1 in
    let (_, h3) = fail_if-ok _ _ _ h2 in
    let kinds = fail_if-last (not (all is_allowed expr)) _ h3 in
    let (filled, short) = not_empty expr sized in
    let (a, b, c, d) = comment_parts expr (sym (has_comment-lower expr) ∙ clean) in
    (filled, short, allowed-All expr (of_not _ kinds), a, b, c, d)

starts_with-append : (w rest : Text) → starts_with w (w ++ rest) ≡ true
starts_with-append [] rest = refl
starts_with-append (c ∷ w) rest = ground (arith, starts_with-append w rest)

-- The keyword test looks at the first place of a keyword only: in a text that begins with an
-- underscore and the keyword, the keyword is overlooked, whatever comes behind, also the keyword
-- standing alone. The keyword does not begin with an underscore.
pub has_keyword-first_place_only :
    (k : ℕ) (ks rest : Text)
    → (k == b'_') ≡ false
    → has_keyword (b'_' ∷ ((k ∷ ks) ++ rest)) (k ∷ ks) ≡ false
unfolding has_keyword
has_keyword-first_place_only k ks rest h = rw (h, starts_with-append (k ∷ ks) rest) refl
