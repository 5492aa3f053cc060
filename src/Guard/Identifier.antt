-- ===== src/Guard/Identifier.antt =====
-- src/security/guard.rs: `validate_identifier` and `sanitize_identifier`. The regex crate's
-- `is_match` is a parameter, and the pattern is the source's.
pub mod Laws
use Prim.Native.String.{String}
use stackhouse.Prelude.{
  ℕ, Bool, true, false, ◌&&◌, ◌||◌, not, List, [], ◌∷◌, ◌==◌, ltb, if◌then◌else◌, is_empty, any,
  all, map, take,
}
use stackhouse.Prelude.Text.{Text, codes, text_eq, to_uppercase, byte_len, is_alpha, is_alnum}
use stackhouse.Errors.{Result, ok, invalid_identifier, fail_if, ◌>>=◌, ◌>>◌}

-- `IDENTIFIER_REGEX`
abbrev pub identifier_re : String
identifier_re = "^[a-zA-Z_][a-zA-Z0-9_]*$"

-- `RESERVED_KEYWORDS`
reserved_keywords : List String
reserved_keywords =
    "ALL" ∷ "ANALYSE" ∷ "ANALYZE" ∷ "AND" ∷ "ANY" ∷ "ARRAY" ∷ "AS" ∷ "ASC" ∷ "ASYMMETRIC"
    ∷ "AUTHORIZATION" ∷ "BINARY" ∷ "BOTH" ∷ "CASE" ∷ "CAST" ∷ "CHECK" ∷ "COLLATE" ∷ "COLLATION"
    ∷ "COLUMN" ∷ "CONCURRENTLY" ∷ "CONSTRAINT" ∷ "CREATE" ∷ "CROSS" ∷ "CURRENT_CATALOG"
    ∷ "CURRENT_DATE" ∷ "CURRENT_ROLE" ∷ "CURRENT_SCHEMA" ∷ "CURRENT_TIME" ∷ "CURRENT_TIMESTAMP"
    ∷ "CURRENT_USER" ∷ "DEFAULT" ∷ "DEFERRABLE" ∷ "DESC" ∷ "DISTINCT" ∷ "DO" ∷ "ELSE" ∷ "END"
    ∷ "EXCEPT" ∷ "FALSE" ∷ "FETCH" ∷ "FOR" ∷ "FOREIGN" ∷ "FREEZE" ∷ "FROM" ∷ "FULL" ∷ "GRANT"
    ∷ "GROUP" ∷ "HAVING" ∷ "ILIKE" ∷ "IN" ∷ "INITIALLY" ∷ "INNER" ∷ "INTERSECT" ∷ "INTO" ∷ "IS"
    ∷ "ISNULL" ∷ "JOIN" ∷ "LATERAL" ∷ "LEADING" ∷ "LEFT" ∷ "LIKE" ∷ "LIMIT" ∷ "LOCALTIME"
    ∷ "LOCALTIMESTAMP" ∷ "NATURAL" ∷ "NOT" ∷ "NOTNULL" ∷ "NULL" ∷ "OFFSET" ∷ "ON" ∷ "ONLY" ∷ "OR"
    ∷ "ORDER" ∷ "OUTER" ∷ "OVERLAPS" ∷ "PLACING" ∷ "PRIMARY" ∷ "REFERENCES" ∷ "RETURNING" ∷ "RIGHT"
    ∷ "SELECT" ∷ "SESSION_USER" ∷ "SIMILAR" ∷ "SOME" ∷ "SYMMETRIC" ∷ "TABLE" ∷ "TABLESAMPLE"
    ∷ "THEN" ∷ "TO" ∷ "TRAILING" ∷ "TRUE" ∷ "UNION" ∷ "UNIQUE" ∷ "USER" ∷ "USING" ∷ "VARIADIC"
    ∷ "VERBOSE" ∷ "WHEN" ∷ "WHERE" ∷ "WINDOW" ∷ "WITH" ∷ "ALTER" ∷ "DROP" ∷ "INDEX" ∷ "KEY"
    ∷ "TRUNCATE" ∷ "INSERT" ∷ "UPDATE" ∷ "DELETE" ∷ "SET" ∷ "RESET" ∷ "SHOW" ∷ "COPY" ∷ "EXPLAIN"
    ∷ "VACUUM" ∷ "REINDEX" ∷ "CLUSTER" ∷ "COMMENT" ∷ "LISTEN" ∷ "NOTIFY" ∷ "UNLISTEN" ∷ "LOCK"
    ∷ "REVOKE" ∷ "ABORT" ∷ "BEGIN" ∷ "COMMIT" ∷ "ROLLBACK" ∷ "SAVEPOINT" ∷ "RELEASE" ∷ "PREPARE"
    ∷ "EXECUTE" ∷ "DEALLOCATE" ∷ "DECLARE" ∷ "FETCH" ∷ "CLOSE" ∷ "MERGE" ∷ "CALL" ∷ "DO" ∷ "BIGINT"
    ∷ "BOOLEAN" ∷ "CHAR" ∷ "DECIMAL" ∷ "DOUBLE" ∷ "FLOAT" ∷ "INT" ∷ "INTEGER" ∷ "NUMERIC" ∷ "REAL"
    ∷ "SMALLINT" ∷ "TEXT" ∷ "VARCHAR" ∷ "DATE" ∷ "TIME" ∷ "TIMESTAMP" ∷ "INTERVAL" ∷ "BYTEA"
    ∷ "JSON" ∷ "JSONB" ∷ "UUID" ∷ "SERIAL" ∷ "BIGSERIAL" ∷ "MONEY" ∷ []

-- `RESERVED_KEYWORDS.contains(name.to_uppercase())`
unfoldable pub is_reserved : Text → Bool
unfolding reserved_keywords to_uppercase
is_reserved name = any (λ w. text_eq (codes w) (to_uppercase name)) reserved_keywords

module _ (is_match : String → Text → Bool) where
  unfoldable pub validate_identifier : Text → Result (Unit {0})
  validate_identifier name = do
    fail_if (is_empty name || ltb 128 (byte_len name))
        (invalid_identifier "Identifier '{}' must be 1-128 characters")
    fail_if (not (is_match identifier_re name)) (
        invalid_identifier
          "Identifier '{}' contains invalid characters. Use only alphanumeric and underscores, starting with a letter or underscore")
    fail_if (is_reserved name) (invalid_identifier "Identifier '{}' is a SQL reserved keyword")

abbrev pub is_start : ℕ → Bool
is_start c = is_alpha c || c == b'_'

abbrev pub is_word : ℕ → Bool
is_word c = is_alnum c || c == b'_'

abbrev sanitize_start : ℕ → ℕ
sanitize_start c = if is_start c then c else b'_'

abbrev sanitize_char : ℕ → ℕ
sanitize_char c = if is_word c then c else b'_'

unfoldable pub sanitize_identifier : Text → Text
sanitize_identifier [] = []
sanitize_identifier (c ∷ s) = take 128 (sanitize_start c ∷ map sanitize_char s)
