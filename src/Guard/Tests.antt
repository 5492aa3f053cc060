-- ===== src/Guard/Tests.antt =====
-- Runs of the guard on one small table, with a database that logs its statements.
use Prim.Native.String.{String}
use stackhouse.Prelude.{
  ℕ, ◌+◌, ◌≡◌, ◌≢◌, ◌↔◌, ◌≤◌, ◌<◌, ◌⊎◌, refl, inl, inr, Bool, true, false, Option, none, some, List,
  [], ◌∷◌, ◌++◌, arith, length, All, In, ltb, ◌==◌,
}
use stackhouse.Prelude.Text.{Text, codes, trim, contains, contains_char, to_lowercase}
use stackhouse.Prelude.Assoc.{get}
use stackhouse.Errors.{Result, ok, err, StackhouseError}
use stackhouse.Inference.{
  PgType, big_int, double_precision, text, InferredColumn, new, can_promote_to,
}
use stackhouse.Guard.{ColumnInfo, Row, max_columns_per_table, columns_of_rows}
use stackhouse.Guard.Identifier.{validate_identifier, sanitize_identifier, is_reserved}
use stackhouse.Guard.Identifier.Laws.{is_identifier, MatchesIdentifiers}
use stackhouse.Guard.Churn.{ChurnTracker, record_additions, count, prune}
use stackhouse.Guard.Churn
use stackhouse.Guard.Plan.{Plan, diff, by_lower, final_widens}
use stackhouse.Guard.Evolve
use stackhouse.Guard.Evolve.{Catalog, Guard, ensure_schema, validate_names, cached_answer}
use stackhouse.Guard.Evolve.{churn_error, fetch_table_info}
use stackhouse.Guard.Evolve.Changes.{Kept, ensure_schema-error}
use stackhouse.Guard.Tables.{get_table_schema}
use stackhouse.Guard.Tables.Cache.{IsFresh, uncached_schema, get_table_schema-IsFresh}
use stackhouse.Guard.Expression.{validate_sql_expression, has_keyword}
use stackhouse.Guard.Expression.Laws.{validate_sql_expression-safe, has_keyword-first_place_only}
use stackhouse.Errors.{ok-injective}
use stackhouse.Guard.Evolve.Success.{Carried, ensure_schema-ok}
use stackhouse.Guard.Evolve.Limits.{ensure_schema-WithinLimit, WithinLimit}

-- The matcher of the identifier pattern.
abbrev matcher : String → Text → Bool
matcher pattern s = is_identifier s

abbrev row : Text → Text → Row
row n t = record { name = some n; data_type = some t; is_nullable = some (codes "YES") }

abbrev rows : List Row
rows = row (codes "id") (codes "bigint") ∷ row (codes "score") (codes "integer") ∷ []

abbrev logging : Catalog
logging = record {
  Db = List Text;
  query = λ d s. ok rows;
  run = λ d s. some (s ∷ d);
  count_rows = λ d s. ok 0;
  begin = λ d. some d;
  lock = λ d s. some d;
  query_tx = λ d s. some rows;
  execute = λ d s. some (s ∷ d);
  notify = λ d s. some d;
  commit = λ d. some d;
  rollback = λ d. some d;
  register = λ d a b e. some d;
}

abbrev guard : Guard (List Text)
guard = record {
  schema_cache = [];
  churn_tracker = [];
  max_new_columns_per_window = 20;
  churn_window = 60;
  db = [];
}

abbrev wanted : List InferredColumn
wanted =
    record {
      name = codes "Score";
      pg_type = double_precision;
      is_nested = false;
      is_nullable = true;
    }
    ∷ record { name = codes "label"; pg_type = text; is_nested = false; is_nullable = true }
    ∷ []

abbrev answer : List (Text × PgType)
answer = (codes "Score", double_precision) ∷ (codes "label", text) ∷ []

abbrev run : Result (List (Text × PgType)) × Guard (List Text)
run = ensure_schema logging matcher guard (codes "games") wanted 5 6

run_ok : run.0 ≡ ok answer
unfolding ensure_schema validate_identifier is_reserved stackhouse.Errors.for_each get diff
    stackhouse.Guard.Plan.plan_column stackhouse.Guard.Plan.is_base to_lowercase by_lower
    columns_of_rows stackhouse.Prelude.Assoc.insert stackhouse.Inference.from_data_type
    stackhouse.Inference.pg_eq stackhouse.Inference.common_type can_promote_to Evolve.admit count
    Churn.new prune Evolve.tracker_of stackhouse.Guard.Plan.and_then
    stackhouse.Guard.Plan.no_changes stackhouse.Guard.column_info stackhouse.Prelude.Assoc.get_or
    stackhouse.Prelude.Text.lower_char stackhouse.Prelude.Text.to_uppercase
    stackhouse.Prelude.Text.upper_char stackhouse.Guard.Plan.widen_sql final_widens
    stackhouse.Guard.Plan.alter_table stackhouse.Guard.Plan.add_sql
run_ok = refl

ensure_schema-ok_example :
    (validate_names logging matcher (codes "games") wanted ≡ ok tt)
    × (((run.1 ≡ guard)
          × (cached_answer logging matcher guard (codes "games") wanted ≡ some answer))
        ⊎ Carried logging matcher guard (codes "games") wanted answer run.1)
ensure_schema-ok_example =
    ensure_schema-ok logging matcher guard (codes "games") wanted 5 6 answer run_ok

guard-WithinLimit : WithinLimit guard 5
unfolding get
guard-WithinLimit table tracker h = cc

ensure_schema-WithinLimit_example : WithinLimit run.1 6
ensure_schema-WithinLimit_example =
    ensure_schema-WithinLimit logging matcher guard (codes "games") wanted 5 6 guard-WithinLimit
      (omega arith)

-- A guard that allows no new column.
abbrev strict : Guard (List Text)
strict = record guard { max_new_columns_per_window = 0 }

abbrev strict_run : Result (List (Text × PgType)) × Guard (List Text)
strict_run = ensure_schema logging matcher strict (codes "games") wanted 5 6

strict_run_err : strict_run.0 ≡ err churn_error
unfolding ensure_schema validate_identifier is_reserved stackhouse.Errors.for_each get diff
    stackhouse.Guard.Plan.plan_column stackhouse.Guard.Plan.is_base to_lowercase by_lower
    columns_of_rows stackhouse.Prelude.Assoc.insert stackhouse.Inference.from_data_type
    stackhouse.Inference.pg_eq stackhouse.Inference.common_type can_promote_to Evolve.admit count
    Churn.new prune Evolve.tracker_of stackhouse.Guard.Plan.and_then
    stackhouse.Guard.Plan.no_changes stackhouse.Guard.column_info stackhouse.Prelude.Assoc.get_or
    stackhouse.Prelude.Text.lower_char stackhouse.Prelude.Text.to_uppercase
    stackhouse.Prelude.Text.upper_char
strict_run_err = refl

ensure_schema-error_example : Kept strict strict_run.1
ensure_schema-error_example =
    ensure_schema-error logging matcher strict (codes "games") wanted 5 6 churn_error strict_run_err

-- A guard whose cache holds what the database holds.
abbrev warm : Guard (List Text)
warm = record guard { schema_cache = (codes "games", columns_of_rows rows) ∷ [] }

warm-IsFresh : IsFresh logging matcher warm
unfolding get fetch_table_info
warm-IsFresh table columns h = ground arith

get_table_schema-IsFresh_example :
    ((get_table_schema logging matcher warm (codes "games")).0
      ≡ uncached_schema logging matcher warm (codes "games"))
    × IsFresh logging matcher (get_table_schema logging matcher warm (codes "games")).1
get_table_schema-IsFresh_example =
    get_table_schema-IsFresh logging matcher warm (codes "games") warm-IsFresh

stale_payload_ne : trim (codes " games\n") ≢ []
stale_payload_ne h = cc

matcher-MatchesIdentifiers : MatchesIdentifiers matcher
matcher-MatchesIdentifiers s = refl

words_ne : codes "2 words" ≢ []
words_ne h = cc

words_free : is_reserved (sanitize_identifier (codes "2 words")) ≡ false
unfolding is_reserved sanitize_identifier
words_free = refl

owner_accepted : validate_sql_expression (codes "owner = current_user_id()") ≡ ok tt
unfolding validate_sql_expression stackhouse.Guard.Expression.has_comment to_lowercase has_keyword
    stackhouse.Guard.Expression.is_allowed
owner_accepted = refl

validate_sql_expression-safe_example :
    (codes "owner = current_user_id()" ≢ [])
    × (length (codes "owner = current_user_id()") ≤ 2048)
    × All (λ c. c < 128) (codes "owner = current_user_id()")
    × (contains_char b';' (codes "owner = current_user_id()") ≡ false)
    × (contains (codes "--") (codes "owner = current_user_id()") ≡ false)
    × (contains (codes "/*") (codes "owner = current_user_id()") ≡ false)
    × (contains (codes "*/") (codes "owner = current_user_id()") ≡ false)
validate_sql_expression-safe_example =
    validate_sql_expression-safe (codes "owner = current_user_id()") owner_accepted

has_keyword-first_place_only_example :
    has_keyword
      (b'_' ∷ ((b's' ∷ codes "elect") ++ codes " = 1 or (select true)"))
      (b's' ∷ codes "elect")
    ≡ false
has_keyword-first_place_only_example =
    has_keyword-first_place_only b's' (codes "elect") (codes " = 1 or (select true)") refl

-- An expression with a subquery is accepted.
subquery_accepted : validate_sql_expression (codes "_select = 1 or (select true)") ≡ ok tt
unfolding validate_sql_expression stackhouse.Guard.Expression.has_comment to_lowercase has_keyword
    stackhouse.Guard.Expression.is_allowed
subquery_accepted = refl

abbrev tracker : ChurnTracker
tracker = record { additions = 3 ∷ 40 ∷ 95 ∷ [] }
