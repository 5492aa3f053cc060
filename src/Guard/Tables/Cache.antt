-- ===== src/Guard/Tables/Cache.antt =====
-- The cache of columns, against reads of the database.
use Prim.Native.String.{String}
use stackhouse.Prelude.{
  ◌≡◌, ◌≢◌, refl, sym, subst, inl, inr, Bool, none, some, List, [], ◌∷◌, arith, Option-cases,
}
use stackhouse.Prelude.Text.{Text, text_eq_iff, trim}
use stackhouse.Prelude.Assoc.{get, get-insert, get-remove, get-remove_self}
use stackhouse.Errors.{Result-cases, Result, ok, err, ◌>>◌}
use stackhouse.Guard.{ColumnInfo}
use stackhouse.Guard.Identifier.{validate_identifier}
use stackhouse.Guard.Evolve.{Catalog, Guard, fetch_table_info}
use stackhouse.Guard.Tables.{
  cache_table, uncache, evict, remember, fetch_and_remember, get_table_schema,
}

module _ (c : Catalog) (is_match : String → Text → Bool) where
  open c use {Db}

  -- Every cached table is as the database has it.
  abbrev pub IsFresh : Guard Db → Type 0
  IsFresh g =
      (table : Text) (columns : List ColumnInfo)
      → get table g.schema_cache ≡ some columns
      → fetch_table_info c is_match g table ≡ ok columns

  -- The answer without a cache.
  abbrev pub uncached_schema : Guard Db → Text → Result (List ColumnInfo)
  uncached_schema g table =
      validate_identifier is_match table >> fetch_table_info c is_match g table

  cache_table-IsFresh :
      (g : Guard Db) (table : Text) (columns : List ColumnInfo)
      → IsFresh g
      → fetch_table_info c is_match g table ≡ ok columns
      → IsFresh (cache_table g table columns)
  unfolding cache_table fetch_table_info
  cache_table-IsFresh g table columns fresh f other found e = ground (
    arith,
    get-insert table other columns g.schema_cache,
    text_eq_iff table other,
    fresh other found,
  )

  uncache-IsFresh : (g : Guard Db) (table : Text) → IsFresh g → IsFresh (uncache g table)
  unfolding uncache fetch_table_info
  uncache-IsFresh g table fresh other found e =
      ground (arith, get-remove table other g.schema_cache, fresh other found)

  remember-IsFresh :
      (g : Guard Db) (table : Text) (columns : List ColumnInfo)
      → IsFresh g
      → fetch_table_info c is_match g table ≡ ok columns
      → IsFresh (remember c is_match g table columns)
  unfolding remember
  remember-IsFresh g table [] fresh f = fresh
  remember-IsFresh g table (column ∷ columns) fresh f =
      cache_table-IsFresh g table (column ∷ columns) fresh f

  uncache_missing : (g : Guard Db) (table : Text) → get table (uncache g table).schema_cache ≡ none
  unfolding uncache
  uncache_missing g table = get-remove_self table g.schema_cache

  evict_lem :
      (g : Guard Db) (payload : Text)
      → trim payload ≢ []
      → evict g payload ≡ uncache g (trim payload)
  unfolding evict
  evict_lem g payload h = ground arith

  abbrev Answers : Guard Db → Text → Result (List ColumnInfo) × Guard Db → Type 0
  Answers g table x = (x.0 ≡ uncached_schema g table) × IsFresh x.1

  fetch_and_remember-Answers :
      (g : Guard Db) (table : Text)
      → validate_identifier is_match table ≡ ok tt
      → IsFresh g
      → Answers g table (fetch_and_remember c is_match g table)
  unfolding fetch_and_remember
  fetch_and_remember-Answers g table v fresh =
      elim (Result-cases (fetch_table_info c is_match g table)) [
        | inl (e, f) ↦
            subst (Answers g table) {x = (err e, g)} (rw (f, fetch_and_remember) refl)
              (rw (v, f) refl, fresh)
        | inr (columns, f) ↦
            subst (Answers g table) {x = (ok columns, remember c is_match g table columns)}
              (rw (f, fetch_and_remember) refl)
              (rw (v, f) refl, remember-IsFresh g table columns fresh f)
      ]

  -- While the cache holds what the database holds, `get_table_schema` answers as if there were no
  -- cache: the identifier's error, or the columns read from the database. The cache stays so.
  pub get_table_schema-IsFresh :
      (g : Guard Db) (table : Text)
      → IsFresh g
      → ((get_table_schema c is_match g table).0 ≡ uncached_schema g table)
        × IsFresh (get_table_schema c is_match g table).1
  unfolding get_table_schema
  get_table_schema-IsFresh g table fresh =
      elim (Result-cases (validate_identifier is_match table)) [
        | inl (e, v) ↦
            subst (Answers g table) {x = (err e, g)} (rw (v, get_table_schema) refl)
              (rw v refl, fresh)
        | inr (_, v) ↦ elim (Option-cases (get table g.schema_cache)) [
          | inr (columns, k) ↦
              subst (Answers g table) {x = (ok columns, g)} (rw (v, k, get_table_schema) refl)
                (rw v (sym (fresh table columns k)), fresh)
          | inl k ↦
              subst (Answers g table) {x = fetch_and_remember c is_match g table}
                (rw (v, k, get_table_schema) refl) (fetch_and_remember-Answers g table v fresh)
        ]
      ]

  get_table_schema_missing :
      (g : Guard Db) (table : Text)
      → get table g.schema_cache ≡ none
      → (get_table_schema c is_match g table).0 ≡ uncached_schema g table
  unfolding get_table_schema
  get_table_schema_missing g table k = elim (Result-cases (validate_identifier is_match table)) [
    | inl (e, v) ↦ rw (v, get_table_schema) refl
    | inr (_, v) ↦ elim (Result-cases (fetch_table_info c is_match g table)) [
      | inl (e, f) ↦ rw (v, k, get_table_schema, f, fetch_and_remember) refl
      | inr (columns, f) ↦ rw (v, k, get_table_schema, f, fetch_and_remember) refl
    ]
  ]

  -- After a notification that names a table, the next read of its columns goes to the database,
  -- whatever was cached.
  pub get_table_schema-evict :
      (g : Guard Db) (payload : Text)
      → trim payload ≢ []
      → (get_table_schema c is_match (evict g payload) (trim payload)).0
        ≡ uncached_schema g (trim payload)
  unfolding uncache fetch_table_info
  get_table_schema-evict g payload h = rw (evict_lem g payload h) (
      get_table_schema_missing (uncache g (trim payload)) (trim payload)
        (uncache_missing g (trim payload)))
