-- ===== src/Inference/Casts.antt =====
-- SQL names of types and the casts between them.
use stackhouse.Prelude.{◌≡◌, refl, ◌≢◌, some, none}
use stackhouse.Inference.{PgType, big_int, null_type, as_sql, from_data_type}

-- A column that is created with the SQL name of a type is read back as that type; `NULL`, which
-- is no column type, is not read back.
pub from_data_type-as_sql :
    (t : PgType)
    → (t ≢ null_type → from_data_type (as_sql t) ≡ some t)
      × (from_data_type (as_sql null_type) ≡ none)
unfolding from_data_type as_sql
from_data_type-as_sql big_int = (λ _. refl, refl)
from_data_type-as_sql null_type = (λ h. absurd (h refl), refl)
from_data_type-as_sql _ = (λ _. refl, refl)
