-- ===== src/Inference/Lattice.antt =====
-- The order of the column types, by tests over all of them.
use stackhouse.Prelude.{
  ◌≡◌, refl, ◌&&◌, ◌||◌, not, Bool, true, List, [], ◌∷◌, arith, all, all-All, subst,
}
use stackhouse.Inference.{
  PgType, big_int, double_precision, boolean, text, jsonb, bytea, null_type, date, timestamp_tz,
  uuid, pg_eq, common_type, can_promote_to,
}

abbrev types : List PgType
types =
    big_int ∷ double_precision ∷ boolean ∷ text ∷ jsonb ∷ bytea ∷ null_type ∷ date ∷ timestamp_tz
    ∷ uuid ∷ []

-- A test that passes on every listed type passes on every type.
every : (p : PgType → Bool) → all p types ≡ true → (a : PgType) → p a ≡ true
every p h big_int = (all-All p types h).0
every p h double_precision = (all-All p types h).1.0
every p h boolean = (all-All p types h).1.1.0
every p h text = (all-All p types h).1.1.1.0
every p h jsonb = (all-All p types h).1.1.1.1.0
every p h bytea = (all-All p types h).1.1.1.1.1.0
every p h null_type = (all-All p types h).1.1.1.1.1.1.0
every p h date = (all-All p types h).1.1.1.1.1.1.1.0
every p h timestamp_tz = (all-All p types h).1.1.1.1.1.1.1.1.0
every p h uuid = (all-All p types h).1.1.1.1.1.1.1.1.1.0

every₂ :
    (p : PgType → PgType → Bool)
    → all (λ a. all (p a) types) types ≡ true
    → (a b : PgType) → p a b ≡ true
every₂ p h a = every (p a) (every (λ x. all (p x) types) h a)

every₃ :
    (p : PgType → PgType → PgType → Bool)
    → all (λ a. all (λ b. all (p a b) types) types) types ≡ true
    → (a b c : PgType) → p a b c ≡ true
every₃ p h a = every₂ (p a) (every (λ x. all (λ b. all (p x b) types) types) h a)

pub of_pg_eq : (a b : PgType) → pg_eq a b ≡ true → a ≡ b
unfolding pg_eq
of_pg_eq a b h = ground arith

pub pg_eq_refl : (a : PgType) → pg_eq a a ≡ true
unfolding pg_eq
pg_eq_refl = every (λ a. pg_eq a a) refl

-- `common_type` does not depend on the order of its arguments.
pub common_type_comm : (a b : PgType) → common_type a b ≡ common_type b a
unfolding common_type pg_eq
common_type_comm a b =
    of_pg_eq _ _ (every₂ (λ x y. pg_eq (common_type x y) (common_type y x)) refl a b)

-- `common_type` does not depend on how three types are grouped.
pub common_type_assoc :
    (a b c : PgType) → common_type (common_type a b) c ≡ common_type a (common_type b c)
unfolding common_type pg_eq
common_type_assoc a b c = of_pg_eq _ _ (
    every₃ (λ x y z. pg_eq (common_type (common_type x y) z) (common_type x (common_type y z))) refl
      a b c)

pub common_type_idem : (a : PgType) → common_type a a ≡ a
unfolding common_type
common_type_idem a = rw (pg_eq_refl a)

-- Widening a column to the common type of what it has and what a payload brings is always an
-- allowed promotion, for the column and for the payload.
pub common_type-can_promote_to :
    (a b : PgType)
    → (can_promote_to a (common_type a b) ≡ true) × (can_promote_to b (common_type a b) ≡ true)
unfolding can_promote_to common_type
common_type-can_promote_to a b = (
  every₂ (λ x y. can_promote_to x (common_type x y)) refl a b,
  every₂ (λ x y. can_promote_to y (common_type x y)) refl a b,
)

pub can_promote_to_refl : (a : PgType) → can_promote_to a a ≡ true
unfolding can_promote_to
can_promote_to_refl a = rw (pg_eq_refl a) refl

-- Allowed promotions compose: what can be promoted in two steps can be promoted in one.
pub can_promote_to_trans :
    (a b c : PgType)
    → can_promote_to a b ≡ true
    → can_promote_to b c ≡ true
    → can_promote_to a c ≡ true
unfolding can_promote_to
can_promote_to_trans a b c h k = implied (every₃ step refl a b c) h k
  where
    step : PgType → PgType → PgType → Bool
    step x y z = not (can_promote_to x y && can_promote_to y z) || can_promote_to x z

    implied : {p q r : Bool} → (not (p && q) || r) ≡ true → p ≡ true → q ≡ true → r ≡ true
    implied e f g = ground arith

-- `Absorbs e c`: a column of type `e` holds the values of type `c` unchanged.
abbrev pub Absorbs : PgType → PgType → Type 0
Absorbs e c = common_type e c ≡ e

-- The common type is the least type that absorbs both, where a type absorbs another if their
-- common type is the first.
pub common_type-least :
    (a b e : PgType)
    → Absorbs (common_type a b) a
      × Absorbs (common_type a b) b
      × (Absorbs e a → Absorbs e b → Absorbs e (common_type a b))
common_type-least a b e = (
  rw (common_type_comm (common_type a b) a, ← common_type_assoc a a b, common_type_idem a) refl,
  rw (common_type_assoc a b b, common_type_idem b) refl,
  λ p q. rw (← common_type_assoc e a b, p) q,
)

pub Absorbs-common_type : (e c d : PgType) → Absorbs e c → Absorbs (common_type e d) c
Absorbs-common_type e c d h =
    rw (common_type_assoc e d c, common_type_comm d c, ← common_type_assoc e c d, h) refl

pub Absorbs-can_promote_to : (e c : PgType) → Absorbs e c → can_promote_to c e ≡ true
Absorbs-can_promote_to e c h =
    subst (λ t. can_promote_to c t ≡ true) h (common_type-can_promote_to e c).1
