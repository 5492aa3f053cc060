-- ===== src/Abac/Types.antt =====
-- src/security/abac.rs: policies, requests and decisions. The identifier of a principal is its decimal text, a
-- priority `p : i32` is `p + 2 ^ 31`; of a policy, the fields that the engine reads.
use stackhouse.Prelude.{ℕ, Bool, Option, List}
use stackhouse.Prelude.Text.{Text}
use stackhouse.Prelude.Assoc.{Assoc}
use stackhouse.Json.{Value, Number}

pub data PolicyEffect : Type 0 where
  allow deny : PolicyEffect

pub record PrincipalMatcher : Type 0 where
  pub principal_type : Text
  pub value : Text

pub record ResourceMatcher : Type 0 where
  pub resource_type : Text
  pub resource_id : Text

pub data ConditionOp : Type 0 where
  equals not_equals contains is_in not_in greater_than less_than : ConditionOp
  starts_with ends_with matches ip_in_cidr time_between : ConditionOp

pub record Condition : Type 0 where
  pub attribute : Text
  pub operator : ConditionOp
  pub value : Value

pub record Policy : Type 0 where
  pub id : Text
  pub name : Text
  pub effect : PolicyEffect
  pub principals : List PrincipalMatcher
  pub actions : List Text
  pub resources : List ResourceMatcher
  pub conditions : List Condition
  pub priority : ℕ

pub record PrincipalContext : Type 0 where
  pub id : Text
  pub roles : List Text
  pub groups : List Text
  pub attributes : Assoc Value

pub record ResourceContext : Type 0 where
  pub resource_type : Text
  pub resource_id : Text
  pub attributes : Assoc Value

pub record AuthorizationRequest : Type 0 where
  pub principal : PrincipalContext
  pub action : Text
  pub resource : ResourceContext
  pub environment : Assoc Value

-- The reason of a decision is left out: it repeats the policy's name.
pub record AuthorizationDecision : Type 0 where
  pub allowed : Bool
  pub matching_policy : Option Text
  pub effect : PolicyEffect

-- What serde_json and the regex crate do: `==` on values, `<` on numbers as `f64`, and the search for a
-- pattern, which is `none` where the pattern is refused.
pub record Libraries : Type 0 where
  pub value_eq : Value → Value → Bool
  pub number_lt : Number → Number → Bool
  pub search : Text → Text → Option Bool
