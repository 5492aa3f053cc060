-- ===== src/Abac/Rows.antt =====
-- src/security/abac.rs: `get_active_policies`, on the rows that the store returns, and of
-- src/platform/db.rs the value that it gives for a column of type TEXT. Parsing JSON is a parameter.
use stackhouse.Prelude.{
  ℕ, ◌+◌, ◌-◌, ◌%◌, ◌^◌, Bool, ◌&&◌, ◌||◌, Option, none, some, List, [], ◌∷◌, if◌then◌else◌, ltb,
  ◌==◌,
}
use stackhouse.Prelude.Text.{Text, codes, text_eq, starts_with}
use stackhouse.Json.{pos_int, neg_int, Value, number, string}
use stackhouse.Abac.Types.{
  PolicyEffect, allow, deny, PrincipalMatcher, ResourceMatcher, Condition, Policy,
  AuthorizationRequest, AuthorizationDecision, Libraries,
}
use stackhouse.Abac.Decision.{evaluate}

-- serde_json's parsers.
pub record Parsers : Type 0 where
  pub json : Text → Option Value
  pub read_principals : Text → Option (List PrincipalMatcher)
  pub read_actions : Text → Option (List Text)
  pub read_resources : Text → Option (List ResourceMatcher)
  pub read_conditions : Text → Option (List Condition)

-- A row of `stackhouse_abac_policies`.
pub record PolicyRow : Type 0 where
  pub id : Text
  pub name : Text
  pub effect : Text
  pub principals : Text
  pub actions : Text
  pub resources : Text
  pub conditions : Text
  pub priority : Value
  pub enabled : Bool
  pub tenant_id : ℕ

-- A text that looks like JSON comes back parsed.
abbrev pub text_column : Parsers → Text → Value
text_column ps t =
    if starts_with (codes "{") t || starts_with (codes "[") t
    then elim (ps.json t) [ none ↦ string t | some v ↦ v ]
    else string t

abbrev pub as_str : Value → Option Text
as_str (string t) = some t
as_str _ = none

-- `as_str`, the parser, `unwrap_or_default`.
abbrev pub list_of : {A : Type 0} → (Text → Option (List A)) → Value → List A
list_of read v = elim (as_str v) [ none ↦ [] | some t ↦ elim (read t) [ none ↦ [] | some xs ↦ xs ] ]

-- `as_i64().unwrap_or(0) as i32`, plus 2 ^ 31.
abbrev pub priority_of : Value → ℕ
priority_of (number (pos_int n)) = if ltb n (2 ^ 63) then (n + 2 ^ 31) % 2 ^ 32 else 2 ^ 31
priority_of (number (neg_int n)) =
    if ltb n (2 ^ 63) then (2 ^ 64 + 2 ^ 31 - 1 - n) % 2 ^ 32 else 2 ^ 31
priority_of _ = 2 ^ 31

abbrev pub effect_of : Text → PolicyEffect
effect_of t = if text_eq t (codes "allow") then allow else deny

-- A row whose id, name or effect is not a text is dropped.
unfoldable pub policy_of_row : Parsers → PolicyRow → Option Policy
policy_of_row ps row = elim (as_str (text_column ps row.id)) [
  | none ↦ none
  | some id ↦ elim (as_str (text_column ps row.name)) [
    | none ↦ none
    | some name ↦ elim (as_str (text_column ps row.effect)) [
      | none ↦ none
      | some effect ↦ some (record {
        id = id;
        name = name;
        effect = effect_of effect;
        principals = list_of ps.read_principals (text_column ps row.principals);
        actions = list_of ps.read_actions (text_column ps row.actions);
        resources = list_of ps.read_resources (text_column ps row.resources);
        conditions = list_of ps.read_conditions (text_column ps row.conditions);
        priority = priority_of row.priority;
      })
    ]
  ]
]

abbrev pub is_active : ℕ → PolicyRow → Bool
is_active tenant_id row = row.tenant_id == tenant_id && row.enabled

abbrev pub or_skip : Option Policy → List Policy → List Policy
or_skip none ps = ps
or_skip (some p) ps = p ∷ ps

-- The rows stand in the order of the query.
unfoldable pub get_active_policies : Parsers → ℕ → List PolicyRow → List Policy
unfolding policy_of_row
get_active_policies ps tenant_id [] = []
get_active_policies ps tenant_id (row ∷ rows) =
    let rest = get_active_policies ps tenant_id rows in
    if is_active tenant_id row then or_skip (policy_of_row ps row) rest else rest

-- `evaluate` on the table.
unfoldable pub evaluate_rows :
    Libraries → Parsers → Text → ℕ → List PolicyRow → AuthorizationRequest → AuthorizationDecision
evaluate_rows lib ps now tenant_id rows request =
    evaluate lib now (get_active_policies ps tenant_id rows) request
