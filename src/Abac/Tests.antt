-- ===== src/Abac/Tests.antt =====
-- Tests and instances of access rules.
use stackhouse.Prelude.{
  ℕ, ◌≡◌, ◌≤◌, ◌/◌, ◌-◌, ◌^◌, ◌↔◌, refl, Bool, true, false, not, ◌&&◌, Option, none, some, List, [],
  ◌∷◌, arith, inl, inr, if◌then◌else◌, any,
}
use stackhouse.Prelude.Text.{codes}
use stackhouse.Json.{array, nil, number, pos_int, string}
use stackhouse.Abac.Types.{allow, deny, Policy, AuthorizationRequest, Libraries, ConditionOp}
use stackhouse.Abac.Cidr.{ip_in_cidr, same_network, same_network_iff}
use stackhouse.Abac.Matching.{matches_policy}
use stackhouse.Abac.Decision.{evaluate, allowed_by, denied_by}
use stackhouse.Abac.Rows.{Parsers, PolicyRow, evaluate_rows}
use stackhouse.Abac.Verdicts.{allows, denies, evaluate-allowed}
use stackhouse.Abac.Stored.{evaluate_rows-allowed}

abbrev lib : Libraries
lib = record { value_eq = λ v w. false; number_lt = λ m n. false; search = λ p t. none }

abbrev request : AuthorizationRequest
request = record {
  principal = record { id = codes "7"; roles = codes "dev" ∷ []; groups = []; attributes = [] };
  action = codes "table:read";
  resource = record { resource_type = codes "table"; resource_id = codes "t1"; attributes = [] };
  environment = (codes "ip", string (codes "10.1.2.3")) ∷ [];
}

abbrev readers : Policy
readers = record {
  id = codes "a";
  name = codes "readers";
  effect = allow;
  principals = record { principal_type = codes "role"; value = codes "dev" } ∷ [];
  actions = codes "table:*" ∷ [];
  resources = [];
  conditions =
      record {
        attribute = codes "env.ip";
        operator = ConditionOp.ip_in_cidr;
        value = string (codes "10.0.0.0/8");
      }
      ∷ [];
  priority = 10;
}

abbrev lockdown : Policy
lockdown = record readers { id = codes "d"; effect = deny; priority = 1; principals = [] }

abbrev others : Policy
others = record readers { id = codes "o"; effect = deny; actions = codes "bucket:*" ∷ [] }

read_allowed : evaluate lib [] (others ∷ readers ∷ []) request ≡ allowed_by readers
unfolding evaluate matches_policy stackhouse.Abac.Matching.principal_matches
    stackhouse.Abac.Conditions.evaluate_condition stackhouse.Abac.Conditions.resolve_attribute
    stackhouse.Prelude.Assoc.get ip_in_cidr
read_allowed = refl

deny_wins : evaluate lib [] (readers ∷ lockdown ∷ []) request ≡ denied_by lockdown
unfolding evaluate matches_policy stackhouse.Abac.Matching.principal_matches
    stackhouse.Abac.Conditions.evaluate_condition stackhouse.Abac.Conditions.resolve_attribute
    stackhouse.Prelude.Assoc.get ip_in_cidr
deny_wins = refl

-- A prefix length of 33 is taken as one of 1.
cidr_33 : ip_in_cidr (codes "99.1.2.3") (codes "10.0.0.0/33") ≡ true
unfolding ip_in_cidr
cidr_33 = refl

cidr_8 : ip_in_cidr (codes "99.1.2.3") (codes "10.0.0.0/8") ≡ false
unfolding ip_in_cidr
cidr_8 = refl

evaluate-allowed_example : (evaluate lib [] (readers ∷ lockdown ∷ []) request).allowed ≡ (
    any (allows (λ p. matches_policy lib [] p request)) (readers ∷ lockdown ∷ [])
    && not (any (denies (λ p. matches_policy lib [] p request)) (readers ∷ lockdown ∷ [])))
evaluate-allowed_example = evaluate-allowed lib [] (readers ∷ lockdown ∷ []) request

same_network_iff_example :
    (same_network 8 167837955 167772160 ≡ true)
    ↔ (167837955 / 2 ^ (32 - 8) ≡ 167772160 / 2 ^ (32 - 8))
same_network_iff_example = same_network_iff 7 167837955 167772160 (omega arith)

-- The parsers, as far as the texts of the row go.
abbrev parsers : Parsers
parsers = record {
  json = λ t. some (array nil);
  read_principals =
      λ t. some (record { principal_type = codes "role"; value = codes "admin" } ∷ []);
  read_actions = λ t. some [];
  read_resources = λ t. some [];
  read_conditions = λ t. some [];
}

-- For administrators alone.
abbrev admins : PolicyRow
admins = record {
  id = codes "p1";
  name = codes "admins";
  effect = codes "allow";
  principals = codes "[{}]";
  actions = codes "[]";
  resources = codes "[]";
  conditions = codes "[]";
  priority = number (pos_int 0);
  enabled = true;
  tenant_id = 3;
}

evaluate_rows-allowed_example :
    (evaluate_rows lib parsers [] 3 (admins ∷ []) request).allowed ≡ true
unfolding stackhouse.Abac.Rows.get_active_policies
evaluate_rows-allowed_example =
    evaluate_rows-allowed lib parsers [] 3 (admins ∷ []) admins (inl refl)
      (
        refl,
        refl,
        refl,
        (refl, (nil, refl)),
        (refl, (nil, refl)),
        (refl, (nil, refl)),
        (refl, (nil, refl)),
      )
      refl refl refl request
