-- ===== src/Abac/Matching.antt =====
-- src/security/abac.rs: `matches_policy`.
use stackhouse.Prelude.{
  Bool, true, false, ◌&&◌, ◌||◌, Option, none, some, List, [], ◌∷◌, any, all, is_empty,
  if◌then◌else◌, ◌==◌,
}
use stackhouse.Prelude.Text.{Text, codes, text_eq, starts_with}
use stackhouse.Abac.Types.{
  PrincipalMatcher, ResourceMatcher, Policy, AuthorizationRequest, Libraries,
}
use stackhouse.Abac.Conditions.{evaluate_condition}

-- `strip_suffix("*")`
abbrev pub strip_star : Text → Option Text
strip_star [] = none
strip_star (c ∷ []) = if c == b'*' then some [] else none
strip_star (c ∷ (d ∷ s)) = elim (strip_star (d ∷ s)) [ none ↦ none | some p ↦ some (c ∷ p) ]

-- `"*"`, the text itself, or a prefix with a star.
abbrev pub pattern_matches : Text → Text → Bool
pattern_matches pattern t =
    text_eq pattern (codes "*")
    || text_eq pattern t
    || elim (strip_star pattern) [ none ↦ false | some prefix ↦ starts_with prefix t ]

abbrev pub has : Text → List Text → Bool
has t ts = any (λ u. text_eq u t) ts

unfoldable pub principal_matches : AuthorizationRequest → PrincipalMatcher → Bool
principal_matches request p =
    let anyone = text_eq p.value (codes "*") in
    if text_eq p.principal_type (codes "any") || text_eq p.principal_type (codes "*")
    then true
    else if text_eq p.principal_type (codes "user")
    then text_eq p.value request.principal.id || anyone
    else if text_eq p.principal_type (codes "role")
    then has p.value request.principal.roles || anyone
    else if text_eq p.principal_type (codes "group")
    then has p.value request.principal.groups || anyone
    else false

unfoldable pub resource_matches : AuthorizationRequest → ResourceMatcher → Bool
resource_matches request r =
    (text_eq r.resource_type (codes "any")
      || text_eq r.resource_type (codes "*")
      || text_eq r.resource_type request.resource.resource_type)
    && pattern_matches r.resource_id request.resource.resource_id

unfoldable pub matches_policy : Libraries → Text → Policy → AuthorizationRequest → Bool
matches_policy lib now policy request =
    (is_empty policy.principals || any (principal_matches request) policy.principals)
    && ((is_empty policy.actions || any (λ a. pattern_matches a request.action) policy.actions)
        && ((is_empty policy.resources || any (resource_matches request) policy.resources)
            && all (λ c. evaluate_condition lib now c request) policy.conditions))
