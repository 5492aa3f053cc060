-- ===== src/Abac/Decision.antt =====
-- src/security/abac.rs: `evaluate`, on the active policies.
use stackhouse.Prelude.{Bool, true, false, Option, none, some, List, [], ◌∷◌, ltb, if◌then◌else◌}
use stackhouse.Prelude.Text.{Text}
use stackhouse.Abac.Types.{
  PolicyEffect, allow, deny, Policy, AuthorizationRequest, AuthorizationDecision, Libraries,
}
use stackhouse.Abac.Matching.{matches_policy}

-- `sort_by(|a, b| b.priority.cmp(&a.priority))`, which is stable.
abbrev pub insert_by_priority : Policy → List Policy → List Policy
insert_by_priority p [] = p ∷ []
insert_by_priority p (q ∷ qs) =
    let rest = insert_by_priority p qs in if ltb p.priority q.priority then q ∷ rest else p ∷ q ∷ qs

unfoldable pub sort_by_priority : List Policy → List Policy
sort_by_priority [] = []
sort_by_priority (p ∷ ps) = insert_by_priority p (sort_by_priority ps)

abbrev pub denied_by : Policy → AuthorizationDecision
denied_by p = record { allowed = false; matching_policy = some p.id; effect = deny }

abbrev pub allowed_by : Policy → AuthorizationDecision
allowed_by p = record { allowed = true; matching_policy = some p.id; effect = allow }

abbrev pub default_deny : AuthorizationDecision
default_deny = record { allowed = false; matching_policy = none; effect = deny }

abbrev pub or_first : Option Policy → Policy → Option Policy
or_first none p = some p
or_first (some q) p = some q

abbrev pub by_effect : PolicyEffect → Policy → AuthorizationDecision → AuthorizationDecision
by_effect deny p taken = denied_by p
by_effect allow p taken = taken

-- The loop, with the first policy that allows.
unfoldable pub decide : (Policy → Bool) → List Policy → Option Policy → AuthorizationDecision
decide matching [] first_allow = elim first_allow [ none ↦ default_deny | some p ↦ allowed_by p ]
decide matching (p ∷ ps) first_allow =
    let past = decide matching ps first_allow in
    let taken = decide matching ps (or_first first_allow p) in
    if matching p then by_effect p.effect p taken else past

unfoldable pub evaluate :
    Libraries → Text → List Policy → AuthorizationRequest → AuthorizationDecision
unfolding sort_by_priority decide
evaluate lib now policies request =
    decide (λ p. matches_policy lib now p request) (sort_by_priority policies) none
