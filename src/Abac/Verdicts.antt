-- ===== src/Abac/Verdicts.antt =====
-- `evaluate` against its description: a deny that matches wins, else an allow is needed.
use stackhouse.Prelude.{
  ◌≡◌, refl, ap, ap₂, ◌∙◌, Bool, true, false, not, ◌&&◌, ◌||◌, Option, none, some, List, [], ◌∷◌,
  arith, any, is_some, Bool-cases, inl, inr,
}
use stackhouse.Prelude.Text.{Text}
use stackhouse.Abac.Types.{
  PolicyEffect, allow, deny, Policy, AuthorizationRequest, AuthorizationDecision, Libraries,
}
use stackhouse.Abac.Matching.{matches_policy}
use stackhouse.Abac.Decision.{
  insert_by_priority, sort_by_priority, or_first, by_effect, decide, evaluate,
}

abbrev pub is_allow : PolicyEffect → Bool
is_allow allow = true
is_allow deny = false

module _ (matching : Policy → Bool) where
  abbrev pub allows : Policy → Bool
  allows p = matching p && is_allow p.effect

  abbrev pub denies : Policy → Bool
  denies p = matching p && not (is_allow p.effect)

  by_effect-allowed :
      (e : PolicyEffect) (p : Policy) (first : Option Policy) (taken : AuthorizationDecision)
      (a d : Bool)
      → taken.allowed ≡ ((is_some (or_first first p) || a) && not d)
      → (by_effect e p taken).allowed
        ≡ ((is_some first || (is_allow e || a)) && not (not (is_allow e) || d))
  by_effect-allowed deny p first taken a d h = ground arith
  by_effect-allowed allow p none taken a d h = h
  by_effect-allowed allow p (some q) taken a d h = h

  decide-allowed :
      (ps : List Policy) (first : Option Policy)
      → (decide matching ps first).allowed
        ≡ ((is_some first || any allows ps) && not (any denies ps))
  unfolding decide
  decide-allowed [] none = refl
  decide-allowed [] (some p) = refl
  decide-allowed (p ∷ ps) first = elim (Bool-cases (matching p)) [
    | inl e ↦
        rw (e, decide)
          (by_effect-allowed p.effect p first (decide matching ps (or_first first p))
            (any allows ps) (any denies ps) (decide-allowed ps (or_first first p)))
    | inr e ↦ rw (e, decide) (decide-allowed ps first)
  ]

any-insert_by_priority :
    (q : Policy → Bool) (p : Policy) (ps : List Policy)
    → any q (insert_by_priority p ps) ≡ (q p || any q ps)
any-insert_by_priority q p [] = refl
any-insert_by_priority q p (r ∷ rs) = ground (arith, any-insert_by_priority q p rs)

any-sort_by_priority :
    (q : Policy → Bool) (ps : List Policy) → any q (sort_by_priority ps) ≡ any q ps
unfolding sort_by_priority
any-sort_by_priority q [] = refl
any-sort_by_priority q (p ∷ ps) =
    any-insert_by_priority q p (sort_by_priority ps)
    ∙ ap (λ b. q p || b) (any-sort_by_priority q ps)

-- A request is allowed just when some policy that matches it allows and none that matches it denies, in
-- whatever order the policies stand and whatever priorities they have.
pub evaluate-allowed :
    (lib : Libraries) (now : Text) (policies : List Policy) (request : AuthorizationRequest)
    → (evaluate lib now policies request).allowed ≡ (
        any (allows (λ p. matches_policy lib now p request)) policies
        && not (any (denies (λ p. matches_policy lib now p request)) policies))
unfolding evaluate
evaluate-allowed lib now policies request =
    let matching = λ (p : Policy). matches_policy lib now p request in
    decide-allowed matching (sort_by_priority policies) none
    ∙ ap₂ (λ a d. a && not d) (any-sort_by_priority (allows matching) policies)
        (any-sort_by_priority (denies matching) policies)
