-- ===== src/Abac/Stored.antt =====
-- What becomes of the lists of a stored policy.
use stackhouse.Prelude.{
  ℕ, ◌≡◌, refl, sym, ap, ap₂, ◌∙◌, Bool, true, false, not, ◌&&◌, Option, some, List, [], ◌∷◌, arith,
  any, all, In, Bool-cases, Option-cases, inl, inr,
}
use stackhouse.Prelude.Text.{Text, codes, text_eq, starts_with}
use stackhouse.Json.{Values, array}
use stackhouse.Abac.Types.{Policy, AuthorizationRequest, Libraries}
use stackhouse.Abac.Matching.{matches_policy}
use stackhouse.Abac.Rows.{
  Parsers, PolicyRow, text_column, as_str, list_of, effect_of, priority_of, policy_of_row,
  is_active, get_active_policies, evaluate_rows,
}
use stackhouse.Abac.Verdicts.{is_allow, allows, denies, evaluate-allowed}

module _ (ps : Parsers) where
  -- A text as `serde_json::to_string` writes a list, which the parser reads as an array.
  abbrev pub IsListText : Text → Type 0
  IsListText t =
      (starts_with (codes "[") t ≡ true) × ((vs : Values) × (ps.json t ≡ some (array vs)))

  -- A row with an identifier, a name and an effect that do not look like JSON, and its lists as
  -- `create_policy` writes them.
  abbrev pub IsStored : PolicyRow → Type 0
  IsStored row =
      (as_str (text_column ps row.id) ≡ some row.id)
      × (as_str (text_column ps row.name) ≡ some row.name)
      × (as_str (text_column ps row.effect) ≡ some row.effect)
      × IsListText row.principals
      × IsListText row.actions
      × IsListText row.resources
      × IsListText row.conditions

  text_column-array :
      (t : Text) (vs : Values)
      → starts_with (codes "[") t ≡ true
      → ps.json t ≡ some (array vs)
      → text_column ps t ≡ array vs
  text_column-array t vs opens parsed = elim (Bool-cases (starts_with (codes "{") t)) [
    | inl e ↦ rw (e, text_column) (rw parsed refl)
    | inr e ↦ rw (e, text_column) (rw opens (rw parsed refl))
  ]

  list_of-nil :
      {A : Type 0} (read : Text → Option (List A)) (t : Text)
      → IsListText t
      → list_of read (text_column ps t) ≡ []
  list_of-nil read t (opens, (vs, parsed)) = ap (list_of read) (text_column-array t vs opens parsed)

  module _ (row : PolicyRow) (stored : IsStored row) where
    -- The policy that is read from the row.
    abbrev bare : Policy
    bare = record {
      id = row.id;
      name = row.name;
      effect = effect_of row.effect;
      principals = [];
      actions = [];
      resources = [];
      conditions = [];
      priority = priority_of row.priority;
    }

    policy_of_row-bare : policy_of_row ps row ≡ some bare
    unfolding policy_of_row
    policy_of_row-bare =
        let (id, name, effect, principals, actions, resources, conditions) = stored in
        rw (id, policy_of_row)
          (rw name (
            rw effect (
              rw
                (
                  list_of-nil ps.read_principals row.principals principals,
                  list_of-nil ps.read_actions row.actions actions,
                  list_of-nil ps.read_resources row.resources resources,
                  list_of-nil ps.read_conditions row.conditions conditions,
                )
                refl)))

    bare-matches :
        (lib : Libraries) (now : Text) (request : AuthorizationRequest)
        → matches_policy lib now bare request ≡ true
    unfolding matches_policy
    bare-matches lib now request = refl

  -- A policy that is read from an active row is among the active ones.
  any-get_active_policies :
      (q : Policy → Bool) (tenant_id : ℕ) (row : PolicyRow) (p : Policy) (rows : List PolicyRow)
      → In row rows
      → is_active tenant_id row ≡ true
      → policy_of_row ps row ≡ some p
      → q p ≡ true
      → any q (get_active_policies ps tenant_id rows) ≡ true
  unfolding get_active_policies
  any-get_active_policies q tenant_id row p [] m active read h = elim m [ ]
  any-get_active_policies q tenant_id row p (r ∷ rows) (inl e) active read h =
      rw (sym (ap (is_active tenant_id) e) ∙ active, get_active_policies)
        (rw (sym (ap (policy_of_row ps) e) ∙ read) (rw h refl))
  any-get_active_policies q tenant_id row p (r ∷ rows) (inr m) active read h =
      let later = any-get_active_policies q tenant_id row p rows m active read h in
      elim (Bool-cases (is_active tenant_id r)) [
        | inr e ↦ rw (e, get_active_policies) later
        | inl e ↦ elim (Option-cases (policy_of_row ps r)) [
          | inl skipped ↦ rw (e, get_active_policies) (rw skipped later)
          | inr (p', read') ↦ rw (e, get_active_policies) (rw read' (rw later (ground arith)))
        ]
      ]

any-denies_of_allow :
    (matching : Policy → Bool) (policies : List Policy)
    → all (λ p. is_allow p.effect) policies ≡ true
    → any (denies matching) policies ≡ false
any-denies_of_allow matching [] h = refl
any-denies_of_allow matching (p ∷ policies) h =
    ground (arith, any-denies_of_allow matching policies)

-- A policy that allows, stored with its lists as `create_policy` writes them and active for the tenant, where no
-- active policy of the tenant denies: every request is allowed, whoever makes it, whatever the action and the
-- resource, since the lists of the policy are read as empty, and an empty list matches everything.
pub evaluate_rows-allowed :
    (lib : Libraries) (ps : Parsers) (now : Text) (tenant_id : ℕ) (rows : List PolicyRow)
    (row : PolicyRow)
    → In row rows
    → IsStored ps row
    → is_active tenant_id row ≡ true
    → text_eq row.effect (codes "allow") ≡ true
    → all (λ p. is_allow p.effect) (get_active_policies ps tenant_id rows) ≡ true
    → (request : AuthorizationRequest)
    → (evaluate_rows lib ps now tenant_id rows request).allowed ≡ true
unfolding evaluate_rows
evaluate_rows-allowed lib ps now tenant_id rows row m stored active effect none_denies request =
    let policies = get_active_policies ps tenant_id rows in
    let matching = λ (p : Policy). matches_policy lib now p request in
    evaluate-allowed lib now policies request
    ∙ ap₂ (λ a d. a && not d)
        (any-get_active_policies ps (allows matching) tenant_id row (bare ps row stored) rows m
          active (policy_of_row-bare ps row stored)
          (rw (bare-matches ps row stored lib now request, effect) refl))
        (any-denies_of_allow matching policies none_denies)
