-- ===== src/Rbac/Inheritance.antt =====
-- Which permissions a user has.
use stackhouse.Prelude.{
  ℕ, zero, suc, ◌≡◌, ◌↔◌, refl, sym, ap, ◌∙◌, subst, none, some, List, [], ◌∷◌, ◌++◌, In,
  In-append_left, In-append_right, Option-cases, inl, inr, ◌⊎◌,
}
use stackhouse.Prelude.Text.{Text}
use stackhouse.Prelude.Assoc.{Assoc, get}
use stackhouse.Rbac.{Permission, Role, from_parents, collect_permissions}

-- A role and the roles above it, within a number of roles on the way.
pub data Inherits (cache : Assoc Role) : ℕ → Role → Role → Type 0 where
  here : {n : ℕ} {role : Role} → Inherits cache (suc n) role role
  above :
      {n : ℕ} {role parent ancestor : Role} (i : Text)
      → In i role.inherits_from
      → get i cache ≡ some parent
      → Inherits cache n parent ancestor
      → Inherits cache (suc n) role ancestor

pub In-append : {A : Type 0} (a : A) (xs ys : List A) → In a (xs ++ ys) → In a xs ⊎ In a ys
In-append a [] ys m = inr m
In-append a (x ∷ xs) ys (inl e) = inl (inl e)
In-append a (x ∷ xs) ys (inr m) = elim (In-append a xs ys m) [ inl l ↦ inl (inr l) | inr r ↦ inr r ]

module _ (cache : Assoc Role) where
  -- A permission that comes from one of the identifiers.
  abbrev pub ComesFrom : (Role → List Permission) → List Text → Permission → Type 0
  ComesFrom collect ids p =
      (i : Text) × (role : Role) × In i ids × (get i cache ≡ some role) × In p (collect role)

  pub from_parents-ComesFrom :
      (collect : Role → List Permission) (ids : List Text) (p : Permission)
      → In p (from_parents collect cache ids)
      → ComesFrom collect ids p
  from_parents-ComesFrom collect [] p m = elim m [ ]
  from_parents-ComesFrom collect (i ∷ ids) p m = elim (Option-cases (get i cache)) [
    | inl unknown ↦
        let (j, role, at, found, k) =
          from_parents-ComesFrom collect ids p (subst (In p) (skipped unknown) m) in
        (j, role, inr at, found, k)
    | inr (role, found) ↦
        elim (In-append p (collect role) (from_parents collect cache ids)
          (subst (In p) (taken role found) m)) [
            | inl own ↦ (i, role, inl refl, found, own)
            | inr later ↦
                let (j, other, at, found', k) = from_parents-ComesFrom collect ids p later in
                (j, other, inr at, found', k)
          ]
  ]
    where
      skipped :
          get i cache ≡ none → from_parents collect cache (i ∷ ids) ≡ from_parents collect cache ids
      skipped e = rw (e, from_parents) refl

      taken :
          (role : Role)
          → get i cache ≡ some role
          → from_parents collect cache (i ∷ ids) ≡ collect role ++ from_parents collect cache ids
      taken role e = rw (e, from_parents) refl

  ComesFrom-from_parents :
      (collect : Role → List Permission) (ids : List Text) (p : Permission) (i : Text) (role : Role)
      → In i ids
      → get i cache ≡ some role
      → In p (collect role)
      → In p (from_parents collect cache ids)
  ComesFrom-from_parents collect [] p i role m found k = elim m [ ]
  ComesFrom-from_parents collect (j ∷ ids) p i role (inl e) found k =
      rw (sym (ap (λ t. get t cache) e) ∙ found, from_parents)
        (In-append_left p (collect role) (from_parents collect cache ids) k)
  ComesFrom-from_parents collect (j ∷ ids) p i role (inr m) found k =
      let later = ComesFrom-from_parents collect ids p i role m found k in
      elim (Option-cases (get j cache)) [
        | inl unknown ↦ rw (unknown, from_parents) later
        | inr (other, known) ↦
            rw (known, from_parents)
              (In-append_right p (collect other) (from_parents collect cache ids) later)
      ]

  -- A permission that a role has, or a role above it.
  abbrev pub Holds : ℕ → Role → Permission → Type 0
  Holds n role p = (ancestor : Role) × Inherits cache n role ancestor × In p ancestor.permissions

  pub collect_permissions-Holds :
      (n : ℕ) (role : Role) (p : Permission)
      → In p (collect_permissions n cache role)
      → Holds n role p
  unfolding collect_permissions
  collect_permissions-Holds zero role p m = elim m [ ]
  collect_permissions-Holds (suc n) role p m =
      elim (In-append p role.permissions
        (from_parents (collect_permissions n cache) cache role.inherits_from) m) [
          | inl own ↦ (role, here, own)
          | inr inherited ↦
              let (i, parent, at, found, k) =
                from_parents-ComesFrom (collect_permissions n cache) role.inherits_from p
                  inherited in
              let (ancestor, up, has) = collect_permissions-Holds n parent p k in
              (ancestor, above i at found up, has)
        ]

  Holds-collect_permissions :
      (n : ℕ) (role ancestor : Role) (p : Permission)
      → Inherits cache n role ancestor
      → In p ancestor.permissions
      → In p (collect_permissions n cache role)
  unfolding collect_permissions
  Holds-collect_permissions zero role ancestor p up has = elim up [ ]
  Holds-collect_permissions (suc n) role _ p here has =
      In-append_left p role.permissions
        (from_parents (collect_permissions n cache) cache role.inherits_from) has
  Holds-collect_permissions (suc n) role ancestor p (above {parent = parent} i at found up) has =
      In-append_right p role.permissions
        (from_parents (collect_permissions n cache) cache role.inherits_from)
        (ComesFrom-from_parents (collect_permissions n cache) role.inherits_from p i parent at found
          (Holds-collect_permissions n parent ancestor p up has))

  -- A permission is collected for a role just when the role has it, or a role above it by at most as many steps
  -- of inheritance as the limit on the depth allows, also where roles inherit from each other.
  pub collect_permissions_iff :
      (n : ℕ) (role : Role) (p : Permission)
      → In p (collect_permissions n cache role) ↔ Holds n role p
  collect_permissions_iff n role p = (
    collect_permissions-Holds n role p,
    λ (ancestor, up, has). Holds-collect_permissions n role ancestor p up has,
  )
