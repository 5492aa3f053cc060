-- ===== src/Rbac/Access.antt =====
-- Who may do what, with the assignments as the store returns them.
use stackhouse.Prelude.{
  ℕ, ◌≡◌, refl, ap, false, Option, some, List, [], ◌∷◌, any, retain, retain-All, All,
}
use stackhouse.Prelude.Text.{Text, codes}
use stackhouse.Json.{Values, array}
use stackhouse.Rbac.{RbacService, Assignment, role_ids_of, is_for, all_permissions, grants, can}

module _ (parse : Text → Option (List Text)) (s : RbacService) where
  abbrev pub IsArray : Assignment → Type 0
  IsArray a = (vs : Values) × (a.role_ids ≡ array vs)

  all_permissions-nil :
      (rows : List Assignment)
      → All IsArray rows
      → parse (codes "[]") ≡ some []
      → all_permissions parse s.role_cache rows ≡ []
  unfolding all_permissions
  all_permissions-nil [] h empty = refl
  all_permissions-nil (a ∷ rows) ((vs, e), h) empty =
      rw (no_ids, all_permissions) (all_permissions-nil rows h empty)
    where
      no_ids : role_ids_of parse a.role_ids ≡ []
      no_ids = rw (e, role_ids_of) (rw empty refl)

  -- Assignments whose `role_ids` come back as arrays, as a JSONB column does, where serde_json reads `[]` as the
  -- empty list: nobody may do anything.
  pub can-false :
      (rows : List Assignment) (user_id : Text) (tenant_id : ℕ) (resource action : Text)
      → All IsArray rows
      → parse (codes "[]") ≡ some []
      → can parse rows user_id tenant_id resource action s ≡ false
  unfolding can
  can-false rows user_id tenant_id resource action arrays empty =
      ap (any (grants resource action)) (
        all_permissions-nil (retain (is_for user_id tenant_id) rows)
          (retain-All IsArray (is_for user_id tenant_id) rows arrays) empty)
