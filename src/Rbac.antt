-- ===== src/Rbac.antt =====
-- src/auth/rbac.rs: roles, their inheritance and `can`. The parser of serde_json for lists of identifiers is a
-- parameter; of a role, the fields that `can` and `delete_role` read.
pub mod Inheritance
pub mod Access
mod Tests
use stackhouse.Prelude.{
  ℕ, zero, suc, Bool, true, false, not, ◌&&◌, ◌||◌, Option, none, some, List, [], ◌∷◌, ◌++◌,
  if◌then◌else◌, ◌==◌, any, retain,
}
use stackhouse.Prelude.Text.{Text, codes, text_eq}
use stackhouse.Prelude.Assoc.{Assoc, get, insert, remove}
use stackhouse.Json.{Value, string}

-- `struct Permission`: resource and action.
pub record Permission : Type 0 where
  pub resource : Text
  pub action : Text

pub record Role : Type 0 where
  pub permissions : List Permission
  pub inherits_from : List Text
  pub is_system : Bool

-- The table of roles and the cache over it.
pub record RbacService : Type 0 where
  pub roles : Assoc Role
  pub role_cache : Assoc Role

-- `create_role` at the id drawn, where the row is inserted.
unfoldable pub create_role : Text → List Permission → List Text → RbacService → RbacService
create_role id permissions inherits_from s =
    let role : Role = record {
      permissions = permissions;
      inherits_from = inherits_from;
      is_system = false;
    } in
    record { roles = insert id role s.roles; role_cache = insert id role s.role_cache }

-- `DELETE … WHERE id = ? AND is_system = false`, and the cache.
unfoldable pub delete_role : Text → RbacService → RbacService
delete_role id s = record {
  roles = elim (get id s.roles) [
    | none ↦ s.roles
    | some role ↦ if role.is_system then s.roles else remove id s.roles
  ];
  role_cache = remove id s.role_cache;
}

-- The parents that the cache knows.
abbrev pub from_parents : (Role → List Permission) → Assoc Role → List Text → List Permission
from_parents collect cache [] = []
from_parents collect cache (i ∷ ids) =
    let rest = from_parents collect cache ids in
    elim (get i cache) [ none ↦ rest | some parent ↦ collect parent ++ rest ]

-- `collect_permissions` at the depth `6 - n`.
unfoldable pub collect_permissions : ℕ → Assoc Role → Role → List Permission
collect_permissions zero cache role = []
collect_permissions (suc n) cache role =
    role.permissions ++ from_parents (collect_permissions n cache) cache role.inherits_from

-- A row of `stackhouse_role_assignments`, with the value that the store gives for `role_ids`.
pub record Assignment : Type 0 where
  pub user_id : Text
  pub tenant_id : ℕ
  pub role_ids : Value

-- `as_str().unwrap_or("[]")`, parsed or empty.
abbrev pub ids_text : Value → Text
ids_text (string t) = t
ids_text _ = codes "[]"

abbrev pub role_ids_of : (Text → Option (List Text)) → Value → List Text
role_ids_of parse v = elim (parse (ids_text v)) [ none ↦ [] | some ids ↦ ids ]

abbrev pub is_for : Text → ℕ → Assignment → Bool
is_for user_id tenant_id a = text_eq a.user_id user_id && a.tenant_id == tenant_id

-- The permissions of the assignments.
unfoldable pub all_permissions :
    (Text → Option (List Text)) → Assoc Role → List Assignment → List Permission
unfolding collect_permissions
all_permissions parse cache [] = []
all_permissions parse cache (a ∷ rows) =
    from_parents (collect_permissions 6 cache) cache (role_ids_of parse a.role_ids)
    ++ all_permissions parse cache rows

-- The pair itself, the action on everything, or everything on the resource.
abbrev pub grants : Text → Text → Permission → Bool
grants resource action p =
    (text_eq p.resource resource && text_eq p.action action)
    || (text_eq p.resource (codes "*") && text_eq p.action action)
    || (text_eq p.resource resource && text_eq p.action (codes "*"))

unfoldable pub can :
    (Text → Option (List Text)) → List Assignment → Text → ℕ → Text → Text → RbacService → Bool
unfolding all_permissions
can parse rows user_id tenant_id resource action s =
    any (grants resource action)
      (all_permissions parse s.role_cache (retain (is_for user_id tenant_id) rows))
