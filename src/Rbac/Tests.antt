-- ===== src/Rbac/Tests.antt =====
-- Tests and instances of roles.
use stackhouse.Prelude.{
  ℕ, ◌≡◌, refl, Bool, true, false, Option, none, some, List, [], ◌∷◌, In, inl, inr, is_some, ◌↔◌,
}
use stackhouse.Prelude.Text.{Text, codes}
use stackhouse.Prelude.Assoc.{get}
use stackhouse.Json.{string, array, nil}
use stackhouse.Rbac.{
  Permission, Role, RbacService, delete_role, collect_permissions, Assignment, can,
}
use stackhouse.Rbac.Inheritance.{Holds, collect_permissions_iff}
use stackhouse.Rbac.Access.{can-false}

abbrev reads : Permission
reads = record { resource = codes "doc"; action = codes "read" }

abbrev base : Role
base = record { permissions = reads ∷ []; inherits_from = codes "child" ∷ []; is_system = true }

-- It inherits from `base`, and `base` from it.
abbrev child : Role
child = record { permissions = []; inherits_from = codes "base" ∷ []; is_system = false }

abbrev service : RbacService
service = record {
  roles = (codes "base", base) ∷ (codes "child", child) ∷ [];
  role_cache = (codes "base", base) ∷ (codes "child", child) ∷ [];
}

-- A parser that knows two texts.
abbrev parse : Text → Option (List Text)
parse [] = none
parse (c ∷ []) = some (codes "child" ∷ [])
parse _ = some []

abbrev rows : List Assignment
rows = record { user_id = codes "u"; tenant_id = 1; role_ids = string (codes "c") } ∷ []

abbrev from_jsonb : List Assignment
from_jsonb = record { user_id = codes "u"; tenant_id = 1; role_ids = array nil } ∷ []

inherited : can parse rows (codes "u") 1 (codes "doc") (codes "read") service ≡ true
unfolding can get
inherited = refl

other_tenant : can parse rows (codes "u") 2 (codes "doc") (codes "read") service ≡ false
unfolding can
other_tenant = refl

-- The row of a system role stays, and the cache forgets the role.
system_role_forgotten :
    is_some (get (codes "base") (delete_role (codes "base") service).roles) ≡ true
unfolding get delete_role
system_role_forgotten = refl

system_role_lost :
    is_some (get (codes "base") (delete_role (codes "base") service).role_cache) ≡ false
unfolding get delete_role stackhouse.Prelude.Assoc.remove
system_role_lost = refl

collect_permissions_iff_example :
    In reads (collect_permissions 6 service.role_cache child)
    ↔ Holds service.role_cache 6 child reads
collect_permissions_iff_example = collect_permissions_iff service.role_cache 6 child reads

can-false_example : can parse from_jsonb (codes "u") 1 (codes "doc") (codes "read") service ≡ false
can-false_example =
    can-false parse service from_jsonb (codes "u") 1 (codes "doc") (codes "read") ((nil, refl), tt)
      refl
