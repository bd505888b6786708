-- ===== src/Management/Roles.antt =====
-- src/management_api.py: the custom roles and their permissions.
use no8s_operator.Base.{ℕ, String, Option, none, some, List, [], ◌∷◌, find}
use no8s_operator.Base.Result.{Error, Action, ok, err, ◌>>=◌, ◌>>◌, gets, type_error}
use no8s_operator.Db.Rows.{Role, Permission, Database}
use no8s_operator.Db.Roles
use no8s_operator.Auth.{Claims}
use no8s_operator.Management.{
  Services, as_admin, with_db, caught, caught_unique, or_404, deleted_or,
}

pub record RolePermissionCreate : Type 0 where
  pub resource_type_name : String
  pub resource_type_version : String
  pub operations : List String

pub record CustomRoleCreate : Type 0 where
  pub name : String
  pub description : Option String
  pub system_permissions : List String
  pub permissions : List RolePermissionCreate

-- The answer has a role with its permissions.
abbrev pub CustomRole : Type 0
CustomRole = Role × List Permission

abbrev pub with_permissions : ℕ → Database → Option CustomRole
with_permissions i db = elim (Roles.get_custom_role i db) [
  | none ↦ none
  | some r ↦ some (r, Roles.get_custom_role_permissions i db)
]

abbrev pub returned_role : ℕ → Action Database CustomRole
returned_role i db = elim (with_permissions i db) [
  | none ↦ (err (type_error "argument after ** must be a mapping, not NoneType"), db)
  | some r ↦ (ok r, db)
]

-- `for perm in body.permissions`
unfoldable pub add_permissions : ℕ → List RolePermissionCreate → Action Database (Unit {0})
add_permissions role_id [] db = (ok tt, db)
add_permissions role_id (p ∷ ps) db =
    (Roles.add_role_permission role_id p.resource_type_name p.resource_type_version p.operations
        >> add_permissions role_id ps)
      db

unfoldable pub create_custom_role :
    (Error → String) → Services → Claims → CustomRoleCreate → Action Database CustomRole
create_custom_role text s user body = as_admin user (
    with_db s (
      caught_unique text "Role already exists" (
        Roles.create_custom_role body.name body.description (some body.system_permissions)
        >>= (λ i. add_permissions i body.permissions >> returned_role i))))

unfoldable pub list_custom_roles : Services → Claims → Action Database (List CustomRole)
list_custom_roles s user = as_admin user (with_db s (gets Roles.list_custom_roles))

unfoldable pub get_custom_role : Services → Claims → ℕ → Action Database CustomRole
get_custom_role s user i =
    as_admin user (with_db s (λ db. or_404 "Role not found" (with_permissions i db) db))

pub record CustomRoleUpdate : Type 0 where
  pub name : Option String
  pub description : Option String
  pub system_permissions : Option (List String)

unfoldable pub update_custom_role :
    (Error → String) → Services → Claims → ℕ → CustomRoleUpdate → Action Database CustomRole
update_custom_role text s user i body = as_admin user (
    with_db s (
      caught text (
        Roles.update_custom_role i body.name body.description body.system_permissions
        >>= deleted_or 404 "Role not found"
        >> returned_role i)))

unfoldable pub delete_custom_role : Services → Claims → ℕ → Action Database (Unit {0})
delete_custom_role s user i =
    as_admin user (with_db s (Roles.delete_custom_role i >>= deleted_or 404 "Role not found"))

abbrev pub returned_permission : ℕ → Action Database Permission
returned_permission i db = elim (find (Roles.is_permission i) db.permissions) [
  | none ↦ (err (type_error "argument after ** must be a mapping, not NoneType"), db)
  | some p ↦ (ok p, db)
]

unfoldable pub add_role_permission :
    (Error → String) → Services → Claims → ℕ → RolePermissionCreate → Action Database Permission
add_role_permission text s user role_id body = as_admin user (
    with_db s (λ db.
      (or_404 "Role not found" (Roles.get_custom_role role_id db)
          >> caught_unique text "Permission for this resource type/version already exists" (
              Roles.add_role_permission role_id body.resource_type_name body.resource_type_version
                body.operations
              >>= returned_permission))
        db))

-- The role in the path is not compared with the role of the permission.
unfoldable pub update_role_permission :
    (Error → String) → Services → Claims → ℕ → ℕ → List String → Action Database Permission
update_role_permission text s user role_id perm_id operations = as_admin user (
    with_db s (
      caught text (
        Roles.update_role_permission perm_id operations
        >>= deleted_or 404 "Permission not found"
        >> returned_permission perm_id)))

unfoldable pub delete_role_permission : Services → Claims → ℕ → ℕ → Action Database (Unit {0})
delete_role_permission s user role_id perm_id =
    as_admin user
      (with_db s (Roles.delete_role_permission perm_id >>= deleted_or 404 "Permission not found"))
