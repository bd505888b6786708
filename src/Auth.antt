-- ===== src/Auth.antt =====
-- src/auth.py: who may do what. A decoded token is a record; its signature, its expiry and the
-- password hashes are the business of third-party packages.
pub mod Grants
pub mod Rights
mod Examples
use no8s_operator.Base.{
  ℕ, String, Bool, true, false, not, ◌&&◌, ◌||◌, Option, none, some, List, [], ◌∷◌, ◌==◌,
  if◌then◌else◌, string_eq, nat_eq, contains, any,
}
use no8s_operator.Base.Paths.{after_prefix, starts_with}
use no8s_operator.Base.Result.{Result, ok, err, http}
use no8s_operator.Db.Rows.{Permission, User, Database}
use no8s_operator.Db.Roles.{get_custom_role_permissions, get_custom_role}

-- The payload of `create_token` without its expiry.
pub record Claims : Type 0 where
  pub sub : ℕ
  pub username : String
  pub is_admin : Bool
  pub source : String
  pub custom_role_id : Option ℕ

unfoldable pub claims_of : User → Claims
claims_of u = record {
  sub = u.id;
  username = u.username;
  is_admin = u.is_admin;
  source = u.source;
  custom_role_id = u.custom_role_id;
}

-- The header is the empty text where the request has none.
unfoldable pub extract_bearer : Option String → Result String
extract_bearer none = err (http 401 "Missing or invalid Authorization header")
extract_bearer (some header) =
    if starts_with header "Bearer "
    then ok (after_prefix "Bearer " header)
    else err (http 401 "Missing or invalid Authorization header")

unfoldable pub require_admin : Claims → Result Claims
require_admin user = if user.is_admin then ok user else err (http 403 "Admin role required")

-- `value in ("*", wanted)`
abbrev pub wildcard : String → String → Bool
wildcard value wanted = value == "*" || value == wanted

abbrev pub grants : String → String → String → Permission → Bool
grants type_name type_version operation p =
    wildcard p.resource_type_name type_name
    && wildcard p.resource_type_version type_version
    && contains p.operations operation

-- `if not custom_role_id` is true of `None` and of 0.
abbrev pub role_id_of : Option ℕ → Option ℕ
role_id_of none = none
role_id_of (some i) = if i == 0 then none else some i

unfoldable pub check_resource_permission : Claims → Database → String → String → String → Bool
check_resource_permission user db type_name type_version operation =
    if user.is_admin then true else elim (role_id_of user.custom_role_id) [
      | none ↦ false
      | some i ↦ any (grants type_name type_version operation) (get_custom_role_permissions i db)
    ]

unfoldable pub check_system_permission : Claims → Database → String → Bool
check_system_permission user db permission =
    if user.is_admin then true else elim (role_id_of user.custom_role_id) [
      | none ↦ false
      | some i ↦ elim (get_custom_role i db) [
        | none ↦ false
        | some role ↦ contains role.system_permissions permission
      ]
    ]
