-- ===== src/Management.antt =====
-- src/management_api.py: the handlers of the router by their groups. Here is what they share: what the
-- router was created with, the guards, and how exceptions become answers. A handler that depends on
-- `require_admin` runs behind `as_admin`.
pub mod Accounts
pub mod Roles
pub mod Types
pub mod Resources
pub mod Webhooks
pub mod Streams
pub mod RoleSteps
pub mod RoleCreation
pub mod Release
pub mod Visibility
mod Examples
use no8s_operator.Base.{ℕ, String, Bool, Option, none, some, if◌then◌else◌}
use no8s_operator.Base.Result.{Error, Result, Action, ok, err, http, unique_violation}
use no8s_operator.Db.Rows.{Resource, Database}
use no8s_operator.Db.Resources.{get_resource}
use no8s_operator.Auth.{Claims, require_admin, check_resource_permission}
use no8s_operator.Api.{as_http}

-- The arguments of `create_management_router` that are there, and `is_configured` of the LDAP manager.
pub record Services : Type 0 where
  pub db_manager : Bool
  pub auth_manager : Bool
  pub ldap_manager : Bool
  pub ldap_configured : Bool
  pub event_bus : Bool

-- The text of a unique violation has "unique constraint" in it.
abbrev pub conflict : (Error → String) → String → Error → Error
conflict text detail (unique_violation c) = http 409 detail
conflict text detail e = as_http text e

module _ {A : Type 0} where
  abbrev pub as_admin : Claims → Action Database A → Action Database A
  as_admin user body db = elim (require_admin user) [ err e ↦ (err e, db) | ok admin ↦ body db ]

  abbrev pub with_db : Services → Action Database A → Action Database A
  with_db s body db =
      if s.db_manager then body db else (err (http 503 "Database not available"), db)

  -- `except HTTPException: raise`, and any other exception is a 500.
  abbrev pub caught : (Error → String) → Action Database A → Action Database A
  caught text body db =
      let (answer, db') = body db in
      elim answer [ ok a ↦ (ok a, db') | err e ↦ (err (as_http text e), db') ]

  abbrev pub caught_unique : (Error → String) → String → Action Database A → Action Database A
  caught_unique text detail body db =
      let (answer, db') = body db in
      elim answer [ ok a ↦ (ok a, db') | err e ↦ (err (conflict text detail e), db') ]

  abbrev pub or_404 : String → Option A → Action Database A
  or_404 detail none db = (err (http 404 detail), db)
  or_404 detail (some a) db = (ok a, db)

-- `if not deleted: raise HTTPException(404)`
abbrev pub deleted_or : ℕ → String → Bool → Action Database (Unit {0})
deleted_or status detail deleted db = (if deleted then ok tt else err (http status detail), db)

-- The resource that a request names, if the user may do the operation on its type.
unfoldable pub find_resource : Claims → String → ℕ → Database → Result Resource
find_resource user operation i db = elim (get_resource i db) [
  | none ↦ err (http 404 "Resource not found")
  | some r ↦
      if check_resource_permission user db r.resource_type_name r.resource_type_version operation
      then ok r
      else err (http 403 "Insufficient permissions")
]
