-- ===== src/Management/Types.antt =====
-- src/management_api.py: the resource types.
use no8s_operator.Base.{ℕ, String, Bool, Option, none, some, List}
use no8s_operator.Base.Result.{Error, Action, ok, err, ◌>>=◌, ◌>>◌, gets, type_error}
use no8s_operator.Json.{Fields}
use no8s_operator.Db.Rows.{ResourceType, Database}
use no8s_operator.Db.ResourceTypes
use no8s_operator.Auth.{Claims}
use no8s_operator.Management.{
  Services, as_admin, with_db, caught, caught_unique, or_404, deleted_or,
}

-- The validators of ResourceTypeCreate and ResourceTypeUpdate ask the jsonschema package, before these.
pub record ResourceTypeCreate : Type 0 where
  pub name : String
  pub version : String
  pub resource_schema : Fields
  pub description : Option String
  pub metadata : Option Fields

abbrev pub created_type : ℕ → Action Database ResourceType
created_type i db = elim (ResourceTypes.get_resource_type i db) [
  | none ↦ (err (type_error "argument after ** must be a mapping, not NoneType"), db)
  | some t ↦ (ok t, db)
]

unfoldable pub create_resource_type :
    (Error → String) → ℕ → Services → Claims → ResourceTypeCreate → Action Database ResourceType
create_resource_type text now s user rt = as_admin user (
    with_db s (
      caught_unique text "Resource type already exists" (
        ResourceTypes.create_resource_type now rt.name rt.version rt.resource_schema rt.description
          rt.metadata
        >>= created_type)))

-- The reads ask for a token of any user.
unfoldable pub list_resource_types :
    (String → String → Bool)
    → Services
    → Option String
    → Option String
    → ℕ
    → Action Database (List ResourceType)
list_resource_types le s name status limit =
    with_db s (gets (ResourceTypes.list_resource_types le name status limit))

unfoldable pub get_resource_type_by_id : Services → ℕ → Action Database ResourceType
get_resource_type_by_id s i =
    with_db s (λ db. or_404 "Resource type not found" (ResourceTypes.get_resource_type i db) db)

unfoldable pub get_resource_type_by_name_version :
    Services → String → String → Action Database ResourceType
get_resource_type_by_name_version s name version = with_db s (λ db.
    or_404 "Resource type not found"
      (ResourceTypes.get_resource_type_by_name_version name version db) db)

pub record ResourceTypeUpdate : Type 0 where
  pub resource_schema : Option Fields
  pub description : Option String
  pub status : Option String
  pub metadata : Option Fields

-- What is missing is noticed after the update, which then has changed no row.
unfoldable pub update_resource_type :
    (Error → String) → ℕ → Services → Claims → ℕ → ResourceTypeUpdate → Action Database ResourceType
update_resource_type text now s user i update = as_admin user (
    with_db s (
      caught text (
        ResourceTypes.update_resource_type now i update.resource_schema update.description
          update.status update.metadata
        >> (λ db. or_404 "Resource type not found" (ResourceTypes.get_resource_type i db) db))))

-- A type that is not there is answered as one that is in use.
unfoldable pub delete_resource_type :
    (Error → String) → Services → Claims → ℕ → Action Database (Unit {0})
delete_resource_type text s user i = as_admin user (
    with_db s (
      caught text (
        ResourceTypes.delete_resource_type i
        >>= deleted_or 409 "Cannot delete: resources still reference this type")))
