-- ===== src/Db/ResourceTypes.antt =====
-- The methods of src/db.py on the table `resource_types`. The order of texts that `ORDER BY` uses is
-- the collation of the server, a parameter.
pub mod References
pub mod Kept
use no8s_operator.Base.{
  ℕ, suc, String, Bool, true, false, ◌&&◌, ◌||◌, Option, none, some, List, [], ◌∷◌, ◌++◌, ◌==◌,
  if◌then◌else◌, string_eq, nat_eq, any, filter, find, take, update_where, delete_where,
}
use no8s_operator.Base.Result.{Action, ok, err, modify, unique_violation}
use no8s_operator.Base.Sort.{sort}
use no8s_operator.Json.{Fields, end}
use no8s_operator.Db.Rows.{Resource, ResourceType, Database}
use no8s_operator.Db.Resources.{is_none, or_default}

unfoldable pub get_resource_type_by_name_version : String → String → Database → Option ResourceType
get_resource_type_by_name_version name version db =
    find (λ (t : ResourceType). t.name == name && t.version == version) db.resource_types

abbrev pub is_type : ℕ → ResourceType → Bool
is_type i t = t.id == i

abbrev pub named_version : String → String → ResourceType → Bool
named_version name version t = t.name == name && t.version == version

unfoldable pub create_resource_type :
    ℕ → String → String → Fields → Option String → Option Fields → Action Database ℕ
create_resource_type now name version schema description metadata db =
    let i = db.next_resource_type_id in
    let t : ResourceType = record {
      id = i;
      name = name;
      version = version;
      schema = schema;
      description = description;
      status = "active";
      metadata = or_default metadata end;
      updated_at = now;
    } in
    if any (named_version name version) db.resource_types
    then (
      err (unique_violation "resource_types_name_version_key"),
      record db { next_resource_type_id = suc i },
    )
    else (
      ok i,
      record db { next_resource_type_id = suc i; resource_types = db.resource_types ++ t ∷ [] },
    )

unfoldable pub get_resource_type : ℕ → Database → Option ResourceType
get_resource_type i db = find (is_type i) db.resource_types

-- `if name:` is false of `None` and of the empty text.
abbrev pub allows : Option String → String → Bool
allows none v = true
allows (some f) v = f == "" || v == f

abbrev pub by_name_version : (String → String → Bool) → ResourceType → ResourceType → Bool
by_name_version le a b = if a.name == b.name then le a.version b.version else le a.name b.name

unfoldable pub list_resource_types :
    (String → String → Bool) → Option String → Option String → ℕ → Database → List ResourceType
list_resource_types le name status limit db = take limit (
    sort (by_name_version le) (
      filter (λ (t : ResourceType). allows name t.name && allows status t.status)
        db.resource_types))

abbrev pub or_kept : Option String → Option String → Option String
or_kept none old = old
or_kept (some s) old = some s

abbrev pub revised :
    ℕ → Option Fields → Option String → Option String → Option Fields → ResourceType → ResourceType
revised now schema description status metadata t = record t {
  schema = or_default schema t.schema;
  description = or_kept description t.description;
  status = or_default status t.status;
  metadata = or_default metadata t.metadata;
  updated_at = now;
}

-- With nothing to set there is no statement.
unfoldable pub update_resource_type :
    ℕ
    → ℕ
    → Option Fields
    → Option String
    → Option String
    → Option Fields
    → Action Database (Unit {0})
update_resource_type now i schema description status metadata db =
    if is_none schema && is_none description && is_none status && is_none metadata
    then (ok tt, db)
    else (
      ok tt,
      record db {
        resource_types =
            update_where (is_type i) (revised now schema description status metadata)
              db.resource_types;
      },
    )

-- A resource that is not soft-deleted refers to the type.
abbrev pub refers_to : ResourceType → Resource → Bool
refers_to t r =
    r.resource_type_name == t.name && r.resource_type_version == t.version && is_none r.deleted_at

-- False also where there is no such type.
unfoldable pub delete_resource_type : ℕ → Action Database Bool
delete_resource_type i db = elim (get_resource_type i db) [
  | none ↦ (ok false, db)
  | some t ↦
      if any (refers_to t) db.resources
      then (ok false, db)
      else (ok true, record db { resource_types = delete_where (is_type i) db.resource_types })
]
