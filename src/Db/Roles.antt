-- ===== src/Db/Roles.antt =====
-- The custom roles and their permissions in src/db.py.
use no8s_operator.Base.{
  ℕ, suc, String, Bool, true, false, not, ◌&&◌, Option, none, some, List, [], ◌∷◌, ◌++◌, ◌==◌,
  if◌then◌else◌, string_eq, nat_eq, option_eq, leb, any, map, filter, find, update_where,
  delete_where,
}
use no8s_operator.Base.Sort.{sort}
use no8s_operator.Base.Result.{Action, ok, err, unique_violation, foreign_key_violation}
use no8s_operator.Db.Rows.{Role, Permission, User, Database}
use no8s_operator.Db.Resources.{or_default}

abbrev pub is_role : ℕ → Role → Bool
is_role i r = r.id == i

abbrev pub of_role : ℕ → Permission → Bool
of_role i p = p.role_id == i

abbrev pub by_id : Permission → Permission → Bool
by_id p q = leb p.id q.id

-- `_get_permissions_for_role`
unfoldable pub get_custom_role_permissions : ℕ → Database → List Permission
get_custom_role_permissions role_id db = sort by_id (filter (of_role role_id) db.permissions)

-- The role as the table has it; the methods add what the previous function returns.
unfoldable pub get_custom_role : ℕ → Database → Option Role
get_custom_role role_id db = find (is_role role_id) db.roles

unfoldable pub create_custom_role :
    String → Option String → Option (List String) → Action Database ℕ
create_custom_role name description system_permissions db =
    let i = db.next_role_id in
    let r : Role = record {
      id = i;
      name = name;
      description = description;
      system_permissions = or_default system_permissions [];
    } in
    if any (λ (q : Role). q.name == name) db.roles
    then (err (unique_violation "custom_roles_name_key"), record db { next_role_id = suc i })
    else (ok i, record db { next_role_id = suc i; roles = db.roles ++ r ∷ [] })

-- Arguments that are `None` are left out of the `SET` clause.
abbrev pub or_some {ℓ} : {A : Type ℓ} → Option A → Option A → Option A
or_some none d = d
or_some (some a) d = some a

abbrev pub renamed : Option String → Option String → Option (List String) → Role → Role
renamed name description system_permissions r = record r {
  name = or_default name r.name;
  description = or_some description r.description;
  system_permissions = or_default system_permissions r.system_permissions;
}

abbrev pub name_clashes : ℕ → Option String → Database → Bool
name_clashes i none db = false
name_clashes i (some name) db = any (λ (q : Role). q.name == name && not (is_role i q)) db.roles

-- Whether a row came back.
unfoldable pub update_custom_role :
    ℕ → Option String → Option String → Option (List String) → Action Database Bool
update_custom_role i name description system_permissions db = elim (get_custom_role i db) [
  | none ↦ (ok false, db)
  | some r ↦
      if name_clashes i name db then (err (unique_violation "custom_roles_name_key"), db) else (
        ok true,
        record db {
          roles = update_where (is_role i) (renamed name description system_permissions) db.roles;
        },
      )
]

abbrev pub without_role : ℕ → User → User
without_role i u = record u { custom_role_id = none }

abbrev pub has_role : ℕ → User → Bool
has_role i u = u.custom_role_id == some i

-- The permissions go with the role (ON DELETE CASCADE), the users lose it (ON DELETE SET NULL).
unfoldable pub delete_custom_role : ℕ → Action Database Bool
delete_custom_role i db = (
  ok (any (is_role i) db.roles),
  record db {
    roles = delete_where (is_role i) db.roles;
    permissions =
        if any (is_role i) db.roles
        then delete_where (of_role i) db.permissions
        else db.permissions;
    users =
        if any (is_role i) db.roles
        then update_where (has_role i) (without_role i) db.users
        else db.users;
  },
)

abbrev pub same_scope : ℕ → String → String → Permission → Bool
same_scope i name version p =
    of_role i p && p.resource_type_name == name && p.resource_type_version == version

-- The unique index is checked when the row goes in, the foreign key at the end of the statement.
unfoldable pub add_role_permission : ℕ → String → String → List String → Action Database ℕ
add_role_permission role_id name version operations db =
    let i = db.next_permission_id in
    let p : Permission = record {
      id = i;
      role_id = role_id;
      resource_type_name = name;
      resource_type_version = version;
      operations = operations;
    } in
    if any (same_scope role_id name version) db.permissions
    then (
      err (unique_violation "custom_role_permissions_role_id_key"),
      record db { next_permission_id = suc i },
    )
    else if not (any (is_role role_id) db.roles)
    then (err (foreign_key_violation "role_id"), record db { next_permission_id = suc i })
    else (ok i, record db { next_permission_id = suc i; permissions = db.permissions ++ p ∷ [] })

abbrev pub is_permission : ℕ → Permission → Bool
is_permission i p = p.id == i

unfoldable pub update_role_permission : ℕ → List String → Action Database Bool
update_role_permission i operations db = (
  ok (any (is_permission i) db.permissions),
  record db {
    permissions =
        update_where (is_permission i) (λ p. record p { operations = operations }) db.permissions;
  },
)

unfoldable pub delete_role_permission : ℕ → Action Database Bool
delete_role_permission i db = (
  ok (any (is_permission i) db.permissions),
  record db { permissions = delete_where (is_permission i) db.permissions },
)

abbrev pub by_role_id : Role → Role → Bool
by_role_id a b = leb a.id b.id

-- `ORDER BY id`; each role comes with its permissions.
unfoldable pub list_custom_roles : Database → List (Role × List Permission)
list_custom_roles db =
    map (λ (r : Role). (r, get_custom_role_permissions r.id db)) (sort by_role_id db.roles)
