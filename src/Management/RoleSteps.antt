-- ===== src/Management/RoleSteps.antt =====
-- The steps of `create_custom_role` in src/management_api.py, and what each does to the tables.
use no8s_operator.Base.{
  ℕ, suc, ◌≡◌, refl, ap, ◌∙◌, arith, String, Bool, true, false, ◌||◌, some, List, [], ◌∷◌, ◌++◌,
  ◌==◌, string_eq, nat_eq, any, if◌then◌else◌,
}
use no8s_operator.Base.Result.{
  Error, Result, Action, ok, err, http, ◌>>=◌, by_answer, unique_violation,
}
use no8s_operator.Db.Rows.{Role, Permission, Database}
use no8s_operator.Db.Roles
use no8s_operator.Db.Roles.{is_role, same_scope}
use no8s_operator.Auth.{Claims, require_admin}
use no8s_operator.Management.{Services, as_admin, with_db, caught_unique}
use no8s_operator.Management.Roles.{RolePermissionCreate, CustomRoleCreate, add_permissions}

abbrev pub role_row : ℕ → CustomRoleCreate → Role
role_row i body = record {
  id = i;
  name = body.name;
  description = body.description;
  system_permissions = body.system_permissions;
}

abbrev pub permission_row : ℕ → ℕ → RolePermissionCreate → Permission
permission_row i role_id p = record {
  id = i;
  role_id = role_id;
  resource_type_name = p.resource_type_name;
  resource_type_version = p.resource_type_version;
  operations = p.operations;
}

abbrev pub scope : ℕ → RolePermissionCreate → Permission → Bool
scope i p = same_scope i p.resource_type_name p.resource_type_version

pub any-snoc :
    {A : Type 0} (q : A → Bool) (xs : List A) (x : A) → any q (xs ++ x ∷ []) ≡ (any q xs || q x)
any-snoc q [] x = ground arith
any-snoc q (y ∷ ys) x = ground (arith, any-snoc q ys x)

abbrev pub with_permission_row : ℕ → RolePermissionCreate → Database → Database
with_permission_row role_id p db = record db {
  next_permission_id = suc db.next_permission_id;
  permissions = db.permissions ++ permission_row db.next_permission_id role_id p ∷ [];
}

pub added :
    (role_id : ℕ) (p : RolePermissionCreate) (db : Database)
    → any (scope role_id p) db.permissions ≡ false
    → any (is_role role_id) db.roles ≡ true
    → Roles.add_role_permission role_id p.resource_type_name p.resource_type_version p.operations db
      ≡ (ok db.next_permission_id, with_permission_row role_id p db)
unfolding Roles.add_role_permission
added role_id p db fresh there = rw (fresh, Roles.add_role_permission) (rw there refl)

pub repeated :
    (role_id : ℕ) (p : RolePermissionCreate) (db : Database)
    → any (scope role_id p) db.permissions ≡ true
    → Roles.add_role_permission role_id p.resource_type_name p.resource_type_version p.operations db
      ≡ (
        err (unique_violation "custom_role_permissions_role_id_key"),
        record db { next_permission_id = suc db.next_permission_id },
      )
unfolding Roles.add_role_permission
repeated role_id p db taken = rw (taken, Roles.add_role_permission) refl

-- The second of two permissions on the same type and version is refused, and the first one stays.
pub second_refused :
    (role_id : ℕ) (p q : RolePermissionCreate) (ps : List RolePermissionCreate) (db : Database)
    → any (scope role_id p) db.permissions ≡ false
    → any (is_role role_id) db.roles ≡ true
    → p.resource_type_name ≡ q.resource_type_name
    → p.resource_type_version ≡ q.resource_type_version
    → add_permissions role_id (p ∷ q ∷ ps) db ≡ (
      err (unique_violation "custom_role_permissions_role_id_key"),
      record (with_permission_row role_id p db) {
        next_permission_id = suc (suc db.next_permission_id);
      },
    )
unfolding add_permissions
second_refused role_id p q ps db fresh there same_name same_version =
    ap (by_answer (λ i. add_permissions role_id (q ∷ ps))) (added role_id p db fresh there)
    ∙ ap (by_answer (λ i. add_permissions role_id ps))
        (repeated role_id q (with_permission_row role_id p db) taken)
  where
    taken : any (scope role_id q) (with_permission_row role_id p db).permissions ≡ true
    taken =
        any-snoc (scope role_id q) db.permissions (permission_row db.next_permission_id role_id p)
        ∙ ground arith

abbrev pub named : String → Role → Bool
named name r = r.name == name

abbrev pub with_role_row : CustomRoleCreate → Database → Database
with_role_row body db = record db {
  next_role_id = suc db.next_role_id;
  roles = db.roles ++ role_row db.next_role_id body ∷ [];
}

pub role_created :
    (body : CustomRoleCreate) (db : Database)
    → any (named body.name) db.roles ≡ false
    → Roles.create_custom_role body.name body.description (some body.system_permissions) db
      ≡ (ok db.next_role_id, with_role_row body db)
unfolding Roles.create_custom_role
role_created body db fresh = rw (fresh, Roles.create_custom_role) refl

pub role_refused :
    (body : CustomRoleCreate) (db : Database)
    → any (named body.name) db.roles ≡ true
    → Roles.create_custom_role body.name body.description (some body.system_permissions) db ≡ (
      err (unique_violation "custom_roles_name_key"),
      record db { next_role_id = suc db.next_role_id },
    )
unfolding Roles.create_custom_role
role_refused body db taken = rw (taken, Roles.create_custom_role) refl

abbrev pub creation : CustomRoleCreate → Action Database ℕ
creation body = Roles.create_custom_role body.name body.description (some body.system_permissions)

-- A request of an admin to a handler with a database goes on by what its first step did.
pub goes_on :
    {A B : Type 0} (text : Error → String) (s : Services) (user : Claims) (detail : String)
    (m : Action Database A) (f : A → Action Database B) (db : Database) (x : Result A × Database)
    → user.is_admin ≡ true
    → s.db_manager ≡ true
    → m db ≡ x
    → as_admin user (with_db s (caught_unique text detail (m >>= f))) db
      ≡ caught_unique text detail (λ d. by_answer f x) db
unfolding require_admin
goes_on text s user detail m f db x admin on e =
    rw (admin, require_admin)
      (ap
          (λ b.
            if b
            then caught_unique text detail (m >>= f) db
            else (err (http 503 "Database not available"), db))
          on
        ∙ ap (λ y. caught_unique text detail (λ d. by_answer f y) db) e)
