-- ===== src/Management/RoleCreation.antt =====
-- A request to create a role that names a permission twice, in src/management_api.py.
use no8s_operator.Base.{
  suc, ◌≡◌, ap, ◌∙◌, arith, String, true, false, List, [], ◌∷◌, ◌++◌, string_eq, nat_eq, any,
}
use no8s_operator.Base.Result.{Error, ok, err, http, ◌>>◌, by_answer, unique_violation}
use no8s_operator.Db.Rows.{Database}
use no8s_operator.Db.Roles.{is_role}
use no8s_operator.Auth.{Claims}
use no8s_operator.Management.{Services, caught_unique}
use no8s_operator.Management.Roles.{
  RolePermissionCreate, CustomRoleCreate, add_permissions, returned_role, create_custom_role,
}
use no8s_operator.Management.RoleSteps.{
  any-snoc, creation, goes_on, named, permission_row, role_created, role_refused, role_row, scope,
  second_refused, with_permission_row, with_role_row,
}

abbrev after_conflict : CustomRoleCreate → RolePermissionCreate → Database → Database
after_conflict body p db = record (with_permission_row db.next_role_id p (with_role_row body db)) {
  next_permission_id = suc (suc db.next_permission_id);
}

module _ (text : Error → String) (s : Services) (user : Claims) where
  conflict_answer :
      (body : CustomRoleCreate) (p q : RolePermissionCreate) (ps : List RolePermissionCreate)
      (db : Database)
      → user.is_admin ≡ true
      → s.db_manager ≡ true
      → body.permissions ≡ p ∷ q ∷ ps
      → any (named body.name) db.roles ≡ false
      → any (scope db.next_role_id p) db.permissions ≡ false
      → p.resource_type_name ≡ q.resource_type_name
      → p.resource_type_version ≡ q.resource_type_version
      → create_custom_role text s user body db
        ≡ (err (http 409 "Role already exists"), after_conflict body p db)
  unfolding create_custom_role
  conflict_answer body p q ps db admin on asked fresh free same_name same_version =
      goes_on text s user "Role already exists" (creation body)
        (λ i. add_permissions i body.permissions >> returned_role i) db
        (ok db.next_role_id, with_role_row body db) admin on (role_created body db fresh)
      ∙ ap
          (λ r.
            caught_unique text "Role already exists"
              (λ d. by_answer (λ t. returned_role db.next_role_id) r) db)
          (ap (λ l. add_permissions db.next_role_id l (with_role_row body db)) asked
            ∙ second_refused db.next_role_id p q ps (with_role_row body db) free there same_name
                same_version)
    where
      there : any (is_role db.next_role_id) (with_role_row body db).roles ≡ true
      there =
          any-snoc (is_role db.next_role_id) db.roles (role_row db.next_role_id body) ∙ ground arith

  name_taken_answer :
      (body : CustomRoleCreate) (db : Database)
      → user.is_admin ≡ true
      → s.db_manager ≡ true
      → any (named body.name) db.roles ≡ true
      → (create_custom_role text s user body db).0 ≡ err (http 409 "Role already exists")
  unfolding create_custom_role
  name_taken_answer body db admin on taken =
      ap (λ r. r.0)
        (goes_on text s user "Role already exists" (creation body)
          (λ i. add_permissions i body.permissions >> returned_role i) db
          (
            err (unique_violation "custom_roles_name_key"),
            record db { next_role_id = suc db.next_role_id },
          )
          admin on (role_refused body db taken))

  -- Of an admin, a request to create a role with a new name whose first two permissions are on the
  -- same type and version is answered by 409 `Role already exists`, although the role and its first
  -- permission are then in the tables; and any further request to create a role of this name is
  -- answered by that 409 as well. The database is there, and has no permission of this type and
  -- version for the number that the new role gets.
  pub repeated_permission_conflicts :
      (body retry : CustomRoleCreate) (p q : RolePermissionCreate) (ps : List RolePermissionCreate)
      (db : Database)
      → user.is_admin ≡ true
      → s.db_manager ≡ true
      → body.permissions ≡ p ∷ q ∷ ps
      → any (named body.name) db.roles ≡ false
      → any (scope db.next_role_id p) db.permissions ≡ false
      → p.resource_type_name ≡ q.resource_type_name
      → p.resource_type_version ≡ q.resource_type_version
      → retry.name ≡ body.name
      → ((create_custom_role text s user body db).0 ≡ err (http 409 "Role already exists"))
        × ((create_custom_role text s user body db).1.roles
            ≡ db.roles ++ role_row db.next_role_id body ∷ [])
        × ((create_custom_role text s user body db).1.permissions
            ≡ db.permissions ++ permission_row db.next_permission_id db.next_role_id p ∷ [])
        × ((create_custom_role text s user retry (create_custom_role text s user body db).1).0
            ≡ err (http 409 "Role already exists"))
  repeated_permission_conflicts body retry p q ps db admin on asked fresh free same_name
        same_version same =
      let whole = conflict_answer body p q ps db admin on asked fresh free same_name same_version in
      let taken : any (named retry.name) (after_conflict body p db).roles ≡ true =
        any-snoc (named retry.name) db.roles (role_row db.next_role_id body) ∙ ground arith in
      (
        ap (λ r. r.0) whole,
        ap (λ r. r.1.roles) whole,
        ap (λ r. r.1.permissions) whole,
        ap (λ r. (create_custom_role text s user retry r.1).0) whole
            ∙ name_taken_answer retry (after_conflict body p db) admin on taken,
      )
