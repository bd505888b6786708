-- ===== src/Auth/Examples.antt =====
-- The theorems on src/auth.py for one role with one permission.
use no8s_operator.Base.{
  ℕ, ◌≡◌, ◌≢◌, ◌↔◌, ◌⊎◌, refl, Bool, true, false, none, some, [], ◌∷◌, string_eq, nat_eq,
}
use no8s_operator.Base.Result.{ok}
use no8s_operator.Db.Rows.{Database, empty}
use no8s_operator.Db.Roles.{delete_custom_role, add_role_permission}
use no8s_operator.Auth.{Claims, check_resource_permission}
use no8s_operator.Auth.Grants.{deleted_role_grants_nothing}
use no8s_operator.Auth.Rights.{Granted, check_resource_permission_iff}

abbrev tables : Database
tables = record empty {
  roles = record { id = 1; name = "dev"; description = none; system_permissions = [] } ∷ [];
  permissions =
      record {
        id = 1;
        role_id = 1;
        resource_type_name = "*";
        resource_type_version = "v1";
        operations = "READ" ∷ [];
      }
      ∷ [];
  next_permission_id = 2;
}

abbrev developer : Claims
developer = record {
  sub = 7;
  username = "ann";
  is_admin = false;
  source = "manual";
  custom_role_id = some 1;
}

check_resource_permission_iff_example :
    (check_resource_permission developer tables "Cluster" "v1" "READ" ≡ true) ↔ (
      (◌≡◌ {A = Bool} false true)
      ⊎ ((i : ℕ) × (some 1 ≡ some i) × (i ≢ 0) × Granted i "Cluster" "v1" "READ" tables))
check_resource_permission_iff_example =
    check_resource_permission_iff developer tables "Cluster" "v1" "READ"

deleted_role_grants_nothing_example :
    check_resource_permission developer (delete_custom_role 1 tables).1 "Cluster" "v1" "READ"
    ≡ false
unfolding nat_eq
deleted_role_grants_nothing_example =
    deleted_role_grants_nothing developer 1 tables "Cluster" "v1" "READ" refl refl refl

added_test : (add_role_permission 1 "Cluster" "v1" ("UPDATE" ∷ []) tables).0 ≡ ok 2
unfolding add_role_permission nat_eq string_eq
added_test = refl
