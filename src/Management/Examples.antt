-- ===== src/Management/Examples.antt =====
-- The theorems on src/management_api.py for concrete requests.
use no8s_operator.Base.{
  List, arith, ℕ, ◌≡◌, ◌≢◌, ◌↔◌, ◌⊎◌, refl, Bool, true, false, none, some, [], ◌∷◌, string_eq,
  nat_eq,
}
use no8s_operator.Base.Result.{err, http}
use no8s_operator.Db.Rows.{Database, empty}
use no8s_operator.Db.Resources.{delete_resource}
use no8s_operator.Db.Calls.{Call, execute_all}
use no8s_operator.Auth.{Claims}
use no8s_operator.Events.{ResourceEvent, created}
use no8s_operator.Api.Examples.{text, resource}
use no8s_operator.Management.{Services}
use no8s_operator.Management.Roles.{RolePermissionCreate, CustomRoleCreate, create_custom_role}
use no8s_operator.Management.Resources.{
  get_resource_by_id, update_finalizers, trigger_reconciliation,
}
use no8s_operator.Management.Streams.{event_filter}
use no8s_operator.Management.RoleSteps.{role_row, permission_row}
use no8s_operator.Management.RoleCreation.{repeated_permission_conflicts}
use no8s_operator.Management.Release.{missing, deleted_is_unreachable}
use no8s_operator.Management.Visibility.{ReadsType, event_filter_iff}

abbrev services : Services
services = record {
  db_manager = true;
  auth_manager = true;
  ldap_manager = false;
  ldap_configured = false;
  event_bus = true;
}

abbrev root : Claims
root = record {
  sub = 1;
  username = "root";
  is_admin = true;
  source = "manual";
  custom_role_id = none;
}

abbrev stored : Database
stored = record empty {
  next_resource_id = 2;
  resources = record resource { finalizers = "external" ∷ [] } ∷ [];
}

-- A controller and a reconciler go on with the resource after it is deleted.
abbrev later_calls : List (ℕ × Call)
later_calls =
    (7, Call.mark 1 0)
    ∷ (8, Call.update 1 none none)
    ∷ (8, Call.release 1 "other")
    ∷ (9, Call.hard_delete 1)
    ∷ []

abbrev deleted_and_called : Database
deleted_and_called = execute_all (λ fs. "") later_calls (delete_resource 7 1 stored).1

deleted_is_unreachable_example :
    (update_finalizers text 10 services root 1 [] ("external" ∷ []) deleted_and_called
      ≡ missing deleted_and_called)
    × (trigger_reconciliation text 10 services root 1 deleted_and_called
        ≡ missing deleted_and_called)
    × (get_resource_by_id services root 1 deleted_and_called ≡ missing deleted_and_called)
deleted_is_unreachable_example =
    deleted_is_unreachable text services root 1 (λ fs. "") 7 10 later_calls [] ("external" ∷ [])
      stored refl (omega arith)

abbrev reader : Claims
reader = record root { is_admin = false; custom_role_id = some 3 }

-- The role may read version v1 of the type, and the event is of version v2.
abbrev granted : Database
granted = record empty {
  permissions =
      record {
        id = 1;
        role_id = 3;
        resource_type_name = "Cluster";
        resource_type_version = "v1";
        operations = "READ" ∷ [];
      }
      ∷ [];
}

abbrev event : ResourceEvent
event = record {
  event_type = created;
  resource_id = 1;
  resource_name = "db";
  resource_type_name = "Cluster";
  resource_type_version = "v2";
  resource_data = resource;
  timestamp = "t";
}

event_filter_iff_example : (event_filter services reader none granted event ≡ true) ↔ (
    ((◌≡◌ {A = Bool} false true)
      ⊎ ((i : ℕ) × (some 3 ≡ some i) × (i ≢ 0) × ReadsType i "Cluster" granted))
    × Unit {0})
event_filter_iff_example = event_filter_iff services reader none granted event refl

abbrev permission : RolePermissionCreate
permission = record {
  resource_type_name = "*";
  resource_type_version = "*";
  operations = "READ" ∷ [];
}

abbrev wanted : CustomRoleCreate
wanted = record {
  name = "viewer";
  description = none;
  system_permissions = [];
  permissions = permission ∷ permission ∷ [];
}

repeated_permission_conflicts_example :
    ((create_custom_role text services root wanted empty).0 ≡ err (http 409 "Role already exists"))
    × ((create_custom_role text services root wanted empty).1.roles ≡ role_row 1 wanted ∷ [])
    × ((create_custom_role text services root wanted empty).1.permissions
        ≡ permission_row 1 1 permission ∷ [])
    × ((create_custom_role text services root wanted
          (create_custom_role text services root wanted empty).1).0
        ≡ err (http 409 "Role already exists"))
repeated_permission_conflicts_example =
    repeated_permission_conflicts text services root wanted wanted permission permission [] empty
      refl refl refl refl refl refl refl refl
