-- ===== src/Api/Delete.antt =====
-- src/plugins/inputs/http/api.py: the handler of DELETE /api/v1/resources/{id}.
use no8s_operator.Base.{ℕ, String, Option, none, some, List, if◌then◌else◌}
use no8s_operator.Base.Result.{Error, Result, Action, ok, err, and_then, http}
use no8s_operator.Json as Values
use no8s_operator.Json.{Fields}
use no8s_operator.Db.Rows.{Resource, Webhook, Database}
use no8s_operator.Db.Resources.{get_resource, delete_resource}
use no8s_operator.Admission.{AdmissionRequest}
use no8s_operator.Auth.{Claims, check_resource_permission}
use no8s_operator.Events.{deleted, from_resource, publish}
use no8s_operator.Api.{HttpInputPlugin, World, notified, as_http, admitted_spec, answered}

-- The event carries the resource as it was before it was marked. What is answered is its id.
unfoldable pub write_delete : HttpInputPlugin → String → ℕ → ℕ → Resource → Action World ℕ
write_delete plugin timestamp now i resource w =
    let db = (delete_resource now i w.db).1 in
    elim (notified plugin.on_resource_event) [
      | err e ↦ (err e, record w { db = db })
      | ok done ↦ (
        ok i,
        record w {
          db = db;
          bus =
              if plugin.event_bus
              then publish (from_resource timestamp deleted resource) w.bus
              else w.bus;
        },
      )
    ]

module _ (endpoint : Webhook → AdmissionRequest → Option Values.Value)
    (iter_errors : Fields → Fields → Result (List String)) (plugin : HttpInputPlugin) where
  abbrev pub delete_request : Resource → AdmissionRequest
  delete_request resource = record {
    operation = "DELETE";
    name = resource.name;
    resource_type_name = resource.resource_type_name;
    resource_type_version = resource.resource_type_version;
    spec = resource.spec;
    old_resource = none;
  }

  -- The spec that the chain returns is not used.
  unfoldable pub check_delete : Claims → ℕ → Database → Result Resource
  check_delete user i db =
      if plugin.db_manager
      then elim (get_resource i db) [
        | none ↦ err (http 404 "Resource not found")
        | some resource ↦
            if check_resource_permission user db resource.resource_type_name
              resource.resource_type_version "DELETE"
            then and_then (admitted_spec endpoint iter_errors plugin (delete_request resource) db)
                (λ _. ok resource)
            else err (http 403 "Insufficient permissions")
      ]
      else err (http 503 "Database not available")

  unfoldable pub delete_handler : (Error → String) → String → ℕ → Claims → ℕ → Action World ℕ
  delete_handler text timestamp now user i w = elim (check_delete user i w.db) [
    | err e ↦ (err (as_http text e), w)
    | ok resource ↦ answered text (write_delete plugin timestamp now i resource w)
  ]
