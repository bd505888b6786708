-- ===== src/Api.antt =====
-- src/plugins/inputs/http/api.py: the handler of PUT /api/v1/resources/{id}, over src/validation.py.
-- The callback of src/main.py, which `start` is given, is part of it.
pub mod Create
pub mod Delete
pub mod Update
pub mod Created
pub mod Refusals
pub mod Deleted
pub mod Effects
pub mod Serving
pub mod TypedWrites
pub mod References
pub mod Examples
mod HandlerExamples
use no8s_operator.Base.{
  ℕ, String, Bool, true, false, not, Option, none, some, List, [], ◌∷◌, if◌then◌else◌,
}
use no8s_operator.Base.Result.{
  Error, Result, Action, ok, err, and_then, admission_error, http, type_error, attribute_error,
}
use no8s_operator.Json.{Fields}
use no8s_operator.Db.Rows.{Resource, ResourceType, Webhook, Database}
use no8s_operator.Db.Resources.{get_resource, update_resource}
use no8s_operator.Db.ResourceTypes.{get_resource_type_by_name_version}
use no8s_operator.Json as Values
use no8s_operator.Admission.{AdmissionRequest, run}
use no8s_operator.Auth.{Claims, check_resource_permission}
use no8s_operator.Plugins.Registry.{Registry}
use no8s_operator.Events.{EventBus, modified, from_resource, publish}

-- What has been set on the plugin; `on_resource_event` is the callback of main.py, if `start` has set
-- it, with whether main.py has an event bus.
pub record HttpInputPlugin : Type 0 where
  pub db_manager : Bool
  pub admission_chain : Bool
  pub event_bus : Bool
  pub on_resource_event : Option Bool

-- The database, the bus, and the registry that `get_registry` returns.
pub record World : Type 0 where
  pub db : Database
  pub bus : EventBus
  pub registry : Registry

-- The messages of `iter_errors`, or what it raises, come from the jsonschema package.
unfoldable pub validate_spec_against_schema :
    (Fields → Fields → Result (List String)) → Fields → Fields → Bool
validate_spec_against_schema iter_errors spec schema = elim (iter_errors schema spec) [
  | ok [] ↦ true
  | ok (e ∷ es) ↦ false
  | err e ↦ false
]

-- The callback reads `spec.resource_type_name` for its TRIGGER event, which a ResourceSpec
-- (src/plugins/base.py) does not have.
unfoldable pub on_resource_event : Bool → Result (Unit {0})
on_resource_event false = ok tt
on_resource_event true =
    err (attribute_error "'ResourceSpec' object has no attribute 'resource_type_name'")

abbrev pub notified : Option Bool → Result (Unit {0})
notified none = ok tt
notified (some event_bus) = on_resource_event event_bus

-- `except HTTPException: raise`, and any other exception is a 500.
abbrev pub as_http : (Error → String) → Error → Error
as_http text (http status detail) = http status detail
as_http text e = http 500 (text e)

-- `except AdmissionError`
abbrev pub denied : {A : Type 0} → Result A → Result A
denied (err (admission_error message)) = err (http 403 message)
denied r = r

-- The resource as it is read back and the callback called; the event is published where there is a bus.
unfoldable pub read_back : HttpInputPlugin → String → ℕ → Action World Resource
read_back plugin timestamp i w = elim (get_resource i w.db) [
  | none ↦ (err (type_error "'NoneType' object is not subscriptable"), w)
  | some updated ↦ elim (notified plugin.on_resource_event) [
    | err e ↦ (err e, w)
    | ok done ↦ (
      ok updated,
      record w {
        bus =
            if plugin.event_bus
            then publish (from_resource timestamp modified updated) w.bus
            else w.bus;
      },
    )
  ]
]

unfoldable pub write_update :
    HttpInputPlugin
    → (Fields → String)
    → String
    → ℕ
    → ℕ
    → Option Fields
    → Option Fields
    → Action World Resource
write_update plugin hash timestamp now i spec plugin_config w =
    let (answer, db) = update_resource hash now i spec plugin_config w.db in
    elim answer [
      | err e ↦ (err e, record w { db = db })
      | ok done ↦ read_back plugin timestamp i (record w { db = db })
    ]

abbrev pub answered : {A : Type 0} → (Error → String) → Result A × World → Result A × World
answered text (ok a, w) = (ok a, w)
answered text (err e, w) = (err (as_http text e), w)

module _ (endpoint : Webhook → AdmissionRequest → Option Values.Value)
    (iter_errors : Fields → Fields → Result (List String)) (plugin : HttpInputPlugin) where
  abbrev pub schema_allows : Resource → Fields → Database → Bool
  schema_allows current spec db =
      elim (get_resource_type_by_name_version current.resource_type_name
        current.resource_type_version db) [
          | none ↦ true
          | some t ↦ validate_spec_against_schema iter_errors spec t.schema
        ]

  abbrev pub update_request : Resource → Fields → AdmissionRequest
  update_request current spec = record {
    operation = "UPDATE";
    name = current.name;
    resource_type_name = current.resource_type_name;
    resource_type_version = current.resource_type_version;
    spec = spec;
    old_resource = some current;
  }

  abbrev pub admitted_spec : AdmissionRequest → Database → Result Fields
  admitted_spec request db =
      if plugin.admission_chain then denied (run endpoint db request) else ok request.spec

  -- A new spec is checked against the schema, and then goes through the webhooks.
  abbrev pub checked_spec : Resource → Option Fields → Database → Result (Option Fields)
  checked_spec current none db = ok none
  checked_spec current (some spec) db =
      if schema_allows current spec db
      then and_then (admitted_spec (update_request current spec) db) (λ s. ok (some s))
      else err (http 400 "Spec validation failed")

  -- All that is read before the write.
  unfoldable pub check_update : Claims → ℕ → Option Fields → Database → Result (Option Fields)
  check_update user i spec db =
      if plugin.db_manager
      then elim (get_resource i db) [
        | none ↦ err (http 404 "Resource not found")
        | some current ↦
            if check_resource_permission user db current.resource_type_name
              current.resource_type_version "UPDATE"
            then checked_spec current spec db
            else err (http 403 "Insufficient permissions")
      ]
      else err (http 503 "Database not available")

  unfoldable pub put_resource :
      (Error → String)
      → (Fields → String)
      → String
      → ℕ
      → Claims
      → ℕ
      → Option Fields
      → Option Fields
      → Action World Resource
  put_resource text hash timestamp now user i spec plugin_config w =
      elim (check_update user i spec w.db) [
        | err e ↦ (err (as_http text e), w)
        | ok spec' ↦ answered text (write_update plugin hash timestamp now i spec' plugin_config w)
      ]
