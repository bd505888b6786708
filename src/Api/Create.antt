-- ===== src/Api/Create.antt =====
-- src/plugins/inputs/http/api.py: the handler of POST /api/v1/resources, with `validate_action_plugin`
-- of src/plugins/inputs/base.py.
use no8s_operator.Base.{
  ℕ, String, Option, none, some, List, [], ◌∷◌, ◌==◌, string_eq, if◌then◌else◌,
}
use no8s_operator.Base.Result.{
  Error, Result, Action, ok, err, and_then, http, type_error, attribute_error,
}
use no8s_operator.Json as Values
use no8s_operator.Json.{Fields}
use no8s_operator.Db.Rows.{Resource, Webhook, Database}
use no8s_operator.Db.Resources.{get_resource, create_resource}
use no8s_operator.Db.ResourceTypes.{get_resource_type_by_name_version}
use no8s_operator.Admission.{AdmissionRequest}
use no8s_operator.Auth.{Claims, check_resource_permission}
use no8s_operator.Events.{created, from_resource, publish}
use no8s_operator.Plugins.Registry.{
  Registry, ReconcilerClass, has_action_plugin, has_reconciler_for_resource_type,
  get_reconciler_for_resource_type,
}
use no8s_operator.Api.{
  HttpInputPlugin, World, validate_spec_against_schema, notified, as_http, admitted_spec, answered,
}

pub record ResourceCreate : Type 0 where
  pub name : String
  pub resource_type_name : String
  pub resource_type_version : String
  pub action_plugin : Option String
  pub spec : Option Fields
  pub plugin_config : Option Fields
  pub metadata : Option Fields

-- `resource.action_plugin or ""`
abbrev pub action_or_empty : Option String → String
action_or_empty none = ""
action_or_empty (some p) = p

-- Either the action plugin that is named is there, or a reconciler claims the type.
unfoldable pub check_handler : ResourceCreate → Registry → Result (Unit {0})
check_handler resource g =
    if action_or_empty resource.action_plugin == ""
    then (if has_reconciler_for_resource_type resource.resource_type_name g
        then ok tt
        else err (http 400 "No reconciler plugin registered"))
    else if has_action_plugin (action_or_empty resource.action_plugin) g
    then ok tt
    else err (http 400 "Unknown action plugin")

-- `reconciler.name`
abbrev pub reconciler_name :
    Result (Option ReconcilerClass) × Registry → Result (List String) × Registry
reconciler_name (ok (some c), g) = (ok (c.name ∷ []), g)
reconciler_name (ok none, g) =
    (err (attribute_error "'NoneType' object has no attribute 'name'"), g)
reconciler_name (err e, g) = (err e, g)

unfoldable pub build_finalizers : ResourceCreate → Action Registry (List String)
build_finalizers resource g =
    if action_or_empty resource.action_plugin == ""
    then (if has_reconciler_for_resource_type resource.resource_type_name g
        then reconciler_name (get_reconciler_for_resource_type resource.resource_type_name g)
        else (ok [], g))
    else (ok (action_or_empty resource.action_plugin ∷ []), g)

-- The callback comes before the row is read back, the event after it.
unfoldable pub announce : HttpInputPlugin → String → ℕ → Action World Resource
announce plugin timestamp i w = elim (notified plugin.on_resource_event) [
  | err e ↦ (err e, w)
  | ok done ↦ elim (get_resource i w.db) [
    | none ↦ (err (type_error "argument after ** must be a mapping, not NoneType"), w)
    | some r ↦ (
      ok r,
      record w {
        bus = if plugin.event_bus then publish (from_resource timestamp created r) w.bus else w.bus;
      },
    )
  ]
]

module _ (plugin : HttpInputPlugin) (hash : Fields → String) (timestamp : String) (now : ℕ)
    (resource : ResourceCreate) (spec : Fields) where
  abbrev pub insert_with : List String → World → Result ℕ × Database
  insert_with finalizers w =
      create_resource hash now resource.name resource.resource_type_name
        resource.resource_type_version (action_or_empty resource.action_plugin) (some spec)
        resource.plugin_config resource.metadata (some finalizers) w.db

  abbrev pub announced : Result ℕ × Database → World → Result Resource × World
  announced (err e, db) w = (err e, record w { db = db })
  announced (ok i, db) w = announce plugin timestamp i (record w { db = db })

  abbrev pub inserted : Result (List String) × Registry → World → Result Resource × World
  inserted (err e, g) w = (err e, record w { registry = g })
  inserted (ok finalizers, g) w = announced (insert_with finalizers w) (record w { registry = g })

  -- All that follows the checks.
  unfoldable pub write_create : Action World Resource
  write_create w = inserted (build_finalizers resource w.registry) w

module _ (endpoint : Webhook → AdmissionRequest → Option Values.Value)
    (iter_errors : Fields → Fields → Result (List String)) (plugin : HttpInputPlugin) where
  abbrev pub create_request : ResourceCreate → Fields → AdmissionRequest
  create_request resource spec = record {
    operation = "CREATE";
    name = resource.name;
    resource_type_name = resource.resource_type_name;
    resource_type_version = resource.resource_type_version;
    spec = spec;
    old_resource = none;
  }

  -- A dict that is empty is refused as one that is missing.
  abbrev pub checked_new : ResourceCreate → Option Fields → Database → Result Fields
  checked_new resource none db = err (http 400 "spec is required")
  checked_new resource (some Values.end) db = err (http 400 "spec is required")
  checked_new resource (some (Values.field k v fs)) db =
      elim (get_resource_type_by_name_version resource.resource_type_name
        resource.resource_type_version db) [
          | none ↦ err (http 400 "Resource type not found")
          | some t ↦
              if validate_spec_against_schema iter_errors (Values.field k v fs) t.schema
              then admitted_spec endpoint iter_errors plugin
                  (create_request resource (Values.field k v fs)) db
              else err (http 400 "Spec validation failed")
        ]

  unfoldable pub check_create : Claims → ResourceCreate → Registry → Database → Result Fields
  check_create user resource g db =
      if plugin.db_manager
      then (if check_resource_permission user db resource.resource_type_name
            resource.resource_type_version "CREATE"
          then and_then (check_handler resource g) (λ _. checked_new resource resource.spec db)
          else err (http 403 "Insufficient permissions"))
      else err (http 503 "Database not available")

  unfoldable pub post_resource :
      (Error → String)
      → (Fields → String)
      → String
      → ℕ
      → Claims
      → ResourceCreate
      → Action World Resource
  post_resource text hash timestamp now user resource w =
      elim (check_create user resource w.registry w.db) [
        | err e ↦ (err (as_http text e), w)
        | ok spec ↦ answered text (write_create plugin hash timestamp now resource spec w)
      ]
