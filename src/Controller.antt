-- ===== src/Controller.antt =====
-- src/controller.py: one reconciliation of one resource, from the row that the loop selected to the
-- statuses, conditions and history that it leaves.
pub mod Loops
pub mod Execution
pub mod Protocol
pub mod Conditions
pub mod Outcomes
pub mod Deletion
pub mod Verdict
pub mod Passes
mod Examples
pub mod Reconcile
use no8s_operator.Base.{
  ℕ, String, Bool, Option, none, some, List, [], ◌∷◌, ◌++◌, ◌==◌, if◌then◌else◌, string_eq, ltb,
}
use no8s_operator.Base.Assoc.{Dict, lookup, insert}
use no8s_operator.Base.Result.{Action, ok, err}
use no8s_operator.Json.{Fields, end, field, set}
use no8s_operator.Db.Rows.{failed, deleting, status_eq, Resource, Database}
use no8s_operator.Db.Resources.{is_none}
use no8s_operator.Plugins.{Plugin}
use no8s_operator.Plugins.Registry.{Registry, get_action_plugin}

-- The settings that a reconciliation and the restart of a reconciler read.
pub record ControllerConfig : Type 0 where
  pub plugin_configs : Dict String Fields
  pub backoff_base_delay : ℕ
  pub backoff_max_delay : ℕ
  pub reconciler_restart_base_delay : ℕ
  pub reconciler_restart_max_delay : ℕ

-- `event_bus` tells whether the controller was given one.
pub record Controller : Type 0 where
  pub config : ControllerConfig
  pub event_bus : Bool

pub record ReconciliationResult : Type 0 where
  pub success : Bool
  pub phase : String
  pub plan_output : String
  pub apply_output : String
  pub error_message : Option String
  pub resources_created : ℕ
  pub resources_updated : ℕ
  pub resources_deleted : ℕ
  pub has_changes : Bool

-- The calls of a plugin's methods, in order.
pub data PluginCall : Type 0 where
  prepares plans applies destroys cleans : PluginCall

-- What a reconciliation reads and writes. `action_plugins` is `_action_plugins`; `reconciled` holds
-- the resources of the RECONCILED events published; `calls` is kept for the proofs.
pub record World : Type 0 where
  pub db : Database
  pub registry : Registry
  pub action_plugins : Dict String Plugin
  pub reconciled : List Resource
  pub calls : List PluginCall

abbrev pub on_db : {A : Type 0} → Action Database A → Action World A
on_db m w = let (r, db) = m w.db in (r, record w { db = db })

abbrev pub call : {A : Type 0} → PluginCall → Action Database A → Action World A
call c m w = on_db m (record w { calls = w.calls ++ c ∷ [] })

-- `message or default`
abbrev pub or_text : Option String → String → String
or_text none default = default
or_text (some m) default = if m == "" then default else m

-- `config.update(other)`
abbrev update_fields : Fields → Fields → Fields
update_fields d end = d
update_fields d (field k v e) = update_fields (set k v d) e

abbrev config_of : Option Fields → Fields
config_of none = end
config_of (some d) = d

-- The instance kept is found by the name alone.
unfoldable pub get_plugin : ControllerConfig → String → Fields → Action World Plugin
get_plugin c name config w = elim (lookup name w.action_plugins) [
  | some plugin ↦ (ok plugin, w)
  | none ↦
      let merged = update_fields (config_of (lookup name c.plugin_configs)) config in
      let (r, registry) = get_action_plugin name merged w.registry in
      elim r [
        | err e ↦ (err e, record w { registry = registry })
        | ok plugin ↦ (
          ok plugin,
          record w { registry = registry; action_plugins = insert name plugin w.action_plugins },
        )
      ]
]

unfoldable pub determine_trigger_reason : Resource → String
determine_trigger_reason r =
    if is_none r.last_reconcile_time
    then "initial"
    else if ltb r.observed_generation r.generation
    then "spec_change"
    else if r.status == deleting
    then "deletion"
    else if r.status == failed
    then "retry"
    else "scheduled"
