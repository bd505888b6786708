-- ===== src/Controller/Examples.antt =====
-- The theorems on src/controller.py for one plugin and one resource.
use no8s_operator.Base.{
  false, String, ◌≡◌, refl, true, none, some, List, [], ◌∷◌, ◌++◌, string_eq, nat_eq,
}
use no8s_operator.Base.Result.{Error, ok, err, pure, external, not_null_violation}
use no8s_operator.Json
use no8s_operator.Db.Rows.{ready, failed, deleting, status_eq, Resource, empty}
use native.Mathlib.Decide.{ℕ_discrete}
use no8s_operator.Controller.Passes.{reconciliation_pass}
use no8s_operator.Base.Assoc.{lookup, insert}
use no8s_operator.Db.Resources.{row, or_default, get_resource, update_resource_outputs}
use no8s_operator.Db.Conditions.{last_transition, with_condition, conditioned, set_condition}
use no8s_operator.Db.Finalizers.{remove_finalizer, get_finalizers, hard_delete_resource}
use no8s_operator.Db.Queue.{
  backoff_seconds, jittered, update_resource_status, record_reconciliation,
}
use no8s_operator.Plugins.{ActionResult, Plugin}
use no8s_operator.Plugins.Registry.{Registry, empty_registry, get_action_plugin}
use no8s_operator.Controller.{
  Controller, World, PluginCall, prepares, plans, applies, cleans, get_plugin,
  determine_trigger_reason,
}
use no8s_operator.Controller.Loops.{Pass, returned, crashed, restart_delay, run_reconciler}
use no8s_operator.Controller.Execution.{planned, execute_reconciliation}
use no8s_operator.Controller.Protocol.{Protocol, execute_reconciliation-Protocol}
use no8s_operator.Controller.Reconcile.{
  Run, context, fail, finish_deletion, finish_success, publish_reconciled, finish, try_reconcile,
  reconcile_resource,
}
use no8s_operator.Controller.Verdict.{
  Verdict, Recorded, reconcile_resource-Verdict, returned-Recorded,
}

abbrev text_of : Error → String
text_of e = "error"

abbrev changed : ActionResult
changed = record {
  success = true;
  phase = "completed";
  plan_output = "1 to add";
  apply_output = "1 added";
  error_message = none;
  resources_created = 1;
  resources_updated = 0;
  resources_deleted = 0;
  outputs = Json.field "ip" (Json.str "10.0.0.1") Json.end;
  has_changes = true;
}

-- Its cleanup raises, which the controller drops.
abbrev plugin : Plugin
plugin = record {
  prepare = λ ctx. pure "workspace";
  plan = λ ctx workspace. pure changed;
  apply_changes = λ ctx workspace. pure changed;
  destroy = λ ctx workspace. pure changed;
  cleanup = λ workspace db. (err (external "busy"), db);
}

abbrev registry : Registry
registry = record empty_registry { action_plugins = ("github_actions", λ config. ok plugin) ∷ [] }

abbrev resource : Resource
resource = record {
  id = 1;
  name = "db";
  resource_type_name = "Cluster";
  resource_type_version = "v1";
  action_plugin = "github_actions";
  spec = Json.end;
  plugin_config = Json.end;
  metadata = Json.end;
  outputs = Json.end;
  status = failed;
  status_message = none;
  generation = 2;
  observed_generation = 1;
  spec_hash = "digest";
  retry_count = 1;
  last_reconcile_time = none;
  next_reconcile_time = some 0;
  conditions = [];
  finalizers = "github_actions" ∷ [];
  created_at = 0;
  updated_at = 0;
  deleted_at = none;
}

abbrev doomed : Resource
doomed = record resource { status = deleting; deleted_at = some 5 }

abbrev world : Resource → World
world r = record {
  db = record empty { resources = r ∷ []; next_resource_id = 2 };
  registry = registry;
  action_plugins = [];
  reconciled = [];
  calls = [];
}

abbrev controller : Controller
controller = record {
  config = record {
    plugin_configs = [];
    backoff_base_delay = 60;
    backoff_max_delay = 3600;
    reconciler_restart_base_delay = 5;
    reconciler_restart_max_delay = 300;
  };
  event_bus = true;
}

abbrev run : Run
run = record { began = 10; ended = 20; duration_seconds = 0; draw = 0; draw_on_error = 0 }

applied_test :
    (execute_reconciliation text_of 20 plugin (context resource) resource (world resource)).1.calls
    ≡ prepares ∷ plans ∷ applies ∷ cleans ∷ []
unfolding execute_reconciliation planned status_eq update_resource_outputs
applied_test = refl

execute_reconciliation-Protocol_example :
    let (result, w) =
      execute_reconciliation text_of 20 plugin (context resource) resource (world resource) in
    (cs : List PluginCall) × Protocol failed result.success result.has_changes cs
    × (w.calls ≡ [] ++ cs)
execute_reconciliation-Protocol_example =
    execute_reconciliation-Protocol text_of 20 plugin (context resource) resource (world resource)

abbrev reconciled : Resource
reconciled = record resource {
  status = ready;
  status_message = some "Reconciliation successful";
  outputs = changed.outputs;
  observed_generation = 2;
  retry_count = 0;
  last_reconcile_time = some 20;
  next_reconcile_time = some 300_000_020;
  updated_at = 20;
  conditions =
      record {
        type = "Ready";
        status = "True";
        reason = "ReconcileSuccess";
        message = "Resource reconciled successfully";
        last_transition_time = 20;
        observed_generation = 2;
      }
      ∷ record {
        type = "Reconciling";
        status = "False";
        reason = "ReconcileComplete";
        message = "Reconciliation completed";
        last_transition_time = 20;
        observed_generation = 2;
      }
      ∷ record {
        type = "Degraded";
        status = "False";
        reason = "NoErrors";
        message = "";
        last_transition_time = 20;
        observed_generation = 2;
      }
      ∷ [];
}

reconciled_test :
    row 1 (reconcile_resource text_of controller run resource (world resource)).db ≡ some reconciled
unfolding reconcile_resource try_reconcile update_resource_status set_condition get_plugin lookup
    get_action_plugin string_eq finish execute_reconciliation planned status_eq
    update_resource_outputs finish_success publish_reconciled get_resource conditioned ℕ_discrete
    insert nat_eq fail finish_deletion determine_trigger_reason last_transition with_condition
    get_finalizers hard_delete_resource remove_finalizer backoff_seconds jittered
    record_reconciliation Json.set
reconciled_test = refl

reconcile_resource-Verdict_example : Verdict resource reconciled
reconcile_resource-Verdict_example =
    reconcile_resource-Verdict text_of controller run resource (world resource) reconciled
      reconciled_test

abbrev end_of : Resource → World
end_of r = (try_reconcile text_of controller run r (world r)).1

returned_test :
    try_reconcile text_of controller run resource (world resource) ≡ (ok tt, end_of resource)
unfolding try_reconcile update_resource_status set_condition get_plugin lookup get_action_plugin
    string_eq finish execute_reconciliation planned status_eq update_resource_outputs finish_success
    publish_reconciled get_resource conditioned ℕ_discrete insert nat_eq fail finish_deletion
    determine_trigger_reason last_transition with_condition get_finalizers hard_delete_resource
    remove_finalizer backoff_seconds jittered record_reconciliation Json.set
returned_test = refl

returned-Recorded_example : Recorded run resource (end_of resource).db
returned-Recorded_example =
    returned-Recorded text_of controller run resource (world resource) (end_of resource)
      returned_test

-- The record of a completed deletion is refused.
deleted_test :
    (try_reconcile text_of controller run doomed (world doomed)).0
    ≡ err (not_null_violation "generation")
unfolding try_reconcile update_resource_status set_condition get_plugin lookup get_action_plugin
    string_eq finish execute_reconciliation planned status_eq update_resource_outputs finish_success
    publish_reconciled get_resource conditioned ℕ_discrete insert nat_eq fail finish_deletion
    determine_trigger_reason last_transition with_condition get_finalizers hard_delete_resource
    remove_finalizer backoff_seconds jittered record_reconciliation Json.set
deleted_test = refl

deleted_row_test : row 1 (end_of doomed).db ≡ none
unfolding try_reconcile update_resource_status set_condition get_plugin lookup get_action_plugin
    string_eq finish execute_reconciliation planned status_eq update_resource_outputs finish_success
    publish_reconciled get_resource conditioned ℕ_discrete insert nat_eq fail finish_deletion
    determine_trigger_reason last_transition with_condition get_finalizers hard_delete_resource
    remove_finalizer backoff_seconds jittered record_reconciliation Json.set
deleted_row_test = refl

-- It crashes, is restarted, and returns.
abbrev passes : List Pass
passes = crashed false false ∷ returned ∷ []

restart_test : run_reconciler controller.config 0 passes ≡ (5 ∷ [], true)
unfolding run_reconciler restart_delay
restart_test = refl

-- A resource of a reconciler plugin.
abbrev unclaimed : Resource
unclaimed = record resource { action_plugin = "" }

-- A pass in which it alone is due, for the loop selects it as any other.
abbrev pass_end : World
pass_end = reconciliation_pass text_of controller (λ r. run) (λ rs. rs) 5 none 10 (world unclaimed)

abbrev failed_row : Resource
failed_row = or_default (row 1 pass_end.db) unclaimed
