-- ===== src/Controller/Reconcile.antt =====
-- `_reconcile_resource` of src/controller.py.
use no8s_operator.Base.{
  ℕ, String, Bool, true, false, ◌&&◌, none, some, List, [], ◌∷◌, ◌++◌, ◌==◌, if◌then◌else◌,
  string_eq,
}
use Prim.Native.String.{◌++◌ as push_str}
use no8s_operator.Base.Result.{Error, Result, Action, ok, err, pure, gets, ◌>>=◌, ◌>>◌}
use no8s_operator.Db.Rows.{reconciling, ready, failed, deleting, status_eq, Resource}
use no8s_operator.Db.Resources.{get_resource, mark_resource_for_reconciliation}
use no8s_operator.Db.Finalizers.{remove_finalizer, get_finalizers, hard_delete_resource}
use no8s_operator.Db.Conditions.{set_condition}
use no8s_operator.Db.Queue.{Report, update_resource_status, record_reconciliation}
use no8s_operator.Plugins.{ActionContext, Plugin}
use no8s_operator.Controller.{
  Controller, ControllerConfig, ReconciliationResult, World, on_db, or_text, get_plugin,
  determine_trigger_reason,
}
use no8s_operator.Controller.Execution.{execute_reconciliation}

-- When a reconciliation begins and when it ends, in database time and by its own clock, and the draws
-- of its two possible backoffs.
pub record Run : Type 0 where
  pub began : ℕ
  pub ended : ℕ
  pub duration_seconds : ℕ
  pub draw : ℕ
  pub draw_on_error : ℕ

abbrev pub condition : ℕ → Resource → String → String → String → String → Action World (Unit {0})
condition now r type status reason message =
    on_db (set_condition now r.id type status reason message r.generation)

abbrev pub begin : ℕ → Resource → Action World (Unit {0})
begin now r =
    on_db
      (update_resource_status now 0 r.id reconciling (some "Starting reconciliation") none 60 3600)
    >> condition now r "Reconciling" "True" "ReconcileStarted" "Reconciliation has started"
    >> condition now r "Ready" "Unknown" "ReconcileStarted" "Reconciliation in progress"

abbrev pub context : Resource → ActionContext
context r = record {
  resource_id = r.id;
  resource_name = r.name;
  generation = r.generation;
  spec = r.spec;
  spec_hash = r.spec_hash;
  plugin_config = r.plugin_config;
}

-- The four statements of a failure, which the code has twice.
unfoldable pub fail : ControllerConfig → ℕ → ℕ → Resource → String → Action World (Unit {0})
fail c now draw r error_msg =
    on_db (
      update_resource_status now draw r.id failed (some error_msg) none c.backoff_base_delay
        c.backoff_max_delay)
    >> condition now r "Ready" "False" "ReconcileFailed" error_msg
    >> condition now r "Reconciling" "False" "ReconcileFailed" ""
    >> condition now r "Degraded" "True" "ReconcileFailed" error_msg

abbrev pub hard_delete_if_free : Resource → List String → Action World (Unit {0})
hard_delete_if_free r [] = on_db (hard_delete_resource r.id) >> pure tt
hard_delete_if_free r (f ∷ fs) = pure tt

-- The branch of a resource that was selected as deleting.
unfoldable pub finish_deletion : ℕ → Resource → Action World (Unit {0})
finish_deletion now r =
    condition now r "Reconciling" "False" "Deleting" "Resource is being deleted"
    >> condition now r "Ready" "Unknown" "Deleting" "Resource is being deleted"
    >> on_db (remove_finalizer now r.id r.action_plugin)
    >> on_db (gets (get_finalizers r.id))
    >>= λ remaining. hard_delete_if_free r remaining

unfoldable pub publish_reconciled : Bool → Resource → Action World (Unit {0})
publish_reconciled false r w = (ok tt, w)
publish_reconciled true r w = elim (get_resource r.id w.db) [
  | none ↦ (ok tt, w)
  | some updated ↦ (ok tt, record w { reconciled = w.reconciled ++ updated ∷ [] })
]

unfoldable pub finish_success : Bool → ℕ → Resource → Action World (Unit {0})
finish_success event_bus now r =
    on_db (
      update_resource_status now 0 r.id ready (some "Reconciliation successful") (some r.generation)
        60 3600)
    >> condition now r "Ready" "True" "ReconcileSuccess" "Resource reconciled successfully"
    >> condition now r "Reconciling" "False" "ReconcileComplete" "Reconciliation completed"
    >> condition now r "Degraded" "False" "NoErrors" ""
    >> publish_reconciled event_bus r

unfoldable pub finish : Controller → Run → Resource → ReconciliationResult → Action World (Unit {0})
finish c run r result =
    if result.success
    then (if r.status == deleting
        then finish_deletion run.ended r
        else finish_success c.event_bus run.ended r)
    else fail c.config run.ended run.draw r (or_text result.error_message "Reconciliation failed")

-- Changes found by a scheduled reconciliation are drift.
abbrev pub report : Run → Resource → ReconciliationResult → Report
report run r result = record {
  success = result.success;
  phase = result.phase;
  plan_output = some result.plan_output;
  apply_output = some result.apply_output;
  error_message = result.error_message;
  resources_created = result.resources_created;
  resources_updated = result.resources_updated;
  resources_deleted = result.resources_deleted;
  duration_seconds = some run.duration_seconds;
  trigger_reason = some (determine_trigger_reason r);
  drift_detected = determine_trigger_reason r == "scheduled" && result.has_changes;
}

-- The last statements of the `try`: the outcome and its record.
abbrev pub conclude : Controller → Run → Resource → ReconciliationResult → Action World (Unit {0})
conclude c run r result =
    finish c run r result >> on_db (record_reconciliation run.ended r.id (report run r result))

abbrev pub find_plugin : Controller → Run → Resource → Action World Plugin
find_plugin c run r = begin run.began r >> get_plugin c.config r.action_plugin r.plugin_config

module _ (str : Error → String) where
  abbrev pub perform : Controller → Run → Resource → Plugin → Action World (Unit {0})
  perform c run r plugin w =
      let (result, w') = execute_reconciliation str run.ended plugin (context r) r w in
      conclude c run r result w'

  -- The body of the `try`.
  unfoldable pub try_reconcile : Controller → Run → Resource → Action World (Unit {0})
  try_reconcile c run r = find_plugin c run r >>= perform c run r

  -- The `except` clause: the statements of a failure, whatever was written before it.
  abbrev pub handled : Controller → Run → Resource → Result (Unit {0}) × World → World
  handled c run r (ok done, w) = w
  handled c run r (err e, w) =
      (fail c.config run.ended run.draw_on_error r (push_str "Reconciliation error: " (str e)) w).1

  unfoldable pub reconcile_resource : Controller → Run → Resource → World → World
  reconcile_resource c run r w = handled c run r (try_reconcile c run r w)

unfoldable pub trigger_reconciliation : ℕ → ℕ → Action World (Unit {0})
trigger_reconciliation now i = on_db (mark_resource_for_reconciliation now i 0)
