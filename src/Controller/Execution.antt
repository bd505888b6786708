-- ===== src/Controller/Execution.antt =====
-- `_execute_reconciliation` of src/controller.py: the phases of one reconciliation.
use no8s_operator.Base.{ℕ, String, true, false, not, none, some, ◌==◌, if◌then◌else◌, string_eq}
use no8s_operator.Base.Result.{Error, Action, ok, err, pure}
use no8s_operator.Json.{Fields, end, field}
use no8s_operator.Db.Rows.{deleting, status_eq, Resource}
use no8s_operator.Db.Resources.{update_resource_outputs}
use no8s_operator.Plugins.{ActionResult, ActionContext, Plugin}
use no8s_operator.Controller.{
  ReconciliationResult, prepares, plans, applies, destroys, cleans, World, on_db, call, or_text,
}

-- `ReconciliationResult()`
abbrev pub initial : ReconciliationResult
initial = record {
  success = false;
  phase = "pending";
  plan_output = "";
  apply_output = "";
  error_message = none;
  resources_created = 0;
  resources_updated = 0;
  resources_deleted = 0;
  has_changes = false;
}

-- An empty `outputs` is not written.
abbrev pub save_outputs : ℕ → ActionContext → Fields → Action World (Unit {0})
save_outputs now ctx end = pure tt
save_outputs now ctx (field k v d) =
    on_db (update_resource_outputs now ctx.resource_id (field k v d))

module _ (str : Error → String) (now : ℕ) where
  -- The `except` clause of `_execute_reconciliation`, which keeps what was recorded before.
  abbrev pub failed_by : Error → ReconciliationResult → ReconciliationResult
  failed_by e result = record result {
    success = false;
    error_message = some (str e);
    phase = "failed";
  }

  -- The body up to its end, where a raise leads to the `except` clause.
  abbrev pub or_fail :
      {A : Type 0}
      → ReconciliationResult
      → Action World A
      → (A → World → ReconciliationResult × World)
      → World
      → ReconciliationResult × World
  or_fail result m k w =
      let (r, w') = m w in elim r [ ok a ↦ k a w' | err e ↦ (failed_by e result, w') ]

  -- What follows the answer of `plugin.apply`.
  abbrev pub applied :
      ActionContext → ReconciliationResult → ActionResult → World → ReconciliationResult × World
  applied ctx result apply_result =
      let result' = record result {
        phase = "applying";
        apply_output = apply_result.apply_output;
        resources_created = apply_result.resources_created;
        resources_updated = apply_result.resources_updated;
        resources_deleted = apply_result.resources_deleted;
      } in
      if apply_result.success
      then or_fail result' (save_outputs now ctx apply_result.outputs)
          (λ done w. (record result' { success = true; phase = "completed" }, w))
      else λ w. (
        record result' {
          success = false;
          error_message = some (or_text apply_result.error_message "Apply failed");
          phase = "failed";
        },
        w,
      )

  abbrev pub destroyed : ReconciliationResult → ActionResult → World → ReconciliationResult × World
  destroyed result destroy_result w = (
    record result {
      apply_output = destroy_result.apply_output;
      success = destroy_result.success;
      error_message = destroy_result.error_message;
      resources_deleted = destroy_result.resources_deleted;
      phase = if destroy_result.success then "completed" else "failed";
    },
    w,
  )

  abbrev pub plan_recorded : ActionResult → ReconciliationResult
  plan_recorded plan_result = record initial {
    phase = "planning";
    plan_output = plan_result.plan_output;
    has_changes = plan_result.has_changes;
  }

  -- What follows the answer of `plugin.plan`: nothing, the destruction, or phase 3.
  unfoldable pub planned :
      Plugin
      → ActionContext
      → Resource
      → String
      → ActionResult
      → World
      → ReconciliationResult × World
  planned plugin ctx resource workspace plan_result =
      let result = plan_recorded plan_result in
      if not plan_result.success
      then (λ w. (
        record result {
          success = false;
          error_message = some (or_text plan_result.error_message "Plan failed");
          phase = "failed";
        },
        w,
      ))
      else if resource.status == deleting
      then or_fail (record result { phase = "destroying" })
          (call destroys (plugin.destroy ctx workspace))
          (destroyed (record result { phase = "destroying" }))
      else if not plan_result.has_changes
      then (λ w. (record result { success = true; phase = "completed" }, w))
      else or_fail (record result { phase = "applying" })
          (call applies (plugin.apply_changes ctx workspace)) (applied ctx result)

  -- The `finally` clause: an error of the cleanup is dropped.
  abbrev pub cleaned_up :
      Plugin
      → String
      → (World → ReconciliationResult × World)
      → World
      → ReconciliationResult × World
  cleaned_up plugin workspace m w =
      let (result, w') = m w in (result, (call cleans (plugin.cleanup workspace) w').1)

  abbrev pub plan_and_change :
      Plugin → ActionContext → Resource → String → World → ReconciliationResult × World
  plan_and_change plugin ctx resource workspace =
      or_fail (record initial { phase = "planning" }) (call plans (plugin.plan ctx workspace))
        (planned plugin ctx resource workspace)

  unfoldable pub execute_reconciliation :
      Plugin → ActionContext → Resource → World → ReconciliationResult × World
  execute_reconciliation plugin ctx resource =
      or_fail (record initial { phase = "initializing" }) (call prepares (plugin.prepare ctx))
        (λ workspace. cleaned_up plugin workspace (plan_and_change plugin ctx resource workspace))
