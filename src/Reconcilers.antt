-- ===== src/Reconcilers.antt =====
-- src/plugins/reconcilers/base.py: what the operator offers to a reconciler plugin (the context), and
-- the loop of `BaseReconciler`. The method `reconcile` belongs to the plugin and is a parameter.
pub mod Rounds
pub mod Deletion
pub mod Passes
mod Examples
use no8s_operator.Base.{
  ℕ, String, Bool, true, false, Option, none, some, List, [], ◌∷◌, ◌++◌, ◌==◌, string_eq,
  if◌then◌else◌,
}
use no8s_operator.Base.Result.{Error, Result, Action, ok, err, ◌>>◌, lift, ◌>>=◌, value_error}
use no8s_operator.Json.{Fields, end}
use no8s_operator.Db.Rows.{
  ResourceStatus, pending, reconciling, ready, failed, deleting, Resource, Database,
}
use no8s_operator.Db.Resources.{
  or_default, mark_resource_for_reconciliation, update_resource_outputs,
}
use no8s_operator.Db.Conditions
use no8s_operator.Db.Finalizers
use no8s_operator.Db.Queue
use no8s_operator.Db.Queue.{Report}
use no8s_operator.Plugins.{Plugin}
use no8s_operator.Plugins.Registry
use no8s_operator.Plugins.Registry.{Registry}

pub record ReconcileResult : Type 0 where
  pub success : Bool
  pub message : String
  pub requeue_after : Option ℕ

-- `ResourceStatus(status)`
unfoldable pub status_of : String → Result ResourceStatus
status_of s =
    if s == "pending"
    then ok pending
    else if s == "reconciling"
    then ok reconciling
    else if s == "ready"
    then ok ready
    else if s == "failed"
    then ok failed
    else if s == "deleting"
    then ok deleting
    else err (value_error "is not a valid ResourceStatus")

-- The methods of `ReconcilerContext`. The delays of a failure are the defaults of src/db.py.
unfoldable pub get_resources_needing_reconciliation : ℕ → List String → ℕ → Database → List Resource
get_resources_needing_reconciliation now resource_type_names limit db =
    Queue.get_resources_needing_reconciliation_by_type now resource_type_names limit db

unfoldable pub update_status : ℕ → ℕ → ℕ → String → String → Option ℕ → Action Database (Unit {0})
update_status now draw i status message observed_generation = lift (status_of status) >>= λ s.
    Queue.update_resource_status now draw i s (some message) observed_generation 60 3600

unfoldable pub set_condition :
    ℕ → ℕ → String → String → String → String → Option ℕ → Action Database (Unit {0})
set_condition now i condition_type status reason message observed_generation =
    Conditions.set_condition now i condition_type status reason message
      (or_default observed_generation 0)

unfoldable pub get_action_plugin : String → Action Registry Plugin
get_action_plugin name = Registry.get_action_plugin name end

-- `error_message=result.message if not result.success else None`
abbrev pub report : ReconcileResult → Option ℕ → Option String → Bool → Report
report result duration_seconds trigger_reason drift_detected = record {
  success = result.success;
  phase = if result.success then "completed" else "failed";
  plan_output = none;
  apply_output = none;
  error_message = if result.success then none else some result.message;
  resources_created = 0;
  resources_updated = 0;
  resources_deleted = 0;
  duration_seconds = duration_seconds;
  trigger_reason = trigger_reason;
  drift_detected = drift_detected;
}

abbrev pub requeue_if : ℕ → ℕ → Option ℕ → Action Database (Unit {0})
requeue_if now i none db = (ok tt, db)
requeue_if now i (some seconds) db = mark_resource_for_reconciliation now i seconds db

unfoldable pub record_reconciliation :
    ℕ → ℕ → ReconcileResult → Option ℕ → Option String → Bool → Action Database (Unit {0})
record_reconciliation now i result duration_seconds trigger_reason drift_detected =
    Queue.record_reconciliation now i (report result duration_seconds trigger_reason drift_detected)
    >> requeue_if now i result.requeue_after

unfoldable pub add_finalizer : ℕ → ℕ → String → Action Database (Unit {0})
add_finalizer now i f = Finalizers.add_finalizer now i f

unfoldable pub remove_finalizer : ℕ → ℕ → String → Action Database (Unit {0})
remove_finalizer now i f = Finalizers.remove_finalizer now i f

unfoldable pub get_finalizers : ℕ → Database → List String
get_finalizers i db = Finalizers.get_finalizers i db

unfoldable pub hard_delete_resource : ℕ → Action Database Bool
hard_delete_resource i = Finalizers.hard_delete_resource i

unfoldable pub update_outputs : ℕ → ℕ → Fields → Action Database (Unit {0})
update_outputs now i outputs = update_resource_outputs now i outputs

-- `except Exception as exc`
abbrev pub attempted : (Error → String) → Result ReconcileResult → ReconcileResult
attempted text (ok result) = result
attempted text (err e) = record { success = false; message = text e; requeue_after = none }

-- What a batch has recorded, what ended it early, and the tables.
pub record Batch : Type 0 where
  pub recorded : List (ℕ × ReconcileResult)
  pub error : Option Error
  pub db : Database

-- One pass of the `while`, seen from outside: whether the shutdown is signalled before it, the time,
-- the error of the query if it fails, whether the shutdown is signalled at the start of each round of
-- the `for`, and whether it ends the wait. `reconcile` is what the plugin's method does in this pass;
-- what others write while it runs is part of it.
pub record Pass : Type 0 where
  pub shutdown_before : Bool
  pub now : ℕ
  pub duration_seconds : ℕ
  pub query_error : Option Error
  pub shutdown_seen : List Bool
  pub shutdown_after : Bool
  pub reconcile : Resource → Action Database ReconcileResult

-- The rounds that are not listed see no shutdown.
abbrev pub seen : List Bool → Bool
seen [] = false
seen (b ∷ bs) = b

abbrev pub later : List Bool → List Bool
later [] = []
later (b ∷ bs) = bs

abbrev pub recorded_first : ℕ × ReconcileResult → Batch → Batch
recorded_first x b = record b { recorded = x ∷ b.recorded }

-- The rest of the `for` loop, by what `record_reconciliation` did; an exception ends the loop.
abbrev pub after_first :
    ℕ × ReconcileResult → Result (Unit {0}) × Database → (Database → Batch) → Batch
after_first x (err e, db) rest = record { recorded = []; error = some e; db = db }
after_first x (ok done, db) rest = recorded_first x (rest db)

module _ (text : Error → String) (p : Pass) where
  abbrev pub result_of : Resource → Database → ReconcileResult
  result_of r db = attempted text (p.reconcile r db).0

  abbrev pub record_of : Resource → Database → Result (Unit {0}) × Database
  record_of r db =
      record_reconciliation p.now r.id (result_of r db) (some p.duration_seconds) none false
        (p.reconcile r db).1

  -- The `for` loop, with its `break` at a shutdown.
  unfoldable pub reconcile_all : List Bool → List Resource → Database → Batch
  reconcile_all bs [] db = record { recorded = []; error = none; db = db }
  reconcile_all bs (r ∷ rs) db =
      if seen bs
      then record { recorded = []; error = none; db = db }
      else after_first (r.id, result_of r db) (record_of r db) (reconcile_all (later bs) rs)

  -- The default limit is 10.
  unfoldable pub reconcile_batch : List String → Database → Batch
  reconcile_batch resource_types db = elim p.query_error [
    | some e ↦ record { recorded = []; error = some e; db = db }
    | none ↦
        reconcile_all p.shutdown_seen
          (get_resources_needing_reconciliation p.now resource_types 10 db) db
  ]

-- What is recorded in all, whether the method has returned, and the tables.
abbrev pub Log : Type 0
Log = List (ℕ × ReconcileResult) × Bool × Database

-- The end of a pass, by the shutdown before it and in its wait.
abbrev pub after_pass : Bool → Bool → Database → Batch → Log → Log
after_pass true shutdown_after db b more = ([], true, db)
after_pass false true db b more = (b.recorded, true, b.db)
after_pass false false db b (recorded, ended, db') = (b.recorded ++ recorded, ended, db')

-- An error of a batch is logged, and the loop waits as after any other.
unfoldable pub start : (Error → String) → List String → List Pass → Database → Log
start text resource_types [] db = ([], false, db)
start text resource_types (p ∷ ps) db =
    let b = reconcile_batch text p resource_types db in
    after_pass p.shutdown_before p.shutdown_after db b (start text resource_types ps b.db)
