-- ===== src/Db/Calls.antt =====
-- Every method of src/db.py that writes the tables `resources` and `reconciliation_history`, as a
-- call with its arguments. A list of calls is one interleaving of what the API, the controller and
-- the reconcilers, on any number of instances, send to the database.
use no8s_operator.Base.{ℕ, String, Option, List, [], ◌∷◌}
use no8s_operator.Json.{Fields}
use no8s_operator.Db.Rows.{ResourceStatus, Database}
use no8s_operator.Db.Resources.{
  create_resource, update_resource, delete_resource, mark_resource_for_reconciliation,
  update_resource_outputs,
}
use no8s_operator.Db.Finalizers.{hard_delete_resource, add_finalizer, remove_finalizer}
use no8s_operator.Db.Conditions.{set_condition}
use no8s_operator.Db.Queue.{
  Report, update_resource_status, requeue_failed_resources, record_reconciliation,
}

pub data Call : Type 0 where
  create :
      (name type_name type_version action_plugin : String)
      (spec plugin_config metadata : Option Fields) (finalizers : Option (List String))
      → Call
  update : (id : ℕ) (spec plugin_config : Option Fields) → Call
  delete : (id : ℕ) → Call
  mark : (id delay_seconds : ℕ) → Call
  outputs : (id : ℕ) (values : Fields) → Call
  hard_delete : (id : ℕ) → Call
  protect release : (id : ℕ) (finalizer : String) → Call
  condition : (id : ℕ) (type status reason message : String) (observed_generation : ℕ) → Call
  update_status :
      (draw id : ℕ) (status : ResourceStatus) (message : Option String)
      (observed_generation : Option ℕ) (base_delay max_delay : ℕ)
      → Call
  requeue : (draw : ℕ → ℕ) (base_delay max_delay percent : ℕ) → Call
  record_history : (id : ℕ) (report : Report) → Call

module _ (calculate_spec_hash : Fields → String) where
  -- The tables after the call, whether it returned or raised.
  unfoldable pub execute : ℕ → Call → Database → Database
  execute now (create n t v p s c m f) db =
      (create_resource calculate_spec_hash now n t v p s c m f db).1
  execute now (update i s c) db = (update_resource calculate_spec_hash now i s c db).1
  execute now (delete i) db = (delete_resource now i db).1
  execute now (mark i d) db = (mark_resource_for_reconciliation now i d db).1
  execute now (outputs i o) db = (update_resource_outputs now i o db).1
  execute now (hard_delete i) db = (hard_delete_resource i db).1
  execute now (protect i f) db = (add_finalizer now i f db).1
  execute now (release i f) db = (remove_finalizer now i f db).1
  execute now (condition i t s r m g) db = (set_condition now i t s r m g db).1
  execute now (update_status d i s m g b x) db = (update_resource_status now d i s m g b x db).1
  execute now (requeue d b x p) db = (requeue_failed_resources now d b x p db).1
  execute now (record_history i r) db = (record_reconciliation now i r db).1

  -- Each call comes with the time at which the database runs it.
  unfoldable pub execute_all : List (ℕ × Call) → Database → Database
  execute_all [] db = db
  execute_all ((now, c) ∷ calls) db = execute_all calls (execute now c db)
