-- ===== src/Reconcilers/Examples.antt =====
-- The loop of src/plugins/reconcilers/base.py on two resources: `reconcile` fails, and `reconcile` deletes
-- as in docs/writing-a-reconciler.md.
use no8s_operator.Base.{
  ℕ, ◌≡◌, refl, String, true, false, ◌||◌, none, some, List, [], ◌∷◌, any, nat_eq, string_eq,
}
use no8s_operator.Base.Sort.{sort}
use no8s_operator.Base.Result.{Error, Action, err, ◌>>◌, pure, not_null_violation}
use no8s_operator.Json.{end}
use no8s_operator.Db.Rows.{deleting, status_eq, Resource, Database, empty}
use no8s_operator.Db.Resources.{row}
use no8s_operator.Db.Queue
use no8s_operator.Db.Queue.{needs_reconciliation, before}
use no8s_operator.Db.Finalizers
use no8s_operator.Db.Invariant.{IsValid, empty-IsValid}
use no8s_operator.Reconcilers.{
  ReconcileResult, Pass, record_reconciliation, remove_finalizer, hard_delete_resource,
  get_resources_needing_reconciliation, reconcile_all, reconcile_batch, start,
}
use no8s_operator.Reconcilers.Rounds.{ids, batch}
use no8s_operator.Reconcilers.Deletion.{deletion_ends_batch}
use no8s_operator.Reconcilers.Passes.{start_ends_and_keeps}

abbrev resource : ℕ → Resource
resource i = record {
  id = i;
  name = "db";
  resource_type_name = "Cluster";
  resource_type_version = "v1";
  action_plugin = "";
  spec = end;
  plugin_config = end;
  metadata = end;
  outputs = end;
  status = deleting;
  status_message = none;
  generation = 1;
  observed_generation = 1;
  spec_hash = "digest";
  retry_count = 0;
  last_reconcile_time = none;
  next_reconcile_time = none;
  conditions = [];
  finalizers = "db" ∷ [];
  created_at = 0;
  updated_at = 0;
  deleted_at = some 1;
}

abbrev db : Database
db = record empty { resources = resource 1 ∷ resource 2 ∷ []; next_resource_id = 3 }

abbrev text : Error → String
text e = "error"

abbrev crash : Resource → Action Database ReconcileResult
crash r db = (err (not_null_violation "x"), db)

abbrev done : ReconcileResult
done = record { success = true; message = ""; requeue_after = none }

abbrev destroy : Resource → Action Database ReconcileResult
destroy r = remove_finalizer 5 r.id "db" >> hard_delete_resource r.id >> pure done

abbrev pass : (Resource → Action Database ReconcileResult) → Pass
pass f = record {
  shutdown_before = false;
  now = 5;
  duration_seconds = 1;
  query_error = none;
  shutdown_seen = [];
  shutdown_after = true;
  reconcile = f;
}

abbrev types : List String
types = "Cluster" ∷ []

-- The resource whose `reconcile` raises does not keep the other from being recorded.
crash_test : ids (batch text (pass crash) types db).recorded ≡ 1 ∷ 2 ∷ []
unfolding reconcile_batch reconcile_all get_resources_needing_reconciliation record_reconciliation
    Queue.get_resources_needing_reconciliation_by_type needs_reconciliation before
    Queue.record_reconciliation sort nat_eq string_eq status_eq
crash_test = refl

deleted_test : row 1 (destroy (resource 1) db).1 ≡ none
unfolding remove_finalizer hard_delete_resource Finalizers.remove_finalizer
    Finalizers.hard_delete_resource nat_eq string_eq
deleted_test = refl

deletion_ends_batch_example :
    reconcile_all text (pass destroy) [] (resource 1 ∷ resource 2 ∷ []) db ≡ record {
      recorded = [];
      error = some (not_null_violation "generation");
      db = (destroy (resource 1) db).1;
    }
deletion_ends_batch_example =
    deletion_ends_batch text (pass destroy) [] (resource 1) (resource 2 ∷ []) db refl deleted_test

start_ends_and_keeps_example :
    ((start text types (pass crash ∷ []) empty).1
      ≡ any (λ p. p.shutdown_before || p.shutdown_after) (pass crash ∷ []))
    × IsValid (start text types (pass crash ∷ []) empty).2
start_ends_and_keeps_example =
    start_ends_and_keeps text types (pass crash ∷ []) empty ((λ r db v. v), tt) empty-IsValid
