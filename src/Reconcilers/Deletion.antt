-- ===== src/Reconcilers/Deletion.antt =====
-- A batch of src/plugins/reconcilers/base.py in which `reconcile` deletes the resource it is given, as
-- docs/writing-a-reconciler.md shows it for a resource that is to be deleted.
use no8s_operator.Base.{ℕ, ◌≡◌, refl, ap, String, Bool, false, Option, none, some, List, [], ◌∷◌}
use no8s_operator.Base.Result.{Error, err, by_answer, not_null_violation}
use no8s_operator.Db.Rows.{Resource, Database}
use no8s_operator.Db.Resources.{row}
use no8s_operator.Db.Queue
use no8s_operator.Db.Queue.{Report}
use no8s_operator.Reconcilers.{
  ReconcileResult, Pass, report, requeue_if, record_reconciliation, after_first, result_of,
  reconcile_all, seen, later,
}

refused :
    (now i : ℕ) (p : Report) (db : Database)
    → row i db ≡ none
    → Queue.record_reconciliation now i p db ≡ (err (not_null_violation "generation"), db)
unfolding Queue.record_reconciliation
refused now i p db gone = rw (gone, Queue.record_reconciliation) refl

recorded_refused :
    (now i : ℕ) (result : ReconcileResult) (d : Option ℕ) (db : Database)
    → row i db ≡ none
    → record_reconciliation now i result d none false db
      ≡ (err (not_null_violation "generation"), db)
unfolding record_reconciliation
recorded_refused now i result d db gone =
    ap (by_answer (λ _. requeue_if now i result.requeue_after))
      (refused now i (report result d none false) db gone)

module _ (text : Error → String) (p : Pass) where
  -- When `reconcile` returns or raises with the resource's row gone, nothing is recorded of it, and no
  -- later resource of the batch is reconciled: the batch ends with the database's error, with the tables
  -- as `reconcile` left them.
  pub deletion_ends_batch :
      (bs : List Bool) (r : Resource) (rs : List Resource) (db : Database)
      → seen bs ≡ false
      → row r.id (p.reconcile r db).1 ≡ none
      → reconcile_all text p bs (r ∷ rs) db ≡ record {
        recorded = [];
        error = some (not_null_violation "generation");
        db = (p.reconcile r db).1;
      }
  unfolding reconcile_all
  deletion_ends_batch bs r rs db s gone = rw s (
      ap (λ y. after_first (r.id, result_of text p r db) y (reconcile_all text p (later bs) rs))
        (recorded_refused p.now r.id (result_of text p r db) (some p.duration_seconds)
          (p.reconcile r db).1 gone))
