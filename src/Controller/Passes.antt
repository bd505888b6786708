-- ===== src/Controller/Passes.antt =====
-- A pass of `_reconciliation_loop` and of `_requeue_loop` in src/controller.py. The tasks of a pass
-- interleave at their statements; here each runs as a whole, and what comes between its statements is in
-- the plugin's methods.
use no8s_operator.Base.{string_eq, ℕ, ◌*◌, String, Option, none, some, List, [], ◌∷◌}
use no8s_operator.Base.Result.{Error, Result}
use no8s_operator.Db.Rows.{Resource}
use no8s_operator.Db.Queue.{get_resources_needing_reconciliation, requeue_failed_resources}
use no8s_operator.Controller.{Controller, World}
use no8s_operator.Controller.Reconcile.{Run, reconcile_resource}

module _ (str : Error → String) (c : Controller) (run : Resource → Run) where
  -- `gather(*tasks, return_exceptions=True)`
  unfoldable pub run_tasks : List Resource → World → World
  run_tasks [] w = w
  run_tasks (r ∷ rs) w = run_tasks rs (reconcile_resource str c (run r) r w)

  -- The semaphore is given to the tasks in some order. An error of the query ends the pass.
  unfoldable pub reconciliation_pass :
      (List Resource → List Resource) → ℕ → Option Error → ℕ → World → World
  reconciliation_pass order max_concurrent_reconciles query_error now w = elim query_error [
    | some e ↦ w
    | none ↦
        run_tasks
          (order (get_resources_needing_reconciliation now (max_concurrent_reconciles * 2) w.db)) w
  ]

-- One pass of `_requeue_loop`. `percent` is the jitter factor.
unfoldable pub requeue_pass : Controller → ℕ → ℕ → (ℕ → ℕ) → World → World
requeue_pass c percent now draw w = record w {
  db =
      (requeue_failed_resources now draw c.config.backoff_base_delay c.config.backoff_max_delay
        percent w.db).1;
}
