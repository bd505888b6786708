-- ===== src/Controller/Verdict.antt =====
-- How a reconciliation of src/controller.py ends, whatever the plugin does and raises.
use Prim.Native.String.{◌++◌ as push_str}
use mathlib.Core.Path.{subst}
use no8s_operator.Base.{
  ℕ, String, ◌≡◌, refl, sym, ap, ◌∙◌, ◌≢◌, inl, inr, Bool, some, List, [], ◌∷◌, ◌++◌, arith, ◌==◌,
  string_eq, nat_eq, find, Option-cases, Bool-cases,
}
use no8s_operator.Base.Result.{Error, Result, ok, err, pure, ◌>>◌, returned-bind}
use no8s_operator.Db.Rows.{deleting, status_eq, Resource, History, Database}
use no8s_operator.Db.Resources.{has_id, row}
use no8s_operator.Db.Finalizers.{deletable, get_finalizers, hard_delete_resource}
use no8s_operator.Db.Queue.{Report, record_reconciliation}
use no8s_operator.Controller.{Controller, ReconciliationResult, World, on_db, or_text}
use no8s_operator.Controller.Execution.{execute_reconciliation}
use no8s_operator.Controller.Outcomes.{
  IsFailed, IsReady, IsDestroyed, fail_effect, fail_db-IsFailed, success_effect, success_db-IsReady,
}
use no8s_operator.Controller.Deletion.{
  EachRow, each-row, each-find, deletion_db, deletion_effect, deletion_db-EachRow,
}
use no8s_operator.Controller.Reconcile.{
  Run, context, fail, hard_delete_if_free, finish, report, find_plugin, perform, handled,
  try_reconcile, reconcile_resource,
}

-- The row of the resource, if there is one, shows one of the outcomes.
pub data Verdict (r r' : Resource) : Type 0 where
  was_failed : IsFailed r' → Verdict r r'
  was_ready : r.status ≢ deleting → IsReady r.generation r' → Verdict r r'
  was_destroyed : r.status ≡ deleting → IsDestroyed r.action_plugin r' → Verdict r r'

Settled : Resource → Database → Type 0
Settled r db = (r' : Resource) → row r.id db ≡ some r' → Verdict r r'

record-rows :
    (now i : ℕ) (p : Report) (db : Database)
    → (record_reconciliation now i p db).1.resources ≡ db.resources
unfolding record_reconciliation
record-rows now i p db = elim (Option-cases (row i db)) [
  | inl gone ↦ rw (gone, record_reconciliation) refl
  | inr (q, here) ↦ rw (here, record_reconciliation) refl
]

module _ (c : Controller) (run : Run) (r : Resource) where
  hard_delete-EachRow :
      (P : Resource → Type 0) (db : Database) (q : Resource)
      → EachRow r.id P db.resources
      → row r.id (hard_delete_resource r.id db).1 ≡ some q
      → P q
  unfolding hard_delete_resource
  hard_delete-EachRow P db q all e = elim (Option-cases (find (deletable r.id) db.resources)) [
    | inl kept ↦ each-row r.id P db.resources q all (ground arith)
    | inr (x, here) ↦ each-find r.id P (deletable r.id) db.resources q all (ground arith)
  ]

  answer_dropped :
      (x : Result Bool × Database) (w : World) → ((on_db (λ db. x) >> pure tt) w).1.db ≡ x.1
  answer_dropped (ok a, db) w = refl
  answer_dropped (err e, db) w = refl

  free-db : (w : World) → (hard_delete_if_free r [] w).1.db ≡ (hard_delete_resource r.id w.db).1
  free-db w = answer_dropped (hard_delete_resource r.id w.db) w

  free-IsDestroyed :
      (w : World) (q : Resource) (remaining : List String)
      → EachRow r.id (IsDestroyed r.action_plugin) w.db.resources
      → row r.id (hard_delete_if_free r remaining w).1.db ≡ some q
      → IsDestroyed r.action_plugin q
  free-IsDestroyed w q [] all e =
      hard_delete-EachRow (IsDestroyed r.action_plugin) w.db q all
        (ap (row r.id) (sym (free-db w)) ∙ e)
  free-IsDestroyed w q (f ∷ fs) all e =
      each-row r.id (IsDestroyed r.action_plugin) w.db.resources q all e

  finish-Settled :
      (result : ReconciliationResult) (w : World) → Settled r (finish c run r result w).1.db
  unfolding Settled finish
  finish-Settled result w = elim (Bool-cases result.success) [
    | inr n ↦
        rw (n, finish)
          (λ r' e. was_failed (
            fail_db-IsFailed c.config run.ended run.draw r
              (or_text result.error_message "Reconciliation failed") w.db r'
              (ap (λ x. row r.id x.1.db)
                  (sym (
                    fail_effect c.config run.ended run.draw r
                      (or_text result.error_message "Reconciliation failed") w))
                ∙ e)))
    | inl y ↦ elim (Bool-cases (r.status == deleting)) [
      | inl d ↦
          rw (y, d, finish)
            (λ r' e. was_destroyed (ground arith) (
              free-IsDestroyed (record w { db = deletion_db run.ended r w }) r'
                (get_finalizers r.id (deletion_db run.ended r w))
                (deletion_db-EachRow run.ended r w)
                (ap (row r.id) (sym (deletion_effect run.ended r w)) ∙ e)))
      | inr d ↦
          rw (y, d, finish)
            (λ r' e. was_ready (ground arith) (
              success_db-IsReady run.ended r w r'
                (ap (row r.id) (sym (success_effect run.ended r w c.event_bus)) ∙ e)))
    ]
  ]

  fail-Settled :
      (now draw : ℕ) (m : String) (w : World) → Settled r (fail c.config now draw r m w).1.db
  unfolding Settled
  fail-Settled now draw m w r' e = was_failed (
      fail_db-IsFailed c.config now draw r m w.db r'
        (ap (λ x. row r.id x.1.db) (sym (fail_effect c.config now draw r m w)) ∙ e))

  record-Settled :
      (result : ReconciliationResult) (w w' : World)
      → Settled r w.db
      → on_db (record_reconciliation run.ended r.id (report run r result)) w ≡ (ok tt, w')
      → Settled r w'.db
  unfolding Settled
  record-Settled result w w' h e r' here = h r' (
      sym (ap (find (has_id r.id)) (record-rows run.ended r.id (report run r result) w.db))
      ∙ ap (λ x. row r.id x.1.db) e
      ∙ here)

-- A record is written only for a resource that is there, and at the end of the history.
abbrev pub Recorded : Run → Resource → Database → Type 0
Recorded run r db =
    (r' : Resource) × (row r.id db ≡ some r')
    × (hs : List History) × (h : History) × (db.history ≡ hs ++ h ∷ [])
    × (h.resource_id ≡ r.id)
    × (h.generation ≡ r'.generation)
    × (h.reconcile_time ≡ run.ended)

record-Recorded :
    (run : Run) (r : Resource) (p : Report) (db : Database)
    → let (answer, db') = record_reconciliation run.ended r.id p db in
      answer ≡ ok tt → Recorded run r db'
unfolding record_reconciliation
record-Recorded run r p db = elim (Option-cases (row r.id db)) [
  | inl gone ↦ rw (gone, record_reconciliation) (λ h. absurd (ground arith))
  | inr (q, here) ↦
      rw (here, record_reconciliation) (λ h. (q, here, db.history, _, refl, refl, refl, refl))
]

module _ (str : Error → String) (c : Controller) (run : Run) (r : Resource) where
  returned-Settled : (w w' : World) → try_reconcile str c run r w ≡ (ok tt, w') → Settled r w'.db
  unfolding try_reconcile
  returned-Settled w w' e =
      let (plugin, w1, _, e1) =
        returned-bind (find_plugin c run r) (perform str c run r) w w' tt e in
      let x = execute_reconciliation str run.ended plugin (context r) r w1 in
      let (u, w2, e2, e3) =
        returned-bind (finish c run r x.0)
          (λ u. on_db (record_reconciliation run.ended r.id (report run r x.0))) x.1 w' tt e1 in
      record-Settled c run r x.0 w2 w'
        (subst (λ y. Settled r y.1.db) e2 (finish-Settled c run r x.0 x.1)) e3

  -- Where the database takes every statement of the controller, and others write only while a method
  -- of the plugin runs: whatever the plugin answers, raises or lets others write, if the resource is
  -- still there afterwards, its row shows one of three outcomes. Its status is failed, and its
  -- conditions say so; or (only if it was selected as deleting) its condition Reconciling is False,
  -- its condition Ready is Unknown and the plugin's finalizer is gone, while nothing is said of the
  -- status; or (only if it was not) its status is ready, at the generation that was reconciled.
  pub reconcile_resource-Verdict :
      (w : World) (r' : Resource)
      → row r.id (reconcile_resource str c run r w).db ≡ some r'
      → Verdict r r'
  unfolding reconcile_resource Settled
  reconcile_resource-Verdict w = settled (try_reconcile str c run r w) refl
    where
      settled :
          (x : Result (Unit {0}) × World)
          → try_reconcile str c run r w ≡ x
          → Settled r (handled str c run r x).db
      settled (ok tt, w') e = returned-Settled w w' e
      settled (err x, w') e =
          fail-Settled c run r run.ended run.draw_on_error
            (push_str "Reconciliation error: " (str x)) w'

  -- A reconciliation that ends without an exception leaves a record of the resource's generation and of
  -- its end as the last one of the history, and the resource is then still in the table: if its row is
  -- gone by then, for instance by its own hard delete, it does not end without an exception.
  pub returned-Recorded :
      (w w' : World) → try_reconcile str c run r w ≡ (ok tt, w') → Recorded run r w'.db
  unfolding try_reconcile
  returned-Recorded w w' e =
      let (plugin, w1, _, e1) =
        returned-bind (find_plugin c run r) (perform str c run r) w w' tt e in
      let x = execute_reconciliation str run.ended plugin (context r) r w1 in
      let (u, w2, e2, e3) =
        returned-bind (finish c run r x.0)
          (λ u. on_db (record_reconciliation run.ended r.id (report run r x.0))) x.1 w' tt e1 in
      subst (Recorded run r) (ap (λ y. y.1.db) e3)
        (record-Recorded run r (report run r x.0) w2.db (ap (λ y. y.0) e3))
