-- ===== src/Controller/Outcomes.antt =====
-- The three outcomes of a reconciliation of src/controller.py, and what each leaves in the row.
use no8s_operator.Base.{
  ℕ, String, ◌≡◌, refl, sym, ap, ◌∙◌, inl, inr, Bool, true, false, none, some, List, [], ◌∷◌,
  string_eq, nat_eq, contains, Option-cases,
}
use no8s_operator.Base.Result.{ok}
use no8s_operator.Db.Rows.{ready, failed, status_eq, Resource, Database}
use no8s_operator.Db.Resources.{row, update_row, get_resource}
use no8s_operator.Db.Resources.Laws.{row_updated}
use no8s_operator.Db.Conditions.{conditioned, set_condition}
use no8s_operator.Db.Queue.{with_status, update_resource_status}
use no8s_operator.Controller.{ControllerConfig, World}
use no8s_operator.Controller.Conditions.{state_of, Setting, set_all, row-set_all}
use no8s_operator.Controller.Reconcile.{fail, finish_success, publish_reconciled}

pub record IsFailed (r : Resource) : Type 0 where
  pub status : r.status ≡ failed
  pub not_ready : state_of "Ready" r ≡ some "False"
  pub not_reconciling : state_of "Reconciling" r ≡ some "False"
  pub degraded : state_of "Degraded" r ≡ some "True"

-- `of_generation` is the generation that was reconciled.
pub record IsReady (of_generation : ℕ) (r : Resource) : Type 0 where
  pub status : r.status ≡ ready
  pub observed : r.observed_generation ≡ of_generation
  pub is_ready : state_of "Ready" r ≡ some "True"
  pub not_reconciling : state_of "Reconciling" r ≡ some "False"
  pub not_degraded : state_of "Degraded" r ≡ some "False"

-- What the branch for a successful destruction leaves.
pub record IsDestroyed (action_plugin : String) (r : Resource) : Type 0 where
  pub released : contains r.finalizers action_plugin ≡ false
  pub unknown : state_of "Ready" r ≡ some "Unknown"
  pub not_reconciling : state_of "Reconciling" r ≡ some "False"

abbrev pub failed_settings : String → List Setting
failed_settings error_msg =
    ("Ready", "False", "ReconcileFailed", error_msg)
    ∷ ("Reconciling", "False", "ReconcileFailed", "")
    ∷ ("Degraded", "True", "ReconcileFailed", error_msg)
    ∷ []

abbrev pub success_settings : List Setting
success_settings =
    ("Ready", "True", "ReconcileSuccess", "Resource reconciled successfully")
    ∷ ("Reconciling", "False", "ReconcileComplete", "Reconciliation completed")
    ∷ ("Degraded", "False", "NoErrors", "")
    ∷ []

abbrev pub deletion_settings : List Setting
deletion_settings =
    ("Reconciling", "False", "Deleting", "Resource is being deleted")
    ∷ ("Ready", "Unknown", "Deleting", "Resource is being deleted")
    ∷ []

unfoldable pub fail_db : ControllerConfig → ℕ → ℕ → Resource → String → Database → Database
fail_db c now draw r error_msg db = set_all now r.id r.generation (failed_settings error_msg) (
    update_row r.id
      (with_status now draw failed (some error_msg) none c.backoff_base_delay c.backoff_max_delay)
      db)

pub fail_effect :
    (c : ControllerConfig) (now draw : ℕ) (r : Resource) (error_msg : String) (w : World)
    → fail c now draw r error_msg w ≡ (ok tt, record w { db = fail_db c now draw r error_msg w.db })
unfolding fail fail_db update_resource_status set_condition conditioned
fail_effect c now draw r error_msg w = refl

pub fail_db-IsFailed :
    (c : ControllerConfig) (now draw : ℕ) (r : Resource) (error_msg : String) (db : Database)
    (r' : Resource)
    → row r.id (fail_db c now draw r error_msg db) ≡ some r'
    → IsFailed r'
unfolding fail_db string_eq
fail_db-IsFailed c now draw r error_msg db r' e =
    let f =
      with_status now draw failed (some error_msg) none c.backoff_base_delay c.backoff_max_delay in
    let (q, here, alike, states) =
      row-set_all now r.id r.generation (failed_settings error_msg) (update_row r.id f db) r' e in
    record {
      status =
          let (q0, _, same) = row_updated r.id f db (λ x. refl) q here in
          sym alike.0 ∙ sym (ap (λ (x : Resource). x.status) same);
      not_ready = states "Ready";
      not_reconciling = states "Reconciling";
      degraded = states "Degraded";
    }

module _ (now : ℕ) (r : Resource) (w : World) where
  unfoldable pub success_db : Database
  success_db = set_all now r.id r.generation success_settings (
      update_row r.id
        (with_status now 0 ready (some "Reconciliation successful") (some r.generation) 60 3600)
        w.db)

  publish-db : (b : Bool) (w : World) → (publish_reconciled b r w).1.db ≡ w.db
  unfolding publish_reconciled
  publish-db false w = refl
  publish-db true w = elim (Option-cases (get_resource r.id w.db)) [
    | inl gone ↦ rw (gone, publish_reconciled) refl
    | inr (q, here) ↦ rw (here, publish_reconciled) refl
  ]

  pub success_effect : (b : Bool) → (finish_success b now r w).1.db ≡ success_db
  unfolding finish_success success_db update_resource_status set_condition
  success_effect b = publish-db b _

  pub success_db-IsReady : (r' : Resource) → row r.id success_db ≡ some r' → IsReady r.generation r'
  unfolding success_db string_eq
  success_db-IsReady r' e =
      let f =
        with_status now 0 ready (some "Reconciliation successful") (some r.generation) 60 3600 in
      let (q, here, alike, states) =
        row-set_all now r.id r.generation success_settings (update_row r.id f w.db) r' e in
      let (q0, _, same) = row_updated r.id f w.db (λ x. refl) q here in
      record {
        status = sym alike.0 ∙ sym (ap (λ (x : Resource). x.status) same);
        observed = sym alike.1 ∙ sym (ap (λ (x : Resource). x.observed_generation) same);
        is_ready = states "Ready";
        not_reconciling = states "Reconciling";
        not_degraded = states "Degraded";
      }
