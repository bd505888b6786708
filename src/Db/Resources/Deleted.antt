-- ===== src/Db/Resources/Deleted.antt =====
-- A resource of src/db.py that is marked for deletion stays so under every call.
use no8s_operator.Base.{
  ℕ, ◌<◌, String, ◌≡◌, Bool, true, ◌&&◌, Option, none, List, [], ◌∷◌, arith, nat_eq, find,
  update_where, inl, inr, Option-cases, Bool-cases,
}
use no8s_operator.Json.{Fields}
use no8s_operator.Db.Rows.{ResourceStatus, ready, Resource, Database}
use no8s_operator.Db.Resources.{
  is_none, has_id, row, name_taken, respecified, new_resource, create_resource, update_resource,
  delete_resource, get_resource, mark_resource_for_reconciliation, update_resource_outputs,
}
use no8s_operator.Db.Resources.Absent.{absent-update_where, absent-insert, absent-delete_where}
use no8s_operator.Db.Finalizers.{deletable, hard_delete_resource, add_finalizer, remove_finalizer}
use no8s_operator.Db.Conditions.{conditioned, set_condition}
use no8s_operator.Db.Queue.{
  overdue, with_status, update_resource_status, requeue_failed_resources, record_reconciliation,
}
use no8s_operator.Db.Calls.{Call, execute, execute_all}
use no8s_operator.Db.Queue

abbrev pub live : ℕ → Resource → Bool
live i r = has_id i r && is_none r.deleted_at

-- No resource that is not deleted has the number, and none will get it.
abbrev pub IsGone : ℕ → Database → Type 0
IsGone i db = (find (live i) db.resources ≡ none) × (i < db.next_resource_id)

module _ (i : ℕ) where
  module _ (hash : Fields → String) (now : ℕ) (db : Database) (h : IsGone i db) where
    update_row-IsGone :
        (p : Resource → Bool) (g : Resource → Resource)
        → ((r : Resource) → p r ≡ true → live i (g r) ≡ true → live i r ≡ true)
        → IsGone i (record db { resources = update_where p g db.resources })
    update_row-IsGone p g keep = (absent-update_where (live i) p g db.resources keep h.0, h.1)

    create_resource-IsGone :
        (n t v p : String) (s c m : Option Fields) (g : Option (List String))
        → IsGone i (create_resource hash now n t v p s c m g db).1
    unfolding create_resource new_resource
    create_resource-IsGone n t v p s c m g = elim (Bool-cases (name_taken n db)) [
      | inl taken ↦ rw taken (h.0, omega (arith, h.1))
      | inr fresh ↦
          rw fresh
            (absent-insert (live i) _ db.resources (ground (arith, h.1)) h.0, omega (arith, h.1))
    ]

    update_resource-IsGone :
        (j : ℕ) (s c : Option Fields) → IsGone i (update_resource hash now j s c db).1
    unfolding update_resource
    update_resource-IsGone j s c = elim (Option-cases (row j db)) [
      | inl gone ↦ rw (gone, update_resource) h
      | inr (r, e) ↦
          rw (e, update_resource)
            (update_row-IsGone (has_id j) (respecified hash now s c r) (λ q own k. k))
    ]

    hard_delete_resource-IsGone : (j : ℕ) → IsGone i (hard_delete_resource j db).1
    unfolding hard_delete_resource
    hard_delete_resource-IsGone j = elim (Option-cases (find (deletable j) db.resources)) [
      | inl refused ↦ rw (refused, hard_delete_resource) h
      | inr (r, e) ↦
          rw (e, hard_delete_resource)
            (absent-delete_where (live i) (deletable j) db.resources h.0, h.1)
    ]

    set_condition-IsGone :
        (j : ℕ) (t s r m : String) (g : ℕ) → IsGone i (set_condition now j t s r m g db).1
    unfolding set_condition conditioned
    set_condition-IsGone j t s r m g = elim (Option-cases (row j db)) [
      | inl gone ↦ rw (gone, conditioned) h
      | inr (q, e) ↦ rw (e, conditioned) (update_row-IsGone (has_id j) _ (λ q own k. k))
    ]

    update_resource_status-IsGone :
        (d j : ℕ) (s : ResourceStatus) (m : Option String) (g : Option ℕ) (b x : ℕ)
        → IsGone i (update_resource_status now d j s m g b x db).1
    unfolding update_resource_status
    update_resource_status-IsGone d j ready m g b x =
        update_row-IsGone (has_id j) (with_status now d ready m g b x) (λ q own k. k)
    update_resource_status-IsGone d j s m g b x =
        update_row-IsGone (has_id j) (with_status now d s m g b x) (λ q own k. k)

    record_reconciliation-IsGone :
        (j : ℕ) (p : Queue.Report) → IsGone i (record_reconciliation now j p db).1
    unfolding record_reconciliation
    record_reconciliation-IsGone j p = elim (Option-cases (row j db)) [
      | inl gone ↦ rw (gone, record_reconciliation) h
      | inr (r, e) ↦ rw (e, record_reconciliation) h
    ]

    -- One call, at any time and from any state.
    execute-IsGone : (c : Call) → IsGone i (execute hash now c db)
    unfolding execute
    execute-IsGone (Call.create n t v p s c m g) = create_resource-IsGone n t v p s c m g
    execute-IsGone (Call.update j s c) = update_resource-IsGone j s c
    execute-IsGone (Call.delete j) =
        unfold delete_resource in update_row-IsGone (has_id j) _ (λ q own k. absurd (ground arith))
    execute-IsGone (Call.mark j x) =
        unfold mark_resource_for_reconciliation in update_row-IsGone (has_id j) _ (λ q own k. k)
    execute-IsGone (Call.outputs j o) =
        unfold update_resource_outputs in update_row-IsGone (has_id j) _ (λ q own k. k)
    execute-IsGone (Call.hard_delete j) = hard_delete_resource-IsGone j
    execute-IsGone (Call.protect j g) =
        unfold add_finalizer in update_row-IsGone (has_id j) _ (λ q own k. k)
    execute-IsGone (Call.release j g) =
        unfold remove_finalizer in update_row-IsGone (has_id j) _ (λ q own k. k)
    execute-IsGone (Call.condition j t s r m g) = set_condition-IsGone j t s r m g
    execute-IsGone (Call.update_status x j s m g b y) = update_resource_status-IsGone x j s m g b y
    execute-IsGone (Call.requeue x b y p) =
        unfold requeue_failed_resources in update_row-IsGone (overdue now) _ (λ q own k. k)
    execute-IsGone (Call.record_history j p) = record_reconciliation-IsGone j p

  execute_all-IsGone :
      (hash : Fields → String) (calls : List (ℕ × Call)) (db : Database)
      → IsGone i db
      → IsGone i (execute_all hash calls db)
  unfolding execute_all
  execute_all-IsGone hash [] db h = h
  execute_all-IsGone hash ((now, c) ∷ calls) db h =
      execute_all-IsGone hash calls (execute hash now c db) (execute-IsGone hash now db h c)

  -- A resource that was marked for deletion is never found again.
  pub get_resource-execute_all :
      (hash : Fields → String) (calls : List (ℕ × Call)) (db : Database)
      → get_resource i db ≡ none
      → i < db.next_resource_id
      → get_resource i (execute_all hash calls db) ≡ none
  unfolding get_resource
  get_resource-execute_all hash calls db h b = (execute_all-IsGone hash calls db (h, b)).0
