-- ===== src/Db/Queue/Stalled.antt =====
-- A deletion in src/db.py that was taken up and did not succeed is not taken up again.
use no8s_operator.Base.{
  ℕ, ◌||◌, ◌==◌, All, ◌<◌, String, ◌≡◌, refl, ◌≢◌, Bool, true, false, ◌&&◌, Option, none, List, [],
  ◌∷◌, arith, nat_eq, find, update_where, inl, inr, Option-cases, Bool-cases,
}
use no8s_operator.Json.{Fields}
use no8s_operator.Db.Rows.{ResourceStatus, ready, deleting, status_eq, Resource, Database}
use no8s_operator.Db.Resources.{
  is_none, has_id, row, name_taken, respecified, new_resource, create_resource, update_resource,
  delete_resource, mark_resource_for_reconciliation, update_resource_outputs,
}
use no8s_operator.Db.Resources.Absent.{absent-update_where, absent-insert, absent-delete_where}
use no8s_operator.Db.Finalizers.{deletable, hard_delete_resource, add_finalizer, remove_finalizer}
use no8s_operator.Db.Conditions.{conditioned, set_condition}
use no8s_operator.Db.Queue.{
  needs_reconciliation, overdue, with_status, update_resource_status, requeue_failed_resources,
  record_reconciliation,
}
use no8s_operator.Db.Calls.{Call, execute, execute_all}
use no8s_operator.Db.Queue

-- A resource with this number that is live, or is still waiting to be deleted.
abbrev pub open_to_work : ℕ → Resource → Bool
open_to_work i r = has_id i r && (is_none r.deleted_at || r.status == deleting)

-- The calls that make a resource wait to be deleted: a deletion, and the status written by hand.
abbrev pub reopens : ℕ → Call → Bool
reopens i (Call.delete j) = j == i
reopens i (Call.update_status d j s m g b x) = j == i && s == deleting
reopens i _ = false

-- All rows with the number, of which there is one at most, are deleted, and their status is another.
abbrev pub IsStalled : ℕ → Database → Type 0
IsStalled i db = (find (open_to_work i) db.resources ≡ none) × (i < db.next_resource_id)

module _ (i : ℕ) where
  module _ (hash : Fields → String) (now : ℕ) (db : Database) (h : IsStalled i db) where
    update_row-IsStalled :
        (p : Resource → Bool) (g : Resource → Resource)
        → ((r : Resource) → p r ≡ true → open_to_work i (g r) ≡ true → open_to_work i r ≡ true)
        → IsStalled i (record db { resources = update_where p g db.resources })
    update_row-IsStalled p g keep =
        (absent-update_where (open_to_work i) p g db.resources keep h.0, h.1)

    create_resource-IsStalled :
        (n t v p : String) (s c m : Option Fields) (g : Option (List String))
        → IsStalled i (create_resource hash now n t v p s c m g db).1
    unfolding create_resource new_resource
    create_resource-IsStalled n t v p s c m g = elim (Bool-cases (name_taken n db)) [
      | inl taken ↦ rw taken (h.0, omega (arith, h.1))
      | inr fresh ↦ rw fresh (
        absent-insert (open_to_work i) _ db.resources (ground (arith, h.1)) h.0,
        omega (arith, h.1),
      )
    ]

    update_resource-IsStalled :
        (j : ℕ) (s c : Option Fields) → IsStalled i (update_resource hash now j s c db).1
    unfolding update_resource
    update_resource-IsStalled j s c = elim (Option-cases (row j db)) [
      | inl gone ↦ rw (gone, update_resource) h
      | inr (r, e) ↦
          rw (e, update_resource)
            (update_row-IsStalled (has_id j) (respecified hash now s c r) (λ q own k. ground arith))
    ]

    hard_delete_resource-IsStalled : (j : ℕ) → IsStalled i (hard_delete_resource j db).1
    unfolding hard_delete_resource
    hard_delete_resource-IsStalled j = elim (Option-cases (find (deletable j) db.resources)) [
      | inl refused ↦ rw (refused, hard_delete_resource) h
      | inr (r, e) ↦
          rw (e, hard_delete_resource)
            (absent-delete_where (open_to_work i) (deletable j) db.resources h.0, h.1)
    ]

    set_condition-IsStalled :
        (j : ℕ) (t s r m : String) (g : ℕ) → IsStalled i (set_condition now j t s r m g db).1
    unfolding set_condition conditioned
    set_condition-IsStalled j t s r m g = elim (Option-cases (row j db)) [
      | inl gone ↦ rw (gone, conditioned) h
      | inr (q, e) ↦ rw (e, conditioned) (update_row-IsStalled (has_id j) _ (λ q own k. k))
    ]

    update_resource_status-IsStalled :
        (d j : ℕ) (s : ResourceStatus) (m : Option String) (g : Option ℕ) (b x : ℕ)
        → j == i && s == deleting ≡ false
        → IsStalled i (update_resource_status now d j s m g b x db).1
    unfolding update_resource_status
    update_resource_status-IsStalled d j ready m g b x a =
        update_row-IsStalled (has_id j) (with_status now d ready m g b x) (λ q own k. ground arith)
    update_resource_status-IsStalled d j s m g b x a =
        update_row-IsStalled (has_id j) (with_status now d s m g b x) (λ q own k. ground arith)

    record_reconciliation-IsStalled :
        (j : ℕ) (p : Queue.Report) → IsStalled i (record_reconciliation now j p db).1
    unfolding record_reconciliation
    record_reconciliation-IsStalled j p = elim (Option-cases (row j db)) [
      | inl gone ↦ rw (gone, record_reconciliation) h
      | inr (r, e) ↦ rw (e, record_reconciliation) h
    ]

    -- One call, at any time and from any state.
    execute-IsStalled : (c : Call) → reopens i c ≡ false → IsStalled i (execute hash now c db)
    unfolding execute
    execute-IsStalled (Call.create n t v p s c m g) a = create_resource-IsStalled n t v p s c m g
    execute-IsStalled (Call.update j s c) a = update_resource-IsStalled j s c
    execute-IsStalled (Call.delete j) a =
        unfold delete_resource in update_row-IsStalled (has_id j) _ (λ q own k. ground arith)
    execute-IsStalled (Call.mark j x) a =
        unfold mark_resource_for_reconciliation in update_row-IsStalled (has_id j) _ (λ q own k. k)
    execute-IsStalled (Call.outputs j o) a =
        unfold update_resource_outputs in update_row-IsStalled (has_id j) _ (λ q own k. k)
    execute-IsStalled (Call.hard_delete j) a = hard_delete_resource-IsStalled j
    execute-IsStalled (Call.protect j g) a =
        unfold add_finalizer in update_row-IsStalled (has_id j) _ (λ q own k. k)
    execute-IsStalled (Call.release j g) a =
        unfold remove_finalizer in update_row-IsStalled (has_id j) _ (λ q own k. k)
    execute-IsStalled (Call.condition j t s r m g) a = set_condition-IsStalled j t s r m g
    execute-IsStalled (Call.update_status x j s m g b y) a =
        update_resource_status-IsStalled x j s m g b y a
    execute-IsStalled (Call.requeue x b y p) a =
        unfold requeue_failed_resources in update_row-IsStalled (overdue now) _ (λ q own k. k)
    execute-IsStalled (Call.record_history j p) a = record_reconciliation-IsStalled j p

  execute_all-IsStalled :
      (hash : Fields → String) (calls : List (ℕ × Call)) (db : Database)
      → All (λ (c : ℕ × Call). reopens i c.1 ≡ false) calls
      → IsStalled i db
      → IsStalled i (execute_all hash calls db)
  unfolding execute_all
  execute_all-IsStalled hash [] db a h = h
  execute_all-IsStalled hash ((now, c) ∷ calls) db a h =
      execute_all-IsStalled hash calls (execute hash now c db) a.1
        (execute-IsStalled hash now db h c a.0)

  -- What is stalled, row by row.
  abbrev pub LeftOff : Resource → Type 0
  LeftOff r = r.id ≡ i → (r.deleted_at ≢ none) × (r.status ≢ deleting)

  nothing_open : (rs : List Resource) → All LeftOff rs → find (open_to_work i) rs ≡ none
  nothing_open [] a = refl
  nothing_open (r ∷ rs) a = ground (arith, a.0, nothing_open rs a.1)

  absent_never_due :
      (later : ℕ) (rs : List Resource)
      → find (open_to_work i) rs ≡ none
      → All (λ (r : Resource). r.id ≡ i → needs_reconciliation later r ≡ false) rs
  unfolding needs_reconciliation
  absent_never_due later [] h = tt
  absent_never_due later (r ∷ rs) h = (λ e. ground arith, absent_never_due later rs (ground arith))

  -- Once a soft-deleted resource has a status other than `deleting`, as after the controller has taken
  -- its deletion up, it is not due at any later time, whatever calls follow, its requeue and its
  -- update through the API among them, unless it is deleted once more or somebody writes the status
  -- `deleting`. The number of the resource is one that has been given out.
  pub unfinished_deletion_is_never_due :
      (hash : Fields → String) (calls : List (ℕ × Call)) (db : Database) (later : ℕ)
      → All LeftOff db.resources
      → i < db.next_resource_id
      → All (λ (c : ℕ × Call). reopens i c.1 ≡ false) calls
      → All
          (λ (r : Resource). r.id ≡ i → needs_reconciliation later r ≡ false)
          (execute_all hash calls db).resources
  unfinished_deletion_is_never_due hash calls db later rows given a =
      absent_never_due later _
        (execute_all-IsStalled hash calls db a (nothing_open db.resources rows, given)).0
