-- ===== src/Db/Finalizers/Protection.antt =====
-- A finalizer protects its resource from every call but its own removal.
use no8s_operator.Base.{
  ℕ, String, ◌≡◌, refl, sym, ◌∙◌, ◌≢◌, Bool, true, false, Option, none, some, List, [], ◌∷◌, ◌++◌,
  arith, string_eq, nat_eq, contains, find, delete_where, update_where, All, inl, inr, Option-cases,
  Bool-cases,
}
use no8s_operator.Json.{Fields}
use no8s_operator.Db.Rows.{ResourceStatus, ready, Resource, Database}
use no8s_operator.Db.Resources.{
  has_id, row, name_taken, respecified, create_resource, update_resource, delete_resource,
  mark_resource_for_reconciliation, update_resource_outputs,
}
use no8s_operator.Db.Finalizers.{
  deletable, hard_delete_resource, protected, add_finalizer, remove_finalizer, get_finalizers,
}
use no8s_operator.Db.Finalizers.Laws.{held, held-remove_finalizer, contains-with_finalizer}
use no8s_operator.Db.Resources.Laws.{row-update_row}
use no8s_operator.Db.Conditions.{conditioned, set_condition}
use no8s_operator.Db.Queue.{
  overdue, with_status, update_resource_status, requeue_failed_resources, record_reconciliation,
}
use no8s_operator.Db.Calls.{Call, execute, execute_all}
use no8s_operator.Db.Queue

abbrev holds : String → Option Resource → Bool
holds f none = false
holds f (some r) = contains r.finalizers f

held-eq-holds : (i : ℕ) (f : String) (db : Database) → held i f db ≡ holds f (row i db)
unfolding get_finalizers
held-eq-holds i f db = ground (arith, Option-cases (row i db))

-- What an update of the rows may change without touching a finalizer.
abbrev SameFinalizers : (Resource → Resource) → Type 0
SameFinalizers g = (r : Resource) → ((g r).id ≡ r.id) × ((g r).finalizers ≡ r.finalizers)

module _ (i : ℕ) (f : String) where
  holds-update_where :
      (p : Resource → Bool) (g : Resource → Resource) (rs : List Resource)
      → SameFinalizers g
      → holds f (find (has_id i) (update_where p g rs)) ≡ holds f (find (has_id i) rs)
  holds-update_where p g [] same = refl
  holds-update_where p g (r ∷ rs) same = ground (arith, same r, holds-update_where p g rs same)

  holds-insert :
      (new : Resource) (rs : List Resource)
      → holds f (find (has_id i) rs) ≡ true
      → holds f (find (has_id i) (rs ++ new ∷ [])) ≡ true
  holds-insert new [] h = cc
  holds-insert new (r ∷ rs) h = ground (arith, holds-insert new rs)

  -- A row that holds a finalizer does not meet the `WHERE` clause of the hard delete.
  holds-delete :
      (j : ℕ) (rs : List Resource)
      → holds f (find (has_id i) rs) ≡ true
      → holds f (find (has_id i) (delete_where (deletable j) rs)) ≡ true
  holds-delete j [] h = cc
  holds-delete j (r ∷ rs) h = ground (arith, holds-delete j rs)

  module _ (hash : Fields → String) (now : ℕ) (db : Database) (h : holds f (row i db) ≡ true) where
    holds-update_row :
        (j : ℕ) (g : Resource → Resource)
        → SameFinalizers g
        → holds f (find (has_id i) (update_where (has_id j) g db.resources)) ≡ true
    holds-update_row j g same = holds-update_where (has_id j) g db.resources same ∙ h

    holds-create_resource :
        (n t v p : String) (s c m : Option Fields) (g : Option (List String))
        → holds f (row i (create_resource hash now n t v p s c m g db).1) ≡ true
    unfolding create_resource
    holds-create_resource n t v p s c m g = elim (Bool-cases (name_taken n db)) [
      | inl taken ↦ rw taken h
      | inr fresh ↦ rw fresh (holds-insert _ db.resources h)
    ]

    holds-update_resource :
        (j : ℕ) (s c : Option Fields) → holds f (row i (update_resource hash now j s c db).1) ≡ true
    unfolding update_resource
    holds-update_resource j s c = elim (Option-cases (row j db)) [
      | inl gone ↦ rw (gone, update_resource) h
      | inr (r, e) ↦
          rw (e, update_resource)
            (holds-update_row j (respecified hash now s c r) (λ q. (refl, refl)))
    ]

    holds-hard_delete_resource : (j : ℕ) → holds f (row i (hard_delete_resource j db).1) ≡ true
    unfolding hard_delete_resource
    holds-hard_delete_resource j = elim (Option-cases (find (deletable j) db.resources)) [
      | inl refused ↦ rw (refused, hard_delete_resource) h
      | inr (r, e) ↦ rw (e, hard_delete_resource) (holds-delete j db.resources h)
    ]

    holds-set_condition :
        (j : ℕ) (t s r m : String) (g : ℕ)
        → holds f (row i (set_condition now j t s r m g db).1) ≡ true
    unfolding set_condition conditioned
    holds-set_condition j t s r m g = elim (Option-cases (row j db)) [
      | inl gone ↦ rw (gone, conditioned) h
      | inr (q, e) ↦ rw (e, conditioned) (holds-update_row j _ (λ q. (refl, refl)))
    ]

    holds-update_resource_status :
        (d j : ℕ) (s : ResourceStatus) (m : Option String) (g : Option ℕ) (b x : ℕ)
        → holds f (row i (update_resource_status now d j s m g b x db).1) ≡ true
    unfolding update_resource_status
    holds-update_resource_status d j ready m g b x =
        holds-update_row j (with_status now d ready m g b x) (λ q. (refl, refl))
    holds-update_resource_status d j s m g b x =
        holds-update_row j (with_status now d s m g b x) (λ q. (refl, refl))

    holds-record_reconciliation :
        (j : ℕ) (p : Queue.Report) → holds f (row i (record_reconciliation now j p db).1) ≡ true
    unfolding record_reconciliation
    holds-record_reconciliation j p = elim (Option-cases (row j db)) [
      | inl gone ↦ rw (gone, record_reconciliation) h
      | inr (r, e) ↦ rw (e, record_reconciliation) h
    ]

    holds-add_finalizer : (j : ℕ) (g : String) → holds f (row i (add_finalizer now j g db).1) ≡ true
    unfolding add_finalizer
    holds-add_finalizer j g = elim (Option-cases (row i db)) [
      | inl gone ↦ cc
      | inr (r, e) ↦ ground (
        arith,
        row-update_row j i (protected now g) db (λ q. refl),
        contains-with_finalizer g f r.finalizers,
      )
    ]

    holds-remove_finalizer :
        (j : ℕ) (g : String)
        → Call.release j g ≢ Call.release i f
        → holds f (row i (remove_finalizer now j g db).1) ≡ true
    holds-remove_finalizer j g d =
        rw (← held-eq-holds)
          (ground (arith, held-remove_finalizer now j i g f db, held-eq-holds i f db))

    -- One call, at any time and from any state, other than the removal of this very finalizer.
    execute_holds :
        (c : Call) → c ≢ Call.release i f → holds f (row i (execute hash now c db)) ≡ true
    unfolding execute
    execute_holds (Call.create n t v p s c m g) d = holds-create_resource n t v p s c m g
    execute_holds (Call.update j s c) d = holds-update_resource j s c
    execute_holds (Call.delete j) d =
        unfold delete_resource in holds-update_row j _ (λ q. (refl, refl))
    execute_holds (Call.mark j x) d =
        unfold mark_resource_for_reconciliation in holds-update_row j _ (λ q. (refl, refl))
    execute_holds (Call.outputs j o) d =
        unfold update_resource_outputs in holds-update_row j _ (λ q. (refl, refl))
    execute_holds (Call.hard_delete j) d = holds-hard_delete_resource j
    execute_holds (Call.protect j g) d = holds-add_finalizer j g
    execute_holds (Call.release j g) d = holds-remove_finalizer j g d
    execute_holds (Call.condition j t s r m g) d = holds-set_condition j t s r m g
    execute_holds (Call.update_status x j s m g b y) d = holds-update_resource_status x j s m g b y
    execute_holds (Call.requeue x b y p) d =
        unfold requeue_failed_resources in
        (holds-update_where (overdue now) _ db.resources (λ q. (refl, refl)) ∙ h)
    execute_holds (Call.record_history j p) d = holds-record_reconciliation j p

  -- Whatever the API, the controllers and the reconcilers do in whatever order, a resource that holds
  -- a finalizer stays in the table and keeps it until that finalizer is removed from it: no hard
  -- delete takes it away.
  pub execute_all-held :
      (hash : Fields → String) (calls : List (ℕ × Call)) (db : Database)
      → All (λ (c : ℕ × Call). c.1 ≢ Call.release i f) calls
      → held i f db ≡ true
      → held i f (execute_all hash calls db) ≡ true
  unfolding execute_all
  execute_all-held hash [] db d h = h
  execute_all-held hash ((now, c) ∷ calls) db (d, ds) h =
      execute_all-held hash calls (execute hash now c db) ds (
        held-eq-holds i f (execute hash now c db)
        ∙ execute_holds hash now db (sym (held-eq-holds i f db) ∙ h) c d)
