-- ===== src/Db/Invariant/Preserved.antt =====
-- Every call of src/db.py on the resources keeps the invariant.
use no8s_operator.Base.{
  ℕ, String, ◌≡◌, refl, Bool, Option, List, [], ◌∷◌, arith, inl, inr, Option-cases, Bool-cases,
  find, update_where,
}
use no8s_operator.Json.{Fields}
use no8s_operator.Db.Rows.{
  ResourceStatus, pending, reconciling, ready, failed, deleting, Resource, Database,
}
use no8s_operator.Db.Resources.{
  has_id, row, name_taken, respecified, create_resource, update_resource, delete_resource,
  mark_resource_for_reconciliation, update_resource_outputs,
}
use no8s_operator.Db.Finalizers.{deletable, hard_delete_resource, add_finalizer, remove_finalizer}
use no8s_operator.Db.Conditions.{with_conditions, with_condition, conditioned, set_condition}
use no8s_operator.Db.Conditions.Laws.{with_condition-UniqueTypes}
use no8s_operator.Db.Queue.{
  overdue, with_status, update_resource_status, requeue_failed_resources, record_reconciliation,
}
use no8s_operator.Db.Queue
use no8s_operator.Db.Calls.{Call, execute, execute_all}
use no8s_operator.Db.Invariant.{IsValid, RowIsValid}
use no8s_operator.Db.Invariant.Keeps.{KeepsRow, update-IsValid}
use no8s_operator.Db.Invariant.Rest.{
  find-RowIsValid, insert-IsValid, skip_id-IsValid, delete-IsValid, Refers-snoc,
}

with_status-RowIsValid :
    (now draw : ℕ) (s : ResourceStatus) (m : Option String) (g : Option ℕ) (b x : ℕ) (r : Resource)
    → RowIsValid r
    → RowIsValid (with_status now draw s m g b x r)
with_status-RowIsValid now draw pending m g b x r h = record {
  generation = h.generation;
  counted = λ e. cc;
  conditions = h.conditions;
}
with_status-RowIsValid now draw reconciling m g b x r h = record {
  generation = h.generation;
  counted = λ e. cc;
  conditions = h.conditions;
}
with_status-RowIsValid now draw ready m g b x r h = record {
  generation = h.generation;
  counted = λ e. cc;
  conditions = h.conditions;
}
with_status-RowIsValid now draw failed m g b x r h = record {
  generation = h.generation;
  counted = λ e. omega arith;
  conditions = h.conditions;
}
with_status-RowIsValid now draw deleting m g b x r h = record {
  generation = h.generation;
  counted = λ e. cc;
  conditions = h.conditions;
}

with_status-KeepsRow :
    (now draw : ℕ) (s : ResourceStatus) (m : Option String) (g : Option ℕ) (b x : ℕ)
    → KeepsRow (with_status now draw s m g b x)
with_status-KeepsRow now draw pending m g b x = record {
  id = λ r. refl;
  name = λ r. refl;
  valid = with_status-RowIsValid now draw pending m g b x;
}
with_status-KeepsRow now draw s m g b x = record {
  id = λ r. refl;
  name = λ r. refl;
  valid = with_status-RowIsValid now draw s m g b x;
}

-- An update that touches no field that the invariant reads.
abbrev SameFields : (Resource → Resource) → Type 0
SameFields f =
    (r : Resource)
    → ((f r).id ≡ r.id)
      × ((f r).name ≡ r.name)
      × ((f r).generation ≡ r.generation)
      × ((f r).status ≡ r.status)
      × ((f r).retry_count ≡ r.retry_count)
      × ((f r).conditions ≡ r.conditions)

same-IsValid :
    (p : Resource → Bool) (f : Resource → Resource) (db : Database)
    → IsValid db
    → SameFields f
    → IsValid (record db { resources = update_where p f db.resources })
same-IsValid p f db h same =
    update-IsValid p f
      (record {
        id = λ r. (same r).0;
        name = λ r. (same r).1;
        valid = λ r k. record {
          generation = rw (same r).2 k.generation;
          counted = λ e. rw (same r).4 (k.counted (rw (same r).3 at e));
          conditions = rw (same r).5 k.conditions;
        };
      })
      db h

module _ (hash : Fields → String) (now : ℕ) (db : Database) (h : IsValid db) where
  create-IsValid :
      (n t v p : String) (s c m : Option Fields) (f : Option (List String))
      → IsValid (create_resource hash now n t v p s c m f db).1
  unfolding create_resource
  create-IsValid n t v p s c m f = elim (Bool-cases (name_taken n db)) [
    | inl taken ↦ rw taken (skip_id-IsValid db h)
    | inr fresh ↦ rw fresh (
        insert-IsValid _ db h refl fresh
          (record { generation = omega arith; counted = λ e. cc; conditions = tt }))
  ]

  update_resource-IsValid :
      (i : ℕ) (s c : Option Fields) → IsValid (update_resource hash now i s c db).1
  unfolding update_resource
  update_resource-IsValid i s c = elim (Option-cases (row i db)) [
    | inl gone ↦ rw (gone, update_resource) h
    | inr (r, e) ↦
        rw (e, update_resource)
          (update-IsValid (has_id i) (respecified hash now s c r)
            (record {
              id = λ q. refl;
              name = λ q. refl;
              valid = λ q k. record {
                generation = omega arith;
                counted = λ z. cc;
                conditions = k.conditions;
              };
            })
            db h)
  ]

  set_condition-IsValid :
      (i : ℕ) (t s r m : String) (g : ℕ) → IsValid (set_condition now i t s r m g db).1
  unfolding set_condition conditioned
  set_condition-IsValid i t s r m g = elim (Option-cases (row i db)) [
    | inl gone ↦ rw (gone, conditioned) h
    | inr (q, e) ↦
        rw (e, conditioned)
          (update-IsValid (has_id i)
            (with_conditions now (with_condition now t s r m g q.conditions))
            (record {
              id = λ x. refl;
              name = λ x. refl;
              valid = λ x k. record {
                generation = k.generation;
                counted = k.counted;
                conditions =
                    with_condition-UniqueTypes now t s r m g q.conditions
                      (find-RowIsValid (has_id i) db.resources h.rows e).conditions;
              };
            })
            db h)
  ]

  hard_delete-IsValid : (i : ℕ) → IsValid (hard_delete_resource i db).1
  unfolding hard_delete_resource
  hard_delete-IsValid i = elim (Option-cases (find (deletable i) db.resources)) [
    | inl refused ↦ rw (refused, hard_delete_resource) h
    | inr (r, e) ↦ rw (e, hard_delete_resource) (delete-IsValid i db h)
  ]

  record-IsValid : (i : ℕ) (p : Queue.Report) → IsValid (record_reconciliation now i p db).1
  unfolding record_reconciliation
  record-IsValid i p = elim (Option-cases (row i db)) [
    | inl gone ↦ rw (gone, record_reconciliation) h
    | inr (r, e) ↦
        rw (e, record_reconciliation)
          (record {
            unique = h.unique;
            below = h.below;
            rows = h.rows;
            refers = Refers-snoc db.resources _ db.history h.refers (λ z. cc);
          })
  ]

  -- Whatever the call, its arguments and its time, and whether it returns or raises: identifiers and
  -- names stay unique, the history refers to rows that are there, a condition type stands once in a
  -- row, and a failed row has a retry count of at least 1.
  pub execute-IsValid : (c : Call) → IsValid (execute hash now c db)
  unfolding execute
  execute-IsValid (Call.create n t v p s c m f) = create-IsValid n t v p s c m f
  execute-IsValid (Call.update i s c) = update_resource-IsValid i s c
  execute-IsValid (Call.delete i) =
      unfold delete_resource in
      update-IsValid (has_id i) _
        (record {
          id = λ r. refl;
          name = λ r. refl;
          valid = λ r k. record {
            generation = k.generation;
            counted = λ e. cc;
            conditions = k.conditions;
          };
        })
        db h
  execute-IsValid (Call.mark i d) =
      unfold mark_resource_for_reconciliation in
      same-IsValid (has_id i) _ db h (λ r. (refl, refl, refl, refl, refl, refl))
  execute-IsValid (Call.outputs i o) =
      unfold update_resource_outputs in
      same-IsValid (has_id i) _ db h (λ r. (refl, refl, refl, refl, refl, refl))
  execute-IsValid (Call.hard_delete i) = hard_delete-IsValid i
  execute-IsValid (Call.protect i f) =
      unfold add_finalizer in
      same-IsValid (has_id i) _ db h (λ r. (refl, refl, refl, refl, refl, refl))
  execute-IsValid (Call.release i f) =
      unfold remove_finalizer in
      same-IsValid (has_id i) _ db h (λ r. (refl, refl, refl, refl, refl, refl))
  execute-IsValid (Call.condition i t s r m g) = set_condition-IsValid i t s r m g
  execute-IsValid (Call.update_status d i s m g b x) =
      unfold update_resource_status in
      update-IsValid (has_id i) _ (with_status-KeepsRow now d s m g b x) db h
  execute-IsValid (Call.requeue d b x p) =
      unfold requeue_failed_resources in
      same-IsValid (overdue now) _ db h (λ r. (refl, refl, refl, refl, refl, refl))
  execute-IsValid (Call.record_history i r) = record-IsValid i r

-- From valid tables (identities and names are unique, generations positive, a failed resource has
-- counted a failure, no condition type is listed twice, every record of the history refers to a row)
-- any sequence of calls, at any times, leads to valid tables.
pub execute_all-IsValid :
    (hash : Fields → String) (calls : List (ℕ × Call)) (db : Database)
    → IsValid db
    → IsValid (execute_all hash calls db)
unfolding execute_all
execute_all-IsValid hash [] db h = h
execute_all-IsValid hash ((now, c) ∷ calls) db h =
    execute_all-IsValid hash calls (execute hash now c db) (execute-IsValid hash now db h c)
