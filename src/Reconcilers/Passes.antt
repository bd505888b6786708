-- ===== src/Reconcilers/Passes.antt =====
-- The loop of `BaseReconciler` (src/plugins/reconcilers/base.py) as a whole: when it returns, and what it
-- keeps of the tables.
use no8s_operator.Base.{
  ℕ, ◌≡◌, refl, ap, ◌∙◌, String, Bool, true, false, ◌||◌, Option, none, some, inl, inr, List, [],
  ◌∷◌, All, any, Bool-cases, Option-cases,
}
use no8s_operator.Base.Result.{Error, Result, ok, err, by_answer}
use no8s_operator.Json.{Fields}
use no8s_operator.Db.Rows.{Resource, Database}
use no8s_operator.Db.Queue
use no8s_operator.Db.Queue.{Report}
use no8s_operator.Db.Calls
use no8s_operator.Db.Calls.{Call}
use no8s_operator.Db.Invariant.{IsValid}
use no8s_operator.Db.Invariant.Preserved.{execute-IsValid}
use no8s_operator.Reconcilers.{
  ReconcileResult, Batch, Pass, report, requeue_if, record_reconciliation, after_first, result_of,
  record_of, reconcile_all, reconcile_batch, seen, later, Log, after_pass, start,
}

abbrev no_hash : Fields → String
no_hash d = ""

entry-IsValid :
    (now i : ℕ) (p : Report) (db : Database)
    → IsValid db
    → IsValid (Queue.record_reconciliation now i p db).1
unfolding Calls.execute
entry-IsValid now i p db h = execute-IsValid no_hash now db h (Call.record_history i p)

requeue_if-IsValid :
    (now i : ℕ) (seconds : Option ℕ) (db : Database)
    → IsValid db
    → IsValid (requeue_if now i seconds db).1
unfolding Calls.execute
requeue_if-IsValid now i none db h = h
requeue_if-IsValid now i (some s) db h = execute-IsValid no_hash now db h (Call.mark i s)

recorded-IsValid :
    (now i : ℕ) (result : ReconcileResult) (d : Option ℕ) (db : Database)
    → IsValid db
    → IsValid (record_reconciliation now i result d none false db).1
unfolding record_reconciliation
recorded-IsValid now i result d db h =
    go (Queue.record_reconciliation now i (report result d none false) db)
      (entry-IsValid now i (report result d none false) db h)
  where
    go :
        (x : Result (Unit {0}) × Database)
        → IsValid x.1
        → IsValid (by_answer (λ _. requeue_if now i result.requeue_after) x).1
    go (ok u, db') v = requeue_if-IsValid now i result.requeue_after db' v
    go (err e, db') v = v

-- What the plugin's `reconcile` does, with all that others write meanwhile, keeps the invariant.
abbrev pub KeepsTables : Pass → Type 0
KeepsTables p = (r : Resource) (db : Database) → IsValid db → IsValid (p.reconcile r db).1

module _ (text : Error → String) where
  first-IsValid :
      (x : ℕ × ReconcileResult) (y : Result (Unit {0}) × Database) (next : Database → Batch)
      → IsValid y.1
      → ((db : Database) → IsValid db → IsValid (next db).db)
      → IsValid (after_first x y next).db
  first-IsValid x (err e, db) next v k = v
  first-IsValid x (ok u, db) next v k = k db v

  reconcile_all-IsValid :
      (p : Pass) (bs : List Bool) (rs : List Resource) (db : Database)
      → KeepsTables p
      → IsValid db
      → IsValid (reconcile_all text p bs rs db).db
  unfolding reconcile_all
  reconcile_all-IsValid p bs [] db k v = v
  reconcile_all-IsValid p bs (r ∷ rs) db k v = elim (Bool-cases (seen bs)) [
    | inl stop ↦ rw stop v
    | inr go ↦ rw go (
        first-IsValid (r.id, result_of text p r db) (record_of text p r db)
          (reconcile_all text p (later bs) rs)
          (recorded-IsValid p.now r.id (result_of text p r db) (some p.duration_seconds)
            (p.reconcile r db).1 (k r db v))
          (λ db' v'. reconcile_all-IsValid p (later bs) rs db' k v'))
  ]

  reconcile_batch-IsValid :
      (p : Pass) (types : List String) (db : Database)
      → KeepsTables p
      → IsValid db
      → IsValid (reconcile_batch text p types db).db
  unfolding reconcile_batch
  reconcile_batch-IsValid p types db k v = elim (Option-cases p.query_error) [
    | inr (e, q) ↦ rw (q, reconcile_batch) v
    | inl q ↦ rw (q, reconcile_batch) (reconcile_all-IsValid p p.shutdown_seen _ db k v)
  ]

  after_pass-ends :
      (before after : Bool) (db : Database) (b : Batch) (more : Log)
      → (after_pass before after db b more).1 ≡ ((before || after) || more.1)
  after_pass-ends true after db b more = refl
  after_pass-ends false true db b more = refl
  after_pass-ends false false db b (l, e, db') = refl

  after_pass-IsValid :
      (before after : Bool) (db : Database) (b : Batch) (more : Log)
      → IsValid db
      → IsValid b.db
      → IsValid more.2
      → IsValid (after_pass before after db b more).2
  after_pass-IsValid true after db b more u v w = u
  after_pass-IsValid false true db b more u v w = v
  after_pass-IsValid false false db b (l, e, db') u v w = w

  -- If every `reconcile` keeps the tables well formed, then, whatever fails in the batches, the loop
  -- returns exactly when a pass sees the shutdown, before its batch or in its wait; and the tables stay
  -- well formed.
  pub start_ends_and_keeps :
      (types : List String) (ps : List Pass) (db : Database)
      → All KeepsTables ps
      → IsValid db
      → ((start text types ps db).1 ≡ any (λ p. p.shutdown_before || p.shutdown_after) ps)
        × IsValid (start text types ps db).2
  unfolding start
  start_ends_and_keeps types [] db k v = (refl, v)
  start_ends_and_keeps types (p ∷ ps) db k v =
      let b = reconcile_batch text p types db in
      let more = start text types ps b.db in
      let v' : IsValid b.db = reconcile_batch-IsValid p types db k.0 v in
      let (ended, kept) = start_ends_and_keeps types ps b.db k.1 v' in
      (
        after_pass-ends p.shutdown_before p.shutdown_after db b more
            ∙ ap (λ e. (p.shutdown_before || p.shutdown_after) || e) ended,
        after_pass-IsValid p.shutdown_before p.shutdown_after db b more v v' kept,
      )
