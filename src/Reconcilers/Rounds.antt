-- ===== src/Reconcilers/Rounds.antt =====
-- Which resources one batch of `BaseReconciler` (src/plugins/reconcilers/base.py) reconciles and records.
use no8s_operator.Base.{
  ℕ, ◌≡◌, ◌≢◌, refl, ap, String, Bool, inl, inr, none, List, [], ◌∷◌, ◌++◌, map, nat_eq, string_eq,
  Bool-cases, Option-cases,
}
use no8s_operator.Base.Result.{Error, Result, ok, err}
use no8s_operator.Db.Rows.{Resource, Database}
use no8s_operator.Db.Resources.{row}
use no8s_operator.Db.Queue
use no8s_operator.Db.Queue.{needs_reconciliation}
use no8s_operator.Reconcilers.{
  ReconcileResult, Batch, Pass, after_first, result_of, record_of, reconcile_all, reconcile_batch,
  get_resources_needing_reconciliation, seen, later,
}

abbrev pub ids : List (ℕ × ReconcileResult) → List ℕ
ids = map (λ x. x.0)

abbrev pub ids_of : List Resource → List ℕ
ids_of = map (λ r. r.id)

-- The row is there.
abbrev pub Exists : ℕ → Database → Type 0
Exists i db = row i db ≢ none

module _ (text : Error → String) (p : Pass) where
  first-prefix :
      (x : ℕ × ReconcileResult) (ns : List ℕ) (y : Result (Unit {0}) × Database)
      (next : Database → Batch)
      → ((db : Database) → (rest : List ℕ) × (ns ≡ ids (next db).recorded ++ rest))
      → (rest : List ℕ) × (x.0 ∷ ns ≡ ids (after_first x y next).recorded ++ rest)
  first-prefix x ns (err e, db) next ih = (x.0 ∷ ns, refl)
  first-prefix x ns (ok u, db) next ih = let (rest, e) = ih db in (rest, ap (◌∷◌ x.0) e)

  -- The first of the fetched resources, in order.
  reconcile_all-prefix :
      (bs : List Bool) (rs : List Resource) (db : Database)
      → (rest : List ℕ) × (ids_of rs ≡ ids (reconcile_all text p bs rs db).recorded ++ rest)
  unfolding reconcile_all
  reconcile_all-prefix bs [] db = ([], refl)
  reconcile_all-prefix bs (r ∷ rs) db = elim (Bool-cases (seen bs)) [
    | inl stop ↦ rw stop (ids_of (r ∷ rs), refl)
    | inr go ↦ rw go (
        first-prefix (r.id, result_of text p r db) (ids_of rs) (record_of text p r db)
          (reconcile_all text p (later bs) rs) (reconcile_all-prefix (later bs) rs))
  ]

  -- Whatever `reconcile` does or raises, it removes no resource.
  abbrev pub KeepsRows : Type 0
  KeepsRows = (r : Resource) (db : Database) (i : ℕ) → Exists i db → Exists i (p.reconcile r db).1

  Complete : List Resource → Batch → Type 0
  Complete rs b = (b.error ≡ none) × (ids b.recorded ≡ ids_of rs)

  module _ (resource_types : List String) (db : Database) where
    abbrev pub fetched : List Resource
    fetched = get_resources_needing_reconciliation p.now resource_types 10 db

    abbrev pub batch : Batch
    batch = reconcile_batch text p resource_types db

    -- What a batch records is a first part of what the query returned, in its order.
    batch_prefix : (rest : List ℕ) × (ids_of fetched ≡ ids batch.recorded ++ rest)
    unfolding reconcile_batch
    batch_prefix = elim (Option-cases p.query_error) [
      | inr (e, q) ↦ rw (q, reconcile_batch) (ids_of fetched, refl)
      | inl q ↦ rw (q, reconcile_batch) (reconcile_all-prefix p.shutdown_seen fetched db)
    ]
