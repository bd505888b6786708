-- ===== src/Db/Finalizers/HardDelete.antt =====
-- When src/db.py `hard_delete_resource` deletes, and what it deletes.
use no8s_operator.Base.{
  ℕ, ◌≡◌, refl, ◌≢◌, ◌↔◌, true, false, none, some, List, [], ◌∷◌, arith, ◌==◌, nat_eq, find,
  delete_where, All, inl, inr, Option-cases, Bool-cases,
}
use no8s_operator.Base.Result.{ok}
use no8s_operator.Db.Rows.{Resource, History, Database}
use no8s_operator.Db.Resources.{has_id, row}
use no8s_operator.Db.Invariant.{UniqueRows}
use no8s_operator.Db.Invariant.Rest.{find-delete, find-delete_ne}
use no8s_operator.Db.Finalizers.{deletable, hard_delete_resource}

module _ (i : ℕ) where
  not_deletable_of_absent :
      (rs : List Resource) → find (has_id i) rs ≡ none → find (deletable i) rs ≡ none
  not_deletable_of_absent [] h = refl
  not_deletable_of_absent (r ∷ rs) h = ground (arith, not_deletable_of_absent rs)

  row_of_deletable :
      {r : Resource} (rs : List Resource)
      → UniqueRows rs
      → find (deletable i) rs ≡ some r
      → find (has_id i) rs ≡ some r
  row_of_deletable [] u e = cc
  row_of_deletable {r} (q ∷ rs) u e =
      ground (arith, not_deletable_of_absent rs, row_of_deletable {r = r} rs)

  deletable_fields :
      (q : Resource) → deletable i q ≡ true → (q.deleted_at ≢ none) × (q.finalizers ≡ [])
  deletable_fields q t = ground arith

  is_deletable :
      {r : Resource} (rs : List Resource)
      → find (deletable i) rs ≡ some r
      → (r.deleted_at ≢ none) × (r.finalizers ≡ [])
  is_deletable [] e = cc
  is_deletable {r} (q ∷ rs) e = elim (Bool-cases (deletable i q)) [
    | inl t ↦ let same : q ≡ r = ground arith in rw same at (deletable_fields q t)
    | inr f ↦ is_deletable {r = r} rs (ground arith)
  ]

  deletable_of_row :
      {r : Resource} (rs : List Resource)
      → find (has_id i) rs ≡ some r
      → r.deleted_at ≢ none
      → r.finalizers ≡ []
      → find (deletable i) rs ≡ some r
  deletable_of_row [] e d f = cc
  deletable_of_row {r} (q ∷ rs) e d f = ground (arith, deletable_of_row {r = r} rs)

  -- `DELETE … RETURNING id` hits exactly the row with this identifier that is soft-deleted and has
  -- no finalizer left.
  pub hard_delete_resource_iff :
      (db : Database)
      → UniqueRows db.resources
      → ((hard_delete_resource i db).0 ≡ ok true)
        ↔ ((r : Resource) × (row i db ≡ some r) × (r.deleted_at ≢ none) × (r.finalizers ≡ []))
  unfolding hard_delete_resource
  hard_delete_resource_iff db u = elim (Option-cases (find (deletable i) db.resources)) [
    | inl refused ↦ (λ e. cc, λ (r, e, d, f). cc (deletable_of_row {r = r} db.resources e d f))
    | inr (r, e) ↦ (
      λ _. (
        r,
        row_of_deletable db.resources u e,
        (is_deletable db.resources e).0,
        (is_deletable db.resources e).1,
      ),
      λ _. ground arith,
    )
  ]

  absent_after :
      {r : Resource} (rs : List Resource)
      → UniqueRows rs
      → find (deletable i) rs ≡ some r
      → find (has_id i) (delete_where (deletable i) rs) ≡ none
  absent_after [] u e = refl
  absent_after {r} (q ∷ rs) u e = elim (Bool-cases (deletable i q)) [
    | inl t ↦ ground (arith, find-delete (deletable i) i rs)
    | inr f ↦ ground (arith, absent_after {r = r} rs u.2, row_of_deletable {r = r} rs u.2)
  ]

  none_refer :
      (hs : List History)
      → All
          (λ (h : History). h.resource_id ≢ i)
          (delete_where (λ (h : History). h.resource_id == i) hs)
  none_refer [] = tt
  none_refer (h ∷ hs) = ground (arith, none_refer hs)

  -- A hard delete that reports success has taken away that row and its history, and no other row;
  -- one that reports failure has changed nothing.
  pub hard_delete_resource_effect :
      (db : Database)
      → UniqueRows db.resources
      → ((hard_delete_resource i db).0 ≡ ok true
          → (row i (hard_delete_resource i db).1 ≡ none)
            × All (λ (h : History). h.resource_id ≢ i) (hard_delete_resource i db).1.history
            × ((j : ℕ) → j ≢ i → row j (hard_delete_resource i db).1 ≡ row j db))
        × ((hard_delete_resource i db).0 ≡ ok false → (hard_delete_resource i db).1 ≡ db)
  unfolding hard_delete_resource
  hard_delete_resource_effect db u = elim (Option-cases (find (deletable i) db.resources)) [
    | inl refused ↦ (λ e. cc, λ e. rw (refused, hard_delete_resource))
    | inr (r, found) ↦ (
      λ e.
          rw (found, hard_delete_resource)
            (
              absent_after {r = r} db.resources u found,
              none_refer db.history,
              λ j d. find-delete_ne i j db.resources d,
            ),
      λ e. cc,
    )
  ]
