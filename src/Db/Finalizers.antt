-- ===== src/Db/Finalizers.antt =====
-- The methods of src/db.py on `finalizers`, and the hard delete that they guard.
pub mod Laws
pub mod Protection
pub mod HardDelete
use no8s_operator.Base.{
  ℕ, String, Bool, true, false, not, ◌&&◌, none, some, List, [], ◌∷◌, ◌++◌, ◌==◌, if◌then◌else◌,
  string_eq, nat_eq, contains, filter, find, delete_where,
}
use no8s_operator.Base.Result.{Action, ok, modify}
use no8s_operator.Db.Rows.{Resource, History, Database}
use no8s_operator.Db.Resources.{has_id, row, update_row, is_none}

abbrev is_empty {ℓ} : {A : Type ℓ} → List A → Bool
is_empty [] = true
is_empty (x ∷ xs) = false

-- The `WHERE` clause of the `DELETE`.
abbrev pub deletable : ℕ → Resource → Bool
deletable i r = has_id i r && not (is_none r.deleted_at) && is_empty r.finalizers

-- `ON DELETE CASCADE` takes the history of the row along.
unfoldable pub hard_delete_resource : ℕ → Action Database Bool
hard_delete_resource i db = elim (find (deletable i) db.resources) [
  | none ↦ (ok false, db)
  | some r ↦ (
    ok true,
    record db {
      resources = delete_where (deletable i) db.resources;
      history = delete_where (λ (h : History). h.resource_id == i) db.history;
    },
  )
]

-- The `CASE` of the statement: the list is left alone where it holds the name.
abbrev pub with_finalizer : String → List String → List String
with_finalizer f fs = if contains fs f then fs else fs ++ f ∷ []

abbrev pub protected : ℕ → String → Resource → Resource
protected now f r = record r { finalizers = with_finalizer f r.finalizers; updated_at = now }

unfoldable pub add_finalizer : ℕ → ℕ → String → Action Database (Unit {0})
add_finalizer now i f = modify (update_row i (protected now f))

-- `COALESCE(jsonb_agg(…), '[]')` over the elements that differ.
abbrev pub without_finalizer : String → List String → List String
without_finalizer f fs = filter (λ g. not (g == f)) fs

abbrev pub released : ℕ → String → Resource → Resource
released now f r = record r { finalizers = without_finalizer f r.finalizers; updated_at = now }

unfoldable pub remove_finalizer : ℕ → ℕ → String → Action Database (Unit {0})
remove_finalizer now i f = modify (update_row i (released now f))

unfoldable pub get_finalizers : ℕ → Database → List String
get_finalizers i db = elim (row i db) [ none ↦ [] | some r ↦ r.finalizers ]
