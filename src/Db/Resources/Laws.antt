-- ===== src/Db/Resources/Laws.antt =====
-- How an `UPDATE` of one resource shows in the rows: src/db.py, the statements with `WHERE id = $1`.
use mathlib.Core.Option
use no8s_operator.Base.{
  ℕ, ◌≡◌, refl, false, ◌&&◌, none, some, inl, inr, Option-cases, List, [], ◌∷◌, arith, ◌==◌,
  if◌then◌else◌, nat_eq, find, update_where,
}
use no8s_operator.Db.Rows.{Resource, Database}
use no8s_operator.Db.Resources.{has_id, is_none, row, update_row, get_resource, delete_resource}

-- An update that keeps identities is seen in the row with that identity, and in no other.
find-update_where :
    (i j : ℕ) (f : Resource → Resource) (rs : List Resource)
    → ((r : Resource) → (f r).id ≡ r.id)
    → find (has_id j) (update_where (has_id i) f rs)
      ≡ (if j == i then Option.map f (find (has_id j) rs) else find (has_id j) rs)
find-update_where i j f [] keep = ground arith
find-update_where i j f (r ∷ rs) keep = ground (arith, keep r, find-update_where i j f rs keep)

pub row-update_row :
    (i j : ℕ) (f : Resource → Resource) (db : Database)
    → ((r : Resource) → (f r).id ≡ r.id)
    → row j (update_row i f db) ≡ (if j == i then Option.map f (row j db) else row j db)
row-update_row i j f db keep = find-update_where i j f db.resources keep

-- A row that is there after an update was there before.
pub row_updated :
    (i : ℕ) (f : Resource → Resource) (db : Database)
    → ((r : Resource) → (f r).id ≡ r.id)
    → (q : Resource) → row i (update_row i f db) ≡ some q
    → (r : Resource) × (row i db ≡ some r) × (f r ≡ q)
row_updated i f db keep q e = elim (Option-cases (row i db)) [
  | inl gone ↦ absurd (ground (arith, row-update_row i i f db keep))
  | inr (r, here) ↦ (r, here, ground (arith, row-update_row i i f db keep))
]

find-deleted :
    (i : ℕ) (f : Resource → Resource) (rs : List Resource)
    → ((r : Resource) → is_none (f r).deleted_at ≡ false)
    → find (λ (r : Resource). has_id i r && is_none r.deleted_at) (update_where (has_id i) f rs)
      ≡ none
find-deleted i f [] gone = refl
find-deleted i f (r ∷ rs) gone = ground (arith, gone r, find-deleted i f rs gone)

-- A resource that was marked for deletion is not found any more.
pub get_resource-delete_resource :
    (now i : ℕ) (db : Database) → get_resource i (delete_resource now i db).1 ≡ none
unfolding get_resource delete_resource
get_resource-delete_resource now i db = find-deleted i _ db.resources (λ r. refl)
