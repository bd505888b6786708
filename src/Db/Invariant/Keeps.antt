-- ===== src/Db/Invariant/Keeps.antt =====
-- Every call keeps the invariant.
use no8s_operator.Base.{
  ℕ, String, ◌≡◌, refl, ◌≢◌, Bool, false, none, List, [], ◌∷◌, arith, ◌==◌, nat_eq, string_eq, All,
  any, find, update_where, inl, inr, Bool-cases,
}
use no8s_operator.Db.Rows.{Resource, History, Database, status_eq}
use no8s_operator.Db.Resources.{has_id}
use no8s_operator.Db.Invariant.{IsValid, RowIsValid, UniqueRows, RowsBelow, Refers}

-- What an `UPDATE` of `resources` may do to a row.
pub record KeepsRow (f : Resource → Resource) : Type 0 where
  pub id : (r : Resource) → (f r).id ≡ r.id
  pub name : (r : Resource) → (f r).name ≡ r.name
  pub valid : (r : Resource) → RowIsValid r → RowIsValid (f r)

module _ (p : Resource → Bool) (f : Resource → Resource) (keep : KeepsRow f) where
  find-update :
      (i : ℕ) (rs : List Resource)
      → find (has_id i) rs ≡ none
      → find (has_id i) (update_where p f rs) ≡ none
  find-update i [] h = refl
  find-update i (r ∷ rs) h = ground (arith, keep.id r, find-update i rs)

  found_update :
      (i : ℕ) (rs : List Resource)
      → find (has_id i) rs ≢ none
      → find (has_id i) (update_where p f rs) ≢ none
  found_update i [] h = h
  found_update i (r ∷ rs) h = ground (arith, keep.id r, found_update i rs)

  any-update :
      (n : String) (rs : List Resource)
      → any (λ (q : Resource). q.name == n) rs ≡ false
      → any (λ (q : Resource). q.name == n) (update_where p f rs) ≡ false
  any-update n [] h = refl
  any-update n (r ∷ rs) h = ground (arith, keep.name r, any-update n rs)

  update-UniqueRows : (rs : List Resource) → UniqueRows rs → UniqueRows (update_where p f rs)
  update-UniqueRows [] h = tt
  update-UniqueRows (r ∷ rs) h = ground (
    arith,
    keep.id r,
    keep.name r,
    find-update r.id rs,
    any-update r.name rs,
    update-UniqueRows rs,
  )

  update-RowsBelow :
      (n : ℕ) (rs : List Resource) → RowsBelow n rs → RowsBelow n (update_where p f rs)
  update-RowsBelow n [] h = tt
  update-RowsBelow n (r ∷ rs) h = ground (arith, keep.id r, update-RowsBelow n rs)

  update-rows : (rs : List Resource) → All RowIsValid rs → All RowIsValid (update_where p f rs)
  update-rows [] h = tt
  update-rows (r ∷ rs) (h, hs) = elim (Bool-cases (p r)) [
    | inl e ↦ rw e (keep.valid r h, update-rows rs hs)
    | inr e ↦ rw e (h, update-rows rs hs)
  ]

  update-Refers :
      (rs : List Resource) (hs : List History) → Refers rs hs → Refers (update_where p f rs) hs
  update-Refers rs [] h = tt
  update-Refers rs (e ∷ hs) (h, t) = (found_update e.resource_id rs h, update-Refers rs hs t)

  pub update-IsValid :
      (db : Database)
      → IsValid db
      → IsValid (record db { resources = update_where p f db.resources })
  update-IsValid db h = record {
    unique = update-UniqueRows db.resources h.unique;
    below = update-RowsBelow db.next_resource_id db.resources h.below;
    rows = update-rows db.resources h.rows;
    refers = update-Refers db.resources db.history h.refers;
  }
