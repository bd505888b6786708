-- ===== src/Db/Invariant.antt =====
-- The invariant of the tables `resources` and `reconciliation_history`, and that every call of
-- src/db.py keeps it.
pub mod Keeps
pub mod Rest
pub mod Preserved
use no8s_operator.Base.{
  ℕ, ◌≤◌, ◌<◌, ◌≡◌, ◌≢◌, none, List, [], ◌∷◌, nat_eq, string_eq, All, any, find, ◌==◌, false,
}
use no8s_operator.Db.Rows.{failed, Resource, History, Database, empty}
use no8s_operator.Db.Resources.{has_id}
use no8s_operator.Db.Conditions.{UniqueTypes}

-- A failed resource has counted its failure; generations start at 1.
pub record RowIsValid (r : Resource) : Type 0 where
  pub generation : 1 ≤ r.generation
  pub counted : r.status ≡ failed → 1 ≤ r.retry_count
  pub conditions : UniqueTypes r.conditions

-- Primary key and the unique constraint on `name`.
abbrev pub UniqueRows : List Resource → Type 0
UniqueRows [] = Unit
UniqueRows (r ∷ rs) =
    (find (has_id r.id) rs ≡ none)
    × (any (λ (q : Resource). q.name == r.name) rs ≡ false)
    × UniqueRows rs

abbrev pub RowsBelow : ℕ → List Resource → Type 0
RowsBelow n rs = All (λ (r : Resource). r.id < n) rs

-- The foreign key of the history.
abbrev pub Refers : List Resource → List History → Type 0
Refers rs hs = All (λ (h : History). find (has_id h.resource_id) rs ≢ none) hs

pub record IsValid (db : Database) : Type 0 where
  pub unique : UniqueRows db.resources
  pub below : RowsBelow db.next_resource_id db.resources
  pub rows : All RowIsValid db.resources
  pub refers : Refers db.resources db.history

pub empty-IsValid : IsValid empty
empty-IsValid = record { unique = tt; below = tt; rows = tt; refers = tt }
