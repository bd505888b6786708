-- ===== src/Db/Invariant/Rest.antt =====
-- The invariant under an insert, a delete and a new line of history.
use no8s_operator.Base.{
  ℕ, suc, ◌<◌, String, ◌≡◌, refl, ◌≢◌, Bool, false, none, some, List, [], ◌∷◌, ◌++◌, arith, ◌==◌,
  nat_eq, string_eq, All, any, find, delete_where, inl, inr, Bool-cases,
}
use no8s_operator.Db.Rows.{Resource, History, Database}
use no8s_operator.Db.Resources.{has_id}
use no8s_operator.Db.Finalizers.{deletable}
use no8s_operator.Db.Invariant.{IsValid, RowIsValid, UniqueRows, RowsBelow, Refers}

-- Every row that a query finds is valid.
pub find-RowIsValid :
    {r : Resource} (p : Resource → Bool) (rs : List Resource)
    → All RowIsValid rs
    → find p rs ≡ some r
    → RowIsValid r
find-RowIsValid p [] h e = cc
find-RowIsValid {r} p (q ∷ rs) (h, hs) e = elim (Bool-cases (p q)) [
  | inl t ↦ let same : q ≡ r = ground arith in rw same at h
  | inr f ↦ find-RowIsValid p rs hs (ground arith)
]

find_of_below : (n : ℕ) (rs : List Resource) → RowsBelow n rs → find (has_id n) rs ≡ none
find_of_below n [] h = refl
find_of_below n (r ∷ rs) h = ground (arith, find_of_below n rs h.1)

RowsBelow-suc : (n : ℕ) (rs : List Resource) → RowsBelow n rs → RowsBelow (suc n) rs
RowsBelow-suc n [] h = tt
RowsBelow-suc n (r ∷ rs) h = (omega arith, RowsBelow-suc n rs h.1)

module _ (new : Resource) where
  find-snoc_ne :
      (i : ℕ) (rs : List Resource)
      → new.id ≢ i
      → find (has_id i) rs ≡ none
      → find (has_id i) (rs ++ new ∷ []) ≡ none
  find-snoc_ne i [] d h = ground arith
  find-snoc_ne i (r ∷ rs) d h = ground (arith, find-snoc_ne i rs d)

  found_snoc :
      (i : ℕ) (rs : List Resource)
      → find (has_id i) rs ≢ none
      → find (has_id i) (rs ++ new ∷ []) ≢ none
  found_snoc i [] h = absurd (h refl)
  found_snoc i (r ∷ rs) h = ground (arith, found_snoc i rs)

  any-snoc :
      (n : String) (rs : List Resource)
      → new.name ≢ n
      → any (λ (q : Resource). q.name == n) rs ≡ false
      → any (λ (q : Resource). q.name == n) (rs ++ new ∷ []) ≡ false
  any-snoc n [] d h = ground arith
  any-snoc n (r ∷ rs) d h = ground (arith, any-snoc n rs d)

  snoc-UniqueRows :
      (rs : List Resource)
      → UniqueRows rs
      → find (has_id new.id) rs ≡ none
      → any (λ (q : Resource). q.name == new.name) rs ≡ false
      → UniqueRows (rs ++ new ∷ [])
  snoc-UniqueRows [] u i n = (refl, refl, tt)
  snoc-UniqueRows (r ∷ rs) u i n =
      ground (arith, find-snoc_ne r.id rs, any-snoc r.name rs, snoc-UniqueRows rs)

  All-snoc :
      (P : Resource → Type 0) (rs : List Resource) → All P rs → P new → All P (rs ++ new ∷ [])
  All-snoc P [] h q = (q, tt)
  All-snoc P (r ∷ rs) (h, hs) q = (h, All-snoc P rs hs q)

  snoc-Refers : (rs : List Resource) (hs : List History) → Refers rs hs → Refers (rs ++ new ∷ []) hs
  snoc-Refers rs [] h = tt
  snoc-Refers rs (e ∷ hs) (h, t) = (found_snoc e.resource_id rs h, snoc-Refers rs hs t)

  pub insert-IsValid :
      (db : Database)
      → IsValid db
      → new.id ≡ db.next_resource_id
      → any (λ (q : Resource). q.name == new.name) db.resources ≡ false
      → RowIsValid new
      → IsValid (record db {
        resources = db.resources ++ new ∷ [];
        next_resource_id = suc db.next_resource_id;
      })
  insert-IsValid db h i n v = record {
    unique =
        snoc-UniqueRows db.resources h.unique
          (rw i (find_of_below db.next_resource_id db.resources h.below)) n;
    below =
        All-snoc (λ r. r.id < suc db.next_resource_id) db.resources
          (RowsBelow-suc db.next_resource_id db.resources h.below) (omega arith);
    rows = All-snoc RowIsValid db.resources h.rows v;
    refers = snoc-Refers db.resources db.history h.refers;
  }

pub skip_id-IsValid :
    (db : Database)
    → IsValid db
    → IsValid (record db { next_resource_id = suc db.next_resource_id })
skip_id-IsValid db h = record {
  unique = h.unique;
  below = RowsBelow-suc db.next_resource_id db.resources h.below;
  rows = h.rows;
  refers = h.refers;
}

module _ (p : Resource → Bool) where
  pub find-delete :
      (i : ℕ) (rs : List Resource)
      → find (has_id i) rs ≡ none
      → find (has_id i) (delete_where p rs) ≡ none
  find-delete i [] h = refl
  find-delete i (r ∷ rs) h = ground (arith, find-delete i rs)

  any-delete :
      (n : String) (rs : List Resource)
      → any (λ (q : Resource). q.name == n) rs ≡ false
      → any (λ (q : Resource). q.name == n) (delete_where p rs) ≡ false
  any-delete n [] h = refl
  any-delete n (r ∷ rs) h = ground (arith, any-delete n rs)

  delete-UniqueRows : (rs : List Resource) → UniqueRows rs → UniqueRows (delete_where p rs)
  delete-UniqueRows [] h = tt
  delete-UniqueRows (r ∷ rs) h =
      ground (arith, find-delete r.id rs, any-delete r.name rs, delete-UniqueRows rs)

  All-delete : (P : Resource → Type 0) (rs : List Resource) → All P rs → All P (delete_where p rs)
  All-delete P [] h = tt
  All-delete P (r ∷ rs) (h, hs) = elim (Bool-cases (p r)) [
    | inl e ↦ rw e (All-delete P rs hs)
    | inr e ↦ rw e (h, All-delete P rs hs)
  ]

-- Deleting one resource is not seen at the others.
pub find-delete_ne :
    (i j : ℕ) (rs : List Resource)
    → j ≢ i
    → find (has_id j) (delete_where (deletable i) rs) ≡ find (has_id j) rs
find-delete_ne i j [] d = refl
find-delete_ne i j (r ∷ rs) d = ground (arith, find-delete_ne i j rs d)

delete-Refers :
    (i : ℕ) (rs : List Resource) (hs : List History)
    → Refers rs hs
    → Refers (delete_where (deletable i) rs) (delete_where (λ (h : History). h.resource_id == i) hs)
delete-Refers i rs [] h = tt
delete-Refers i rs (e ∷ hs) (h, t) =
    ground (arith, find-delete_ne i e.resource_id rs, delete-Refers i rs hs t)

pub delete-IsValid :
    (i : ℕ) (db : Database)
    → IsValid db
    → IsValid (record db {
      resources = delete_where (deletable i) db.resources;
      history = delete_where (λ (h : History). h.resource_id == i) db.history;
    })
delete-IsValid i db h = record {
  unique = delete-UniqueRows (deletable i) db.resources h.unique;
  below = All-delete (deletable i) (λ r. r.id < db.next_resource_id) db.resources h.below;
  rows = All-delete (deletable i) RowIsValid db.resources h.rows;
  refers = delete-Refers i db.resources db.history h.refers;
}

pub Refers-snoc :
    (rs : List Resource) (e : History) (hs : List History)
    → Refers rs hs
    → find (has_id e.resource_id) rs ≢ none
    → Refers rs (hs ++ e ∷ [])
Refers-snoc rs e [] h f = (f, tt)
Refers-snoc rs e (x ∷ hs) (h, t) f = (h, Refers-snoc rs e hs t f)
