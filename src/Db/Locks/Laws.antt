-- ===== src/Db/Locks/Laws.antt =====
-- Who holds a lock after the methods of src/db.py on the table `locks`.
use no8s_operator.Base.{
  ℕ, ◌<◌, String, ◌≡◌, refl, ◌≢◌, ◌↔◌, Bool, true, false, ◌&&◌, Option, none, some, List, [], ◌∷◌,
  ◌++◌, arith, ◌==◌, if◌then◌else◌, string_eq, find, update_where, delete_where, inl, inr,
  Option-cases, ◌⊎◌,
}
use no8s_operator.Base.Result.{ok}
use no8s_operator.Db.Rows.{Lock, Database}
use no8s_operator.Db.Locks.{
  has_key, expires, taken, lock_of, acquire_or_renew_lock, held_by, release_lock,
}

-- One row for each key.
abbrev pub UniqueKeys : List Lock → Type 0
UniqueKeys [] = Unit
UniqueKeys (l ∷ ls) = (find (has_key l.resource_key) ls ≡ none) × UniqueKeys ls

find-snoc :
    (k : String) (l : Lock) (ls : List Lock)
    → find (has_key k) ls ≡ none
    → find (has_key k) (ls ++ l ∷ []) ≡ (if l.resource_key == k then some l else none)
find-snoc k l [] h = refl
find-snoc k l (m ∷ ls) h = ground (arith, find-snoc k l ls)

find-snoc_ne :
    (k : String) (l : Lock) (ls : List Lock)
    → l.resource_key ≢ k
    → find (has_key k) (ls ++ l ∷ []) ≡ find (has_key k) ls
find-snoc_ne k l [] h = ground arith
find-snoc_ne k l (m ∷ ls) h = ground (arith, find-snoc_ne k l ls h)

find-retake :
    (k j : String) (l : Lock) (ls : List Lock)
    → l.resource_key ≡ j
    → find (has_key k) (update_where (has_key j) (λ _. l) ls) ≡ (
        if k == j
        then elim (find (has_key k) ls) [ none ↦ none | some _ ↦ some l ]
        else find (has_key k) ls)
find-retake k j l [] e = ground arith
find-retake k j l (m ∷ ls) e = ground (arith, find-retake k j l ls e)

-- A lock that `holder` may take: no row, an expired one, or its own.
abbrev pub Takeable : ℕ → String → Option Lock → Type 0
Takeable now holder none = Unit
Takeable now holder (some l) = (expires l < now) ⊎ (l.holder_id ≡ holder)

module _ (now : ℕ) (key holder : String) (lease : ℕ) (db : Database) where
  abbrev pub Answer : Bool → Type 0
  Answer b = (acquire_or_renew_lock now key holder lease db).0 ≡ ok b

  abbrev pub after : Database
  after = (acquire_or_renew_lock now key holder lease db).1

  -- The call answers true exactly where the lock is free, expired or the caller's own; it then holds
  -- the lock from now on, and else nothing has changed. No other lock is touched.
  pub acquire_or_renew_lock_iff :
      (Answer true ↔ Takeable now holder (lock_of key db))
      × (Answer true → lock_of key after ≡ some (taken now key holder lease))
      × (Answer false → after ≡ db)
      × ((k : String) → k ≢ key → lock_of k after ≡ lock_of k db)
  unfolding acquire_or_renew_lock
  acquire_or_renew_lock_iff = elim (Option-cases (lock_of key db)) [
    | inl free ↦
        rw (free, acquire_or_renew_lock)
          (
            (λ _. tt, λ _. refl),
            λ _. ground (arith, find-snoc key (taken now key holder lease) db.locks),
            λ e. cc,
            λ k d. ground (arith, find-snoc_ne k (taken now key holder lease) db.locks),
          )
    | inr (l, found) ↦
        rw (found, acquire_or_renew_lock)
          (
            (λ e. ground arith, λ t. ground arith),
            λ e. ground (arith, find-retake key key (taken now key holder lease) db.locks refl),
            λ e. ground arith,
            λ k d. ground (arith, find-retake k key (taken now key holder lease) db.locks refl),
          )
  ]

find-release_ne :
    (k : String) (p : Lock → Bool) (ls : List Lock)
    → find (has_key k) ls ≡ none
    → find (has_key k) (delete_where p ls) ≡ none
find-release_ne k p [] h = refl
find-release_ne k p (l ∷ ls) h = ground (arith, find-release_ne k p ls)

find-release :
    (k key holder : String) (ls : List Lock)
    → UniqueKeys ls
    → find (has_key k) (delete_where (held_by key holder) ls) ≡ elim (find (has_key k) ls) [
      | none ↦ none
      | some l ↦ if k == key && l.holder_id == holder then none else some l
    ]
find-release k key holder [] u = refl
find-release k key holder (l ∷ ls) u =
    ground (arith, find-release k key holder ls u.1, find-release_ne k (held_by key holder) ls)

-- A release takes away the caller's own lock of that key, and no other.
pub lock_of-release_lock :
    (k key holder : String) (db : Database)
    → UniqueKeys db.locks
    → lock_of k (release_lock key holder db).1 ≡ elim (lock_of k db) [
      | none ↦ none
      | some l ↦ if k == key && l.holder_id == holder then none else some l
    ]
unfolding release_lock
lock_of-release_lock k key holder db u = find-release k key holder db.locks u

UniqueKeys-snoc :
    (l : Lock) (ls : List Lock)
    → UniqueKeys ls
    → find (has_key l.resource_key) ls ≡ none
    → UniqueKeys (ls ++ l ∷ [])
UniqueKeys-snoc l [] u e = (refl, tt)
UniqueKeys-snoc l (m ∷ ls) u e =
    ground (arith, find-snoc_ne m.resource_key l ls, UniqueKeys-snoc l ls u.1)

UniqueKeys-retake :
    (j : String) (l : Lock) (ls : List Lock)
    → l.resource_key ≡ j
    → UniqueKeys ls
    → UniqueKeys (update_where (has_key j) (λ _. l) ls)
UniqueKeys-retake j l [] e u = tt
UniqueKeys-retake j l (m ∷ ls) e u =
    ground (arith, find-retake m.resource_key j l ls e, UniqueKeys-retake j l ls e u.1)

UniqueKeys-delete :
    (p : Lock → Bool) (ls : List Lock) → UniqueKeys ls → UniqueKeys (delete_where p ls)
UniqueKeys-delete p [] u = tt
UniqueKeys-delete p (l ∷ ls) u =
    ground (arith, find-release_ne l.resource_key p ls u.0, UniqueKeys-delete p ls u.1)

pub acquire-UniqueKeys :
    (now : ℕ) (key holder : String) (lease : ℕ) (db : Database)
    → UniqueKeys db.locks
    → UniqueKeys (acquire_or_renew_lock now key holder lease db).1.locks
unfolding acquire_or_renew_lock
acquire-UniqueKeys now key holder lease db u = elim (Option-cases (lock_of key db)) [
  | inl free ↦
      rw (free, acquire_or_renew_lock)
        (UniqueKeys-snoc (taken now key holder lease) db.locks u free)
  | inr (l, found) ↦
      rw (found, acquire_or_renew_lock)
        (ground (arith, u, UniqueKeys-retake key (taken now key holder lease) db.locks refl u))
]

pub release-UniqueKeys :
    (key holder : String) (db : Database)
    → UniqueKeys db.locks
    → UniqueKeys (release_lock key holder db).1.locks
unfolding release_lock
release-UniqueKeys key holder db u = UniqueKeys-delete (held_by key holder) db.locks u

-- The method always answers.
pub acquire_answers :
    (now : ℕ) (key holder : String) (lease : ℕ) (db : Database)
    → ((acquire_or_renew_lock now key holder lease db).0 ≡ ok true)
      ⊎ ((acquire_or_renew_lock now key holder lease db).0 ≡ ok false)
unfolding acquire_or_renew_lock
acquire_answers now key holder lease db = ground arith
