-- ===== src/Db/Queue/Selection.antt =====
-- What the query of src/db.py `get_resources_needing_reconciliation` returns: the resources that are
-- due, the most urgent first, cut at the limit.
use mathlib.Core.List.{Perm}
use no8s_operator.Base.{
  ℕ, suc, ◌≤◌, min, ◌≡◌, ap, ◌∙◌, ◌≢◌, ◌↔◌, true, false, Option, none, some, List, [], ◌∷◌, ◌++◌,
  arith, filter, drop, length, length-take, take-append-drop, All, ◌⊎◌,
}
use no8s_operator.Base.Sort.{sort, length-sort, sort-perm, sort-IsSorted, take-before-drop}
use no8s_operator.Db.Rows.{pending, reconciling, failed, deleting, status_eq, Resource, Database}
use no8s_operator.Db.Queue.{needs_reconciliation, before, get_resources_needing_reconciliation}

before_total : (a b : Resource) → before a b ≡ false → before b a ≡ true
unfolding before
before_total a b h = ground arith

before_trans : (a b c : Resource) → before a b ≡ true → before b c ≡ true → before a c ≡ true
unfolding before
before_trans a b c h k = ground arith

-- A time that is set and has come.
abbrev pub HasCome : ℕ → Option ℕ → Type 0
HasCome now none = ⊥
HasCome now (some t) = t ≤ now

-- A live resource has something to do: it is new, changed since it was last observed, or its next
-- reconcile time has come.
abbrev pub HasWork : ℕ → Resource → Type 0
HasWork now r =
    (r.last_reconcile_time ≡ none)
    ⊎ ((suc r.observed_generation ≤ r.generation) ⊎ HasCome now r.next_reconcile_time)

-- A resource is due exactly when it is not being reconciled, and is either being deleted, or live
-- and new, changed since it was last observed, or past its next reconcile time.
pub needs_reconciliation_iff :
    (now : ℕ) (r : Resource)
    → (needs_reconciliation now r ≡ true) ↔ (
        (r.status ≢ reconciling)
        × ((r.status ≡ deleting) ⊎ ((r.deleted_at ≡ none) × HasWork now r)))
unfolding needs_reconciliation
needs_reconciliation_iff now r = ground arith

-- Those whose turn is none of deleting, pending and failed.
abbrev pub IsOther : Resource → Type 0
IsOther r = (r.status ≢ deleting) × (r.status ≢ pending) × (r.status ≢ failed)

-- A time that is not set comes first.
abbrev pub NoLater : Option ℕ → Option ℕ → Type 0
NoLater none u = Unit
NoLater (some t) none = ⊥
NoLater (some t) (some u) = t ≤ u

-- Resources that are being deleted come first, then the pending ones, then the failed ones, then all
-- others; within one of these four, the one whose next reconcile time is no later.
abbrev pub Precedes : Resource → Resource → Type 0
Precedes a b =
    ((a.status ≡ deleting) × (b.status ≢ deleting))
    ⊎ (((a.status ≡ pending) × ((b.status ≡ failed) ⊎ IsOther b))
        ⊎ (((a.status ≡ failed) × IsOther b)
            ⊎ (((a.status ≡ b.status) ⊎ (IsOther a × IsOther b))
                × NoLater a.next_reconcile_time b.next_reconcile_time)))

before-Precedes : (a b : Resource) → before a b ≡ true → Precedes a b
unfolding before
before-Precedes a b h = ground arith

All-Precedes :
    (s : Resource) (rs : List Resource) → All (λ r. before s r ≡ true) rs → All (Precedes s) rs
All-Precedes s [] h = tt
All-Precedes s (r ∷ rs) h = (before-Precedes s r h.0, All-Precedes s rs h.1)

All-each :
    (rs ss : List Resource)
    → All (λ s. All (λ r. before s r ≡ true) rs) ss
    → All (λ s. All (Precedes s) rs) ss
All-each rs [] h = tt
All-each rs (s ∷ ss) h = (All-Precedes s rs h.0, All-each rs ss h.1)

module _ (now limit : ℕ) (db : Database) where
  abbrev pub needing : List Resource
  needing = filter (needs_reconciliation now) db.resources

  abbrev pub selected : List Resource
  selected = get_resources_needing_reconciliation now limit db

  -- The query leaves out only what the limit cuts off: the resources returned and some others are
  -- together exactly the resources that are due, as many are returned as the limit allows, and each
  -- one returned comes before each one left out: first those being deleted, then the pending, then the
  -- failed, then the others, and within each of these by the next reconcile time, unset ones first.
  pub selected_first :
      (rest : List Resource) × Perm (selected ++ rest) needing
      × (length selected ≡ min limit (length needing))
      × All (λ s. All (Precedes s) rest) selected
  unfolding get_resources_needing_reconciliation
  selected_first = (
    drop limit (sort before needing),
    rw take-append-drop (sort-perm before needing),
    length-take limit (sort before needing) ∙ ap (min limit) (length-sort before needing),
    All-each (drop limit (sort before needing)) selected (
        take-before-drop before limit (sort before needing)
          (sort-IsSorted before before_total before_trans needing)),
  )
