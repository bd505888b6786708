-- ===== src/Db/Conditions/Laws.antt =====
-- Conditions of one resource: src/db.py, `set_condition`.
use no8s_operator.Base.{
  ℕ, String, ◌≡◌, ◌≢◌, refl, ap, false, not, Option, none, some, List, [], ◌∷◌, ◌++◌, arith, ◌==◌,
  if◌then◌else◌, string_eq, nat_eq, filter, find, ◌&&◌, ◌⊎◌, inl, inr, Option-cases,
}
use no8s_operator.Db.Rows.{Condition, Resource, Database}
use no8s_operator.Db.Resources.{row}
use no8s_operator.Db.Resources.Laws.{row-update_row}
use no8s_operator.Db.Conditions.{
  of_type, UniqueTypes, last_transition, with_conditions, with_condition, conditioned,
  set_condition,
}

find-filter_type :
    (t u : String) (cs : List Condition)
    → find (of_type t) (filter (λ c. not (of_type u c)) cs)
      ≡ (if t == u then none else find (of_type t) cs)
find-filter_type t u [] = ground arith
find-filter_type t u (c ∷ cs) = ground (arith, find-filter_type t u cs)

find-snoc :
    (t : String) (c : Condition) (cs : List Condition)
    → find (of_type t) cs ≡ none
    → find (of_type t) (cs ++ c ∷ []) ≡ (if c.type == t then some c else none)
find-snoc t c [] h = refl
find-snoc t c (d ∷ cs) h = ground (arith, find-snoc t c cs)

find_last :
    (t : String) (c : Condition) (cs : List Condition)
    → c.type ≡ t
    → find (of_type t) (filter (λ d. not (of_type t d)) cs ++ c ∷ []) ≡ some c
find_last t c cs e =
    ground (arith, find-snoc t c (filter (λ d. not (of_type t d)) cs), find-filter_type t t cs)

find-snoc_ne :
    (t : String) (c : Condition) (cs : List Condition)
    → (c.type == t) ≡ false
    → find (of_type t) (cs ++ c ∷ []) ≡ find (of_type t) cs
find-snoc_ne t c [] h = ground arith
find-snoc_ne t c (d ∷ cs) h = ground (arith, find-snoc_ne t c cs)

UniqueTypes-filter :
    (u : String) (cs : List Condition)
    → UniqueTypes cs
    → UniqueTypes (filter (λ c. not (of_type u c)) cs)
UniqueTypes-filter u [] h = tt
UniqueTypes-filter u (c ∷ cs) h =
    ground (arith, find-filter_type c.type u cs, UniqueTypes-filter u cs h.1)

UniqueTypes-snoc :
    (c : Condition) (cs : List Condition)
    → UniqueTypes cs
    → find (of_type c.type) cs ≡ none
    → UniqueTypes (cs ++ c ∷ [])
UniqueTypes-snoc c [] h e = (refl, tt)
UniqueTypes-snoc c (d ∷ cs) h e = ground (arith, find-snoc d.type c cs, UniqueTypes-snoc c cs h.1)

module _ (now : ℕ) (type status reason message : String) (generation : ℕ)
    (cs : List Condition) where
  abbrev updated : List Condition
  updated = with_condition now type status reason message generation cs

  -- A list with one entry for each type still has one after the update.
  pub with_condition-UniqueTypes : UniqueTypes cs → UniqueTypes updated
  unfolding with_condition
  with_condition-UniqueTypes h =
      UniqueTypes-snoc _ _ (UniqueTypes-filter type cs h)
        (ground (arith, find-filter_type type type cs))

-- The condition of a type, as the list of a resource shows it.
abbrev pub condition_of : ℕ → String → Database → Option Condition
condition_of i t db = elim (row i db) [ none ↦ none | some r ↦ find (of_type t) r.conditions ]

module _ (now i : ℕ) (type status reason message : String) (generation : ℕ) {r : Resource}
    (db : Database) (exists : row i db ≡ some r) where
  abbrev pub after : Database
  after = (set_condition now i type status reason message generation db).1

  abbrev written : Condition
  written = record {
    type = type;
    status = status;
    reason = reason;
    message = message;
    last_transition_time = last_transition now (find (of_type type) r.conditions) status;
    observed_generation = generation;
  }

  abbrev rewritten : List Condition
  rewritten = filter (λ c. not (of_type type c)) r.conditions ++ written ∷ []

  pub row-set_condition :
      (j : ℕ) → row j after ≡ (if j == i then some (with_conditions now rewritten r) else row j db)
  unfolding set_condition conditioned with_condition
  row-set_condition j =
      ground (arith, row-update_row i j (with_conditions now rewritten) db (λ q. refl))

  pub condition_of-set_condition :
      (j : ℕ) (t : String)
      → condition_of j t after ≡ (if j == i && t == type then some written else condition_of j t db)
  condition_of-set_condition j t = ground (
    arith,
    row-set_condition j,
    find_last type written r.conditions,
    find-snoc_ne t written (filter (λ c. not (of_type type c)) r.conditions),
    find-filter_type t type r.conditions,
  )

  -- The named condition holds the new status, reason, message and generation afterwards; its transition time is kept exactly where
  -- the condition was there with the same status, and is the present otherwise.
  pub set_condition_updates :
      (c : Condition) × (condition_of i type after ≡ some c)
      × (c.type ≡ type)
      × (c.status ≡ status)
      × (c.reason ≡ reason)
      × (c.message ≡ message)
      × (c.observed_generation ≡ generation)
      × ((old : Condition)
          → condition_of i type db ≡ some old
          → old.status ≡ status
          → c.last_transition_time ≡ old.last_transition_time)
      × ((old : Condition)
          → condition_of i type db ≡ some old
          → old.status ≢ status
          → c.last_transition_time ≡ now)
      × (condition_of i type db ≡ none → c.last_transition_time ≡ now)
  unfolding last_transition
  set_condition_updates = (
    written,
    ground (arith, condition_of-set_condition i type),
    refl,
    refl,
    refl,
    refl,
    refl,
    λ old e same. ground arith,
    λ old e differs. ground arith,
    λ e. ground arith,
  )

pub set_condition_absent :
    (now i : ℕ) (type status reason message : String) (generation : ℕ) (db : Database)
    → row i db ≡ none
    → (set_condition now i type status reason message generation db).1 ≡ db
unfolding set_condition conditioned
set_condition_absent now i type status reason message generation db gone = ground arith

-- Setting one condition of one resource leaves the other types and the other resources alone,
-- whether the resource is there or not.
pub set_condition_others :
    (now i j : ℕ) (type t status reason message : String) (generation : ℕ) (db : Database)
    → (j ≢ i) ⊎ (t ≢ type)
    → condition_of j t (set_condition now i type status reason message generation db).1
      ≡ condition_of j t db
set_condition_others now i j type t status reason message generation db other =
    elim (Option-cases (row i db)) [
      | inl gone ↦
          ap (condition_of j t)
            (set_condition_absent now i type status reason message generation db gone)
      | inr (r, e) ↦
          ground
            (arith, condition_of-set_condition now i type status reason message generation db e j t)
    ]
