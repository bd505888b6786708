-- ===== src/Db/Conditions.antt =====
-- `set_condition` of src/db.py: one named condition of a resource.
pub mod Laws
use no8s_operator.Base.{
  ℕ, String, ◌≡◌, Bool, not, Option, none, some, List, [], ◌∷◌, ◌++◌, ◌==◌, if◌then◌else◌,
  string_eq, filter, find,
}
use no8s_operator.Base.Result.{Action, modify}
use no8s_operator.Db.Rows.{Condition, Resource, Database}
use no8s_operator.Db.Resources.{row, update_row}

abbrev pub of_type : String → Condition → Bool
of_type t c = c.type == t

-- No condition type is listed twice.
abbrev pub UniqueTypes : List Condition → Type 0
UniqueTypes [] = Unit
UniqueTypes (c ∷ cs) = (find (of_type c.type) cs ≡ none) × UniqueTypes cs

-- The time of the last change: kept where the status is the one already there.
unfoldable pub last_transition : ℕ → Option Condition → String → ℕ
last_transition now none status = now
last_transition now (some c) status = if c.status == status then c.last_transition_time else now

-- The list that is written back: the named condition goes to the end.
unfoldable pub with_condition :
    ℕ → String → String → String → String → ℕ → List Condition → List Condition
unfolding last_transition
with_condition now condition_type status reason message observed_generation conditions =
    filter (λ c. not (of_type condition_type c)) conditions
    ++ record {
      type = condition_type;
      status = status;
      reason = reason;
      message = message;
      last_transition_time = last_transition now (find (of_type condition_type) conditions) status;
      observed_generation = observed_generation;
    }
      ∷ []

-- The `UPDATE`, with the list that the `SELECT` of the same method returned.
abbrev pub with_conditions : ℕ → List Condition → Resource → Resource
with_conditions now cs r = record r { conditions = cs; updated_at = now }

unfoldable pub conditioned : ℕ → ℕ → String → String → String → String → ℕ → Database → Database
conditioned now i condition_type status reason message observed_generation db = elim (row i db) [
  | none ↦ db
  | some current ↦
      update_row i
        (with_conditions now (
          with_condition now condition_type status reason message observed_generation
            current.conditions))
        db
]

unfoldable pub set_condition :
    ℕ → ℕ → String → String → String → String → ℕ → Action Database (Unit {0})
set_condition now i condition_type status reason message observed_generation =
    modify (conditioned now i condition_type status reason message observed_generation)
