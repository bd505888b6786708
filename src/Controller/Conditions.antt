-- ===== src/Controller/Conditions.antt =====
-- Several conditions of one resource set in a row, as src/controller.py does after each outcome.
use mathlib.Core.Option
use no8s_operator.Base.{
  ℕ, String, ◌≡◌, refl, ap, ◌∙◌, Option, some, List, [], ◌∷◌, arith, ◌==◌, if◌then◌else◌, string_eq,
  nat_eq, find, inl, inr, Option-cases,
}
use no8s_operator.Db.Rows.{Condition, Resource, Database}
use no8s_operator.Db.Resources.{row}
use no8s_operator.Db.Conditions.{of_type, set_condition}
use no8s_operator.Db.Conditions.Laws.{
  row-set_condition, condition_of-set_condition, set_condition_absent,
}

-- The status of the condition of a type: "True", "False" or "Unknown".
abbrev pub state_of : String → Resource → Option String
state_of t r = Option.map (λ (c : Condition). c.status) (find (of_type t) r.conditions)

abbrev pub Setting : Type 0
Setting = String × String × String × String

abbrev pub set_all : ℕ → ℕ → ℕ → List Setting → Database → Database
set_all now i g [] db = db
set_all now i g ((t, s, reason, m) ∷ cs) db =
    set_all now i g cs (set_condition now i t s reason m g db).1

abbrev pub last_state : String → List Setting → Option String → Option String
last_state u [] d = d
last_state u ((t, s, _, _) ∷ cs) d = last_state u cs (if u == t then some s else d)

-- What setting conditions leaves alone in a row.
abbrev pub Alike : Resource → Resource → Type 0
Alike a b =
    (a.status ≡ b.status)
    × (a.observed_generation ≡ b.observed_generation)
    × (a.generation ≡ b.generation)
    × (a.finalizers ≡ b.finalizers)

row_after :
    (now i g : ℕ) (t s reason m : String) (db : Database) (r' : Resource)
    → row i (set_condition now i t s reason m g db).1 ≡ some r'
    → (r : Resource) × (row i db ≡ some r)
      × Alike r r'
      × ((u : String) → state_of u r' ≡ (if u == t then some s else state_of u r))
row_after now i g t s reason m db r' e = elim (Option-cases (row i db)) [
  | inl gone ↦ absurd (ground (arith, set_condition_absent now i t s reason m g db gone))
  | inr (r, here) ↦ (
    r,
    here,
    ground (arith, row-set_condition now i t s reason m g db here i),
    λ u. ground (arith, condition_of-set_condition now i t s reason m g db here i u),
  )
]

pub row-set_all :
    (now i g : ℕ) (cs : List Setting) (db : Database) (r' : Resource)
    → row i (set_all now i g cs db) ≡ some r'
    → (r : Resource) × (row i db ≡ some r)
      × Alike r r'
      × ((u : String) → state_of u r' ≡ last_state u cs (state_of u r))
row-set_all now i g [] db r' e = (r', e, (refl, refl, refl, refl), λ u. refl)
row-set_all now i g ((t, s, reason, m) ∷ cs) db r' e =
    let (r1, e1, a1, s1) = row-set_all now i g cs (set_condition now i t s reason m g db).1 r' e in
    let (r, e0, a0, s0) = row_after now i g t s reason m db r1 e1 in
    (r, e0, ground arith, λ u. s1 u ∙ ap (last_state u cs) (s0 u))
