-- ===== src/Db/Finalizers/Laws.antt =====
-- Finalizers guard the hard delete: src/db.py, `hard_delete_resource` and the methods beside it.
use no8s_operator.Base.{
  ℕ, String, ◌≡◌, refl, ◌≢◌, Bool, true, false, ◌&&◌, none, List, [], ◌∷◌, ◌++◌, arith, ◌==◌,
  if◌then◌else◌, string_eq, nat_eq, contains, inl, inr, Option-cases,
}
use no8s_operator.Db.Rows.{Database}
use no8s_operator.Db.Resources.{row}
use no8s_operator.Db.Resources.Laws.{row-update_row}
use no8s_operator.Db.Finalizers.{
  with_finalizer, protected, add_finalizer, without_finalizer, released, remove_finalizer,
  get_finalizers,
}

contains-without_finalizer :
    (f g : String) (fs : List String)
    → contains (without_finalizer f fs) g ≡ (if g == f then false else contains fs g)
contains-without_finalizer f g [] = ground arith
contains-without_finalizer f g (h ∷ fs) = ground (arith, contains-without_finalizer f g fs)

pub contains-without_finalizer_self :
    (f : String) (fs : List String) → contains (without_finalizer f fs) f ≡ false
contains-without_finalizer_self f fs = ground (arith, contains-without_finalizer f f fs)

contains-snoc :
    (f g : String) (fs : List String)
    → contains (fs ++ f ∷ []) g ≡ (if g == f then true else contains fs g)
contains-snoc f g [] = ground arith
contains-snoc f g (h ∷ fs) = ground (arith, contains-snoc f g fs)

pub contains-with_finalizer :
    (f g : String) (fs : List String)
    → contains (with_finalizer f fs) g ≡ (if g == f then true else contains fs g)
contains-with_finalizer f g fs = ground (arith, contains-snoc f g fs)

abbrev pub held : ℕ → String → Database → Bool
held j g db = contains (get_finalizers j db) g

module _ (now i j : ℕ) (f g : String) (db : Database) where
  -- After a removal the list of the resource holds exactly the other names that it held, and the
  -- lists of all other resources hold what they held.
  pub held-remove_finalizer :
      held j g (remove_finalizer now i f db).1 ≡ (if j == i && g == f then false else held j g db)
  unfolding get_finalizers remove_finalizer
  held-remove_finalizer = elim (Option-cases (row j db)) [
    | inl gone ↦ ground (arith, row-update_row i j (released now f) db (λ r. refl))
    | inr (r, e) ↦ ground (
      arith,
      row-update_row i j (released now f) db (λ r. refl),
      contains-without_finalizer f g r.finalizers,
    )
  ]

  -- Adding a finalizer to a resource that is there adds that name and no other, there and nowhere
  -- else.
  pub held-add_finalizer :
      row i db ≢ none
      → held j g (add_finalizer now i f db).1 ≡ (if j == i && g == f then true else held j g db)
  unfolding get_finalizers add_finalizer
  held-add_finalizer exists = elim (Option-cases (row j db)) [
    | inl gone ↦ ground (arith, row-update_row i j (protected now f) db (λ r. refl))
    | inr (r, e) ↦ ground (
      arith,
      row-update_row i j (protected now f) db (λ r. refl),
      contains-with_finalizer f g r.finalizers,
    )
  ]

-- Adding a finalizer that is already there changes no list.
pub add_finalizer_again :
    (now i : ℕ) (f : String) (db : Database)
    → held i f db ≡ true
    → get_finalizers i (add_finalizer now i f db).1 ≡ get_finalizers i db
unfolding get_finalizers add_finalizer
add_finalizer_again now i f db h = elim (Option-cases (row i db)) [
  | inl gone ↦ ground (arith, row-update_row i i (protected now f) db (λ r. refl))
  | inr (r, e) ↦ ground (arith, row-update_row i i (protected now f) db (λ r. refl))
]
