-- ===== src/Controller/Deletion.antt =====
-- What src/controller.py leaves of a resource whose external resources it has destroyed.
use mathlib.Core.Option
use mathlib.Core.Path.{subst}
use no8s_operator.Base.{
  ℕ, String, ◌≡◌, refl, ap, ◌∙◌, Bool, true, none, some, List, [], ◌∷◌, arith, inl, inr, string_eq,
  nat_eq, All, find, update_where, delete_where, Option-cases, Bool-cases,
}
use no8s_operator.Db.Rows.{Condition, Resource, Database}
use no8s_operator.Db.Resources.{has_id, row, update_row}
use no8s_operator.Db.Resources.Laws.{row-update_row}
use no8s_operator.Db.Finalizers.{released, remove_finalizer, get_finalizers}
use no8s_operator.Db.Finalizers.Laws.{contains-without_finalizer_self}
use no8s_operator.Db.Conditions.{
  of_type, with_condition, with_conditions, conditioned, set_condition,
}
use no8s_operator.Controller.{World}
use no8s_operator.Controller.Conditions.{state_of, set_all, row-set_all}
use no8s_operator.Controller.Outcomes.{IsDestroyed, deletion_settings}
use no8s_operator.Controller.Reconcile.{finish_deletion, hard_delete_if_free}

-- What holds of every row with an identity.
abbrev pub EachRow : ℕ → (Resource → Type 0) → List Resource → Type 0
EachRow i P rs = All (λ q. has_id i q ≡ true → P q) rs

each-absent :
    (i : ℕ) (P : Resource → Type 0) (rs : List Resource)
    → find (has_id i) rs ≡ none
    → EachRow i P rs
each-absent i P [] e = tt
each-absent i P (q ∷ rs) e = (λ h. absurd (ground arith), each-absent i P rs (ground arith))

each-map :
    (i : ℕ) (P Q : Resource → Type 0) (f : Resource → Resource) (rs : List Resource)
    → ((q : Resource) → (f q).id ≡ q.id)
    → ((q : Resource) → P q → Q (f q))
    → EachRow i P rs
    → EachRow i Q (update_where (has_id i) f rs)
each-map i P Q f [] keep h all = tt
each-map i P Q f (q ∷ rs) keep h all = (
  elim (Bool-cases (has_id i q)) [
    | inl y ↦ rw y (λ z. h q (all.0 y))
    | inr n ↦ rw n (λ z. absurd (ground arith))
  ],
  each-map i P Q f rs keep h all.1,
)

each-implied :
    (i : ℕ) (P Q : Resource → Type 0) (rs : List Resource)
    → ((q : Resource) → P q → Q q)
    → EachRow i P rs
    → EachRow i Q rs
each-implied i P Q [] h all = tt
each-implied i P Q (q ∷ rs) h all = (λ y. h q (all.0 y), each-implied i P Q rs h all.1)

same_state :
    (t : String) (q x : Resource) → x.conditions ≡ q.conditions → state_of t x ≡ state_of t q
same_state t q x e = ap (λ cs. Option.map (λ (c : Condition). c.status) (find (of_type t) cs)) e

each-trivial : (i : ℕ) (rs : List Resource) → EachRow i (λ q. Unit) rs
each-trivial i [] = tt
each-trivial i (q ∷ rs) = (λ h. tt, each-trivial i rs)

pub each-row :
    (i : ℕ) (P : Resource → Type 0) (rs : List Resource) (q : Resource)
    → EachRow i P rs
    → find (has_id i) rs ≡ some q
    → P q
each-row i P [] q all e = absurd (ground arith)
each-row i P (x ∷ rs) q all e = elim (Bool-cases (has_id i x)) [
  | inl y ↦ subst P (ground arith) (all.0 y)
  | inr n ↦ each-row i P rs q all.1 (ground arith)
]

-- A deletion of rows leaves the others as they are.
pub each-find :
    (i : ℕ) (P : Resource → Type 0) (p : Resource → Bool) (rs : List Resource) (q : Resource)
    → EachRow i P rs
    → find (has_id i) (delete_where p rs) ≡ some q
    → P q
each-find i P p [] q all e = absurd (ground arith)
each-find i P p (x ∷ rs) q all e = elim (Bool-cases (p x)) [
  | inl gone ↦ each-find i P p rs q all.1 (ground arith)
  | inr stays ↦ elim (Bool-cases (has_id i x)) [
    | inl y ↦ subst P (ground arith) (all.0 y)
    | inr n ↦ each-find i P p rs q all.1 (ground arith)
  ]
]

module _ (now : ℕ) (r : Resource) (w : World) where
  unfoldable pub settings_db : Database
  settings_db = set_all now r.id r.generation deletion_settings w.db

  unfoldable pub deletion_db : Database
  unfolding settings_db
  deletion_db = update_row r.id (released now r.action_plugin) settings_db

  pub deletion_effect :
      (finish_deletion now r w).1.db
      ≡ (hard_delete_if_free r
          (get_finalizers r.id deletion_db)
          (record w { db = deletion_db })).1.db
  unfolding finish_deletion settings_db deletion_db set_condition remove_finalizer
  deletion_effect = refl

  Conditioned : Resource → Type 0
  Conditioned q = (state_of "Ready" q ≡ some "Unknown") × (state_of "Reconciling" q ≡ some "False")

  each-conditioned :
      (t s reason m : String) (g : ℕ) (db : Database) (q : Resource)
      → row r.id (conditioned now r.id t s reason m g db) ≡ some q
      → EachRow r.id
          (λ x. x.conditions ≡ q.conditions)
          (conditioned now r.id t s reason m g db).resources
  unfolding conditioned
  each-conditioned t s reason m g db q e = elim (Option-cases (row r.id db)) [
    | inl gone ↦ absurd (ground arith)
    | inr (x, here) ↦
        let cs = with_condition now t s reason m g x.conditions in
        rw (here, conditioned)
          (each-map r.id (λ y. Unit) (λ y. y.conditions ≡ q.conditions) (with_conditions now cs)
            db.resources (λ y. refl)
            (λ y u.
              ground (arith, row-update_row r.id r.id (with_conditions now cs) db (λ z. refl)))
            (each-trivial r.id db.resources))
  ]

  settings_db-EachRow : EachRow r.id Conditioned settings_db.resources
  unfolding settings_db Conditioned set_condition string_eq
  settings_db-EachRow = elim (Option-cases (row r.id settings_db)) [
    | inl gone ↦ each-absent r.id Conditioned settings_db.resources gone
    | inr (q, here) ↦
        let (_, _, _, states) = row-set_all now r.id r.generation deletion_settings w.db q here in
        each-implied r.id (λ x. x.conditions ≡ q.conditions) Conditioned settings_db.resources
          (λ x e. (
            same_state "Ready" q x e ∙ states "Ready",
            same_state "Reconciling" q x e ∙ states "Reconciling",
          ))
          (each-conditioned "Ready" "Unknown" "Deleting" "Resource is being deleted" r.generation
            (conditioned now r.id "Reconciling" "False" "Deleting" "Resource is being deleted"
              r.generation w.db)
            q here)
  ]

  pub deletion_db-EachRow : EachRow r.id (IsDestroyed r.action_plugin) deletion_db.resources
  unfolding deletion_db Conditioned
  deletion_db-EachRow =
      each-map r.id Conditioned (IsDestroyed r.action_plugin) (released now r.action_plugin)
        settings_db.resources (λ q. refl)
        (λ q h. record {
          released = contains-without_finalizer_self r.action_plugin q.finalizers;
          unknown = h.0;
          not_reconciling = h.1;
        })
        settings_db-EachRow
