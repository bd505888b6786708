-- ===== src/Auth/Grants.antt =====
-- What the tables of roles and permissions mean for src/auth.py.
use no8s_operator.Base.{
  ℕ, String, ◌≡◌, ◌≢◌, refl, ap, ◌∙◌, inl, inr, Bool, true, false, ◌||◌, ◌&&◌, none, some, List, [],
  ◌∷◌, ◌++◌, arith, ◌==◌, if◌then◌else◌, string_eq, nat_eq, contains, any, filter, delete_where,
  Bool-cases, Option-cases,
}
use no8s_operator.Base.Sort.{any-sort}
use no8s_operator.Base.Result.{ok}
use no8s_operator.Db.Rows.{Permission, Database}
use no8s_operator.Db.Roles.{
  is_role, of_role, by_id, same_scope, get_custom_role_permissions, delete_custom_role,
  add_role_permission,
}
use no8s_operator.Auth.{Claims, wildcard, grants, role_id_of, check_resource_permission}

pub any-filter :
    (p q : Permission → Bool) (xs : List Permission)
    → any q (filter p xs) ≡ any (λ x. p x && q x) xs
any-filter p q [] = refl
any-filter p q (x ∷ xs) = ground (arith, any-filter p q xs)

-- A permission of the role lets the operation pass.
abbrev pub granted : ℕ → String → String → String → Database → Bool
granted i type_name type_version operation db =
    any (λ p. of_role i p && grants type_name type_version operation p) db.permissions

pub checked :
    (user : Claims) (db : Database) (t v o : String)
    → check_resource_permission user db t v o ≡ (
        if user.is_admin
        then true
        else elim (role_id_of user.custom_role_id) [ none ↦ false | some i ↦ granted i t v o db ])
unfolding check_resource_permission get_custom_role_permissions
checked user db t v o = elim (Option-cases (role_id_of user.custom_role_id)) [
  | inl n ↦ rw n refl
  | inr (i, e) ↦ rw e (
      ap (λ b. if user.is_admin then true else b)
        (any-sort by_id (grants t v o) (filter (of_role i) db.permissions)
          ∙ any-filter (of_role i) (grants t v o) db.permissions))
]

pub checked_role :
    (user : Claims) (i : ℕ) (db : Database) (t v o : String)
    → user.is_admin ≡ false
    → user.custom_role_id ≡ some i
    → check_resource_permission user db t v o ≡ (if i == 0 then false else granted i t v o db)
checked_role user i db t v o plain holds = checked user db t v o ∙ rw (plain, holds) by_role
  where
    by_role :
        (elim (role_id_of (some i)) [ none ↦ false | some j ↦ granted j t v o db ])
        ≡ (if i == 0 then false else granted i t v o db)
    by_role = elim (Bool-cases (i == 0)) [ inl y ↦ rw y refl | inr n ↦ rw n refl ]

any-delete :
    (i : ℕ) (q : Permission → Bool) (ps : List Permission)
    → any (λ p. of_role i p && q p) (delete_where (of_role i) ps) ≡ false
any-delete i q [] = refl
any-delete i q (p ∷ ps) = ground (arith, any-delete i q ps)

any-snoc :
    (q : Permission → Bool) (ps : List Permission) (p : Permission)
    → any q (ps ++ p ∷ []) ≡ (any q ps || q p)
any-snoc q [] p = ground arith
any-snoc q (x ∷ ps) p = ground (arith, any-snoc q ps p)

-- After a role that was there is deleted, no user who holds it and is no admin may do anything that
-- it allowed: the deletion takes its permissions along, and a token may still name it.
pub deleted_role_grants_nothing :
    (user : Claims) (i : ℕ) (db : Database) (t v o : String)
    → user.is_admin ≡ false
    → user.custom_role_id ≡ some i
    → any (is_role i) db.roles ≡ true
    → check_resource_permission user (delete_custom_role i db).1 t v o ≡ false
unfolding delete_custom_role
deleted_role_grants_nothing user i db t v o plain holds there =
    checked_role user i (delete_custom_role i db).1 t v o plain holds
    ∙ ground (arith, any-delete i (grants t v o) db.permissions)

added_permission :
    (i : ℕ) (name version : String) (operations : List String) (k : ℕ) (db : Database)
    → let (answer, db') = add_role_permission i name version operations db in
      answer ≡ ok k
      → db'.permissions
        ≡ db.permissions
          ++ record {
            id = db.next_permission_id;
            role_id = i;
            resource_type_name = name;
            resource_type_version = version;
            operations = operations;
          }
            ∷ []
unfolding add_role_permission
added_permission i name version operations k db =
    elim (Bool-cases (any (same_scope i name version) db.permissions)) [
      | inl y ↦ rw (y, add_role_permission) (λ e. absurd (ground arith))
      | inr n ↦ elim (Bool-cases (any (is_role i) db.roles)) [
        | inl y ↦ rw (n, y, add_role_permission) (λ e. refl)
        | inr m ↦ rw (n, m, add_role_permission) (λ e. absurd (ground arith))
      ]
    ]

-- A permission that is added lets pass, besides what passed before, exactly the requests of users of
-- that role whose type, version and operation it covers.
pub added_permission_grants :
    (user : Claims) (i j : ℕ) (db : Database) (name version : String) (operations : List String)
    (k : ℕ) (t v o : String)
    → user.is_admin ≡ false
    → user.custom_role_id ≡ some j
    → j ≢ 0
    → (add_role_permission i name version operations db).0 ≡ ok k
    → check_resource_permission user (add_role_permission i name version operations db).1 t v o ≡ (
        check_resource_permission user db t v o
        || (i == j && wildcard name t && wildcard version v && contains operations o))
added_permission_grants user i j db name version operations k t v o plain holds nonzero done =
    checked_role user j (add_role_permission i name version operations db).1 t v o plain holds
    ∙ ap (λ ps. if j == 0 then false else any (λ p. of_role j p && grants t v o p) ps)
        (added_permission i name version operations k db done)
    ∙ ap (λ b. if j == 0 then false else b)
        (any-snoc (λ p. of_role j p && grants t v o p) db.permissions _)
    ∙ ground (arith, checked_role user j db t v o plain holds)
