-- ===== src/LdapSync/Rights.antt =====
-- What a synchronisation of src/ldap_sync.py can do to the rights of a user.
use no8s_operator.Base.{
  ℕ, String, ◌≡◌, refl, sym, ap, ◌∙◌, ◌⊎◌, inl, inr, Bool, true, false, Option, none, some, List,
  [], ◌∷◌, ◌++◌, arith, string_eq, any, find, update_where, Bool-cases,
}
use no8s_operator.Base.Result.{Result, ok, err}
use no8s_operator.Db.Rows.{User, Database}
use no8s_operator.Db.Users.{named, synced, new_ldap_user, get_user_by_username, upsert_ldap_user}
use no8s_operator.LdapSync.{
  Entry, LdapUser, Tally, count, search_users, upserted, sync_users, sync_to_db,
}

-- The columns that src/auth.py and the login read.
abbrev pub SameRights : User → User → Type 0
SameRights u v =
    (u.id ≡ v.id)
    × (u.is_admin ≡ v.is_admin)
    × (u.status ≡ v.status)
    × (u.custom_role_id ≡ v.custom_role_id)
    × (u.password_hash ≡ v.password_hash)

abbrev pub NoRights : User → Type 0
NoRights u = (u.is_admin ≡ false) × (u.custom_role_id ≡ none) × (u.password_hash ≡ none)

-- The user was there with the same of these, or was not and is now with none of them.
abbrev pub Inherits : String → Database → User → Type 0
Inherits n db u =
    ((old : User) × (get_user_by_username n db ≡ some old) × SameRights old u)
    ⊎ ((get_user_by_username n db ≡ none) × NoRights u)

module _ (now : ℕ) (dn uid : String) (email display : Option String) where
  find-synced :
      (n name : String) (us : List User) (u : User)
      → find (named n) (update_where (named name) (synced now dn uid email display) us) ≡ some u
      → (old : User) × (find (named n) us ≡ some old) × SameRights old u
  find-synced n name [] u e = absurd (ground arith)
  find-synced n name (v ∷ us) u e = elim (Bool-cases (named n v)) [
    | inl y ↦ (v, rw y refl, ground arith)
    | inr m ↦ let (old, h, same) = find-synced n name us u (ground arith) in (old, rw m h, same)
  ]

  find-new :
      (n name : String) (i : ℕ) (us : List User) (u : User)
      → find (named n) (us ++ new_ldap_user now i dn uid name email display ∷ []) ≡ some u
      → ((find (named n) us ≡ some u)) ⊎ ((find (named n) us ≡ none) × NoRights u)
  find-new n name i [] u e = inr (refl, ground arith)
  find-new n name i (v ∷ us) u e = elim (Bool-cases (named n v)) [
    | inl y ↦ inl (ground arith)
    | inr m ↦ elim (find-new n name i us u (ground arith)) [
      | inl h ↦ inl (rw m h)
      | inr (h, k) ↦ inr (rw m h, k)
    ]
  ]

  upsert-Inherits :
      (name n : String) (db : Database) (u : User)
      → get_user_by_username n (upsert_ldap_user now dn uid name email display db).1 ≡ some u
      → Inherits n db u
  unfolding get_user_by_username upsert_ldap_user
  upsert-Inherits name n db u = elim (Bool-cases (any (named name) db.users)) [
    | inl y ↦ rw (y, upsert_ldap_user) (λ e. inl (find-synced n name db.users u e))
    | inr m ↦
        rw (m, upsert_ldap_user)
          (λ e. elim (find-new n name db.next_user_id db.users u e) [
            | inl h ↦ inl (u, h, (refl, refl, refl, refl, refl))
            | inr k ↦ inr k
          ])
  ]

SameRights-trans : (u v w : User) → SameRights u v → SameRights v w → SameRights u w
SameRights-trans u v w (a, b, c, d, e) (a', b', c', d', e') =
    (a ∙ a', b ∙ b', c ∙ c', d ∙ d', e ∙ e')

NoRights-kept : (u v : User) → NoRights u → SameRights u v → NoRights v
NoRights-kept u v (b, d, e) (a', b', c', d', e') = (sym b' ∙ b, sym d' ∙ d, sym e' ∙ e)

Inherits-chain :
    (n : String) (db db' : Database) (v u : User)
    → get_user_by_username n db' ≡ some v
    → SameRights v u
    → Inherits n db v
    → Inherits n db u
Inherits-chain n db db' v u here same (inl (old, h, s)) =
    inl (old, h, SameRights-trans old v u s same)
Inherits-chain n db db' v u here same (inr (h, k)) = inr (h, NoRights-kept v u k same)

still_absent :
    (now : ℕ) (x : LdapUser) (n : String) (db : Database)
    → get_user_by_username n (upserted now x db).1 ≡ none
    → get_user_by_username n db ≡ none
unfolding get_user_by_username upsert_ldap_user
still_absent now x n db = elim (Bool-cases (any (named x.uid) db.users)) [
  | inl y ↦ rw (y, upsert_ldap_user) (absent_synced db.users)
  | inr m ↦ rw (m, upsert_ldap_user) (absent_new db.users _)
]
  where
    absent_synced :
        (us : List User)
        → find
            (named n)
            (update_where (named x.uid) (synced now x.dn x.uid x.email x.display_name) us)
          ≡ none
        → find (named n) us ≡ none
    absent_synced [] e = refl
    absent_synced (v ∷ us) e = ground (arith, absent_synced us)

    absent_new :
        (us : List User) (v : User)
        → find (named n) (us ++ v ∷ []) ≡ none
        → find (named n) us ≡ none
    absent_new [] v e = refl
    absent_new (w ∷ us) v e = ground (arith, absent_new us v)

sync_users-Inherits :
    (now : ℕ) (us : List LdapUser) (c : Tally) (n : String) (db : Database) (u : User)
    → get_user_by_username n (sync_users now us c db).1 ≡ some u
    → Inherits n db u
unfolding sync_users
sync_users-Inherits now [] c n db u e = inl (u, e, (refl, refl, refl, refl, refl))
sync_users-Inherits now (x ∷ us) c n db u e =
    go (upserted now x db) refl e (λ b db'. sync_users-Inherits now us (count b c) n db' u)
  where
    earlier : (db' : Database) → (upserted now x db).1 ≡ db' → Inherits n db' u → Inherits n db u
    earlier db' q (inl (old, h, s)) = Inherits-chain n db db' old u h s (
        upsert-Inherits now x.dn x.uid x.email x.display_name x.uid n db old
          (ap (get_user_by_username n) q ∙ h))
    earlier db' q (inr (h, k)) =
        inr (still_absent now x n db (ap (get_user_by_username n) q ∙ h), k)

    go :
        (y : Result Bool × Database)
        → upserted now x db ≡ y
        → get_user_by_username n
            (elim y.0 as (λ z. Result Tally × Database) [
              | ok b ↦ sync_users now us (count b c) y.1
              | err z ↦ (err z, y.1)
            ]).1
          ≡ some u
        → ((b : Bool) (db' : Database)
            → get_user_by_username n (sync_users now us (count b c) db').1 ≡ some u
            → Inherits n db' u)
        → Inherits n db u
    go (ok b, db') q e rest = earlier db' (ap (λ z. z.1) q) (rest b db' e)
    go (err z, db') q e rest =
        earlier db' (ap (λ z. z.1) q) (inl (u, e, (refl, refl, refl, refl, refl)))

-- A synchronisation changes nobody's administrator flag, role, status or password: whoever has a
-- username afterwards had the same four before, or was not in the table and is now without
-- administrator flag, role and password. It is another matter against which password a user logs in:
-- the source and the DN, which a synchronisation sets, are not among these.
pub sync_to_db-Inherits :
    (configured : Bool) (directory : Result (List Entry)) (now : ℕ) (n : String) (db : Database)
    (u : User)
    → get_user_by_username n (sync_to_db configured directory now db).1 ≡ some u
    → Inherits n db u
unfolding sync_to_db search_users
sync_to_db-Inherits false directory now n db u e = inl (u, e, (refl, refl, refl, refl, refl))
sync_to_db-Inherits true (err z) now n db u e = inl (u, e, (refl, refl, refl, refl, refl))
sync_to_db-Inherits true (ok entries) now n db u e = sync_users-Inherits now _ _ n db u e
