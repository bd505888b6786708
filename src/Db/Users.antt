-- ===== src/Db/Users.antt =====
-- The users in src/db.py.
use no8s_operator.Base.{
  ℕ, suc, String, Bool, true, false, not, ◌&&◌, Option, none, some, List, [], ◌∷◌, ◌++◌, ◌==◌,
  if◌then◌else◌, string_eq, nat_eq, leb, any, filter, find, update_where, take, length,
}
use no8s_operator.Base.Sort.{sort}
use no8s_operator.Base.Result.{Action, ok, err, modify, unique_violation, foreign_key_violation}
use no8s_operator.Db.Rows.{User, Database}
use no8s_operator.Db.Resources.{or_default}
use no8s_operator.Db.Roles.{is_role, or_some}

abbrev pub is_user : ℕ → User → Bool
is_user i u = u.id == i

abbrev pub named : String → User → Bool
named username u = u.username == username

unfoldable pub create_user :
    String → Bool → Option String → Option String → Option String → String → Action Database ℕ
create_user username is_admin password_hash email display_name source db =
    let i = db.next_user_id in
    let u : User = record {
      id = i;
      username = username;
      email = email;
      display_name = display_name;
      source = source;
      is_admin = is_admin;
      status = "active";
      custom_role_id = none;
      password_hash = password_hash;
      ldap_dn = none;
      ldap_uid = none;
      last_login_at = none;
      last_synced_at = none;
    } in
    if any (named username) db.users
    then (err (unique_violation "users_username_key"), record db { next_user_id = suc i })
    else (ok i, record db { next_user_id = suc i; users = db.users ++ u ∷ [] })

unfoldable pub get_user : ℕ → Database → Option User
get_user i db = find (is_user i) db.users

unfoldable pub get_user_by_username : String → Database → Option User
get_user_by_username username db = find (named username) db.users

abbrev passes {ℓ} : {A : Type ℓ} → (A → Bool) → Option A → Bool
passes test none = true
passes test (some a) = test a

abbrev by_id : User → User → Bool
by_id u v = leb u.id v.id

unfoldable pub list_users : Option String → Option Bool → Option String → ℕ → Database → List User
list_users source is_admin status limit db = take limit (
    sort by_id (
      filter
        (λ (u : User).
          passes (λ s. u.source == s) source
          && passes (λ b. if b then u.is_admin else not u.is_admin) is_admin
          && passes (λ s. u.status == s) status)
        db.users))

-- `None` leaves a column as it is.
abbrev pub changed :
    Option String → Option String → Option Bool → Option String → Option ℕ → User → User
changed email display_name is_admin status custom_role_id u = record u {
  email = or_some email u.email;
  display_name = or_some display_name u.display_name;
  is_admin = or_default is_admin u.is_admin;
  status = or_default status u.status;
  custom_role_id = or_some custom_role_id u.custom_role_id;
}

abbrev pub role_missing : Option ℕ → Database → Bool
role_missing none db = false
role_missing (some i) db = not (any (is_role i) db.roles)

-- Whether a row came back. The foreign key is checked only where a row is updated.
unfoldable pub update_user :
    ℕ
    → Option String
    → Option String
    → Option Bool
    → Option String
    → Option ℕ
    → Action Database Bool
update_user i email display_name is_admin status custom_role_id db =
    if not (any (is_user i) db.users)
    then (ok false, db)
    else if role_missing custom_role_id db
    then (err (foreign_key_violation "custom_role_id"), db)
    else (
      ok true,
      record db {
        users =
            update_where (is_user i) (changed email display_name is_admin status custom_role_id)
              db.users;
      },
    )

-- The soft delete.
unfoldable pub delete_user : ℕ → Action Database Bool
delete_user i db = (
  ok (any (is_user i) db.users),
  record db { users = update_where (is_user i) (λ u. record u { status = "suspended" }) db.users },
)

unfoldable pub update_user_last_login : ℕ → ℕ → Action Database (Unit {0})
update_user_last_login now i = modify (λ db. record db {
  users = update_where (is_user i) (λ u. record u { last_login_at = some now }) db.users;
})

abbrev pub synced : ℕ → String → String → Option String → Option String → User → User
synced now ldap_dn ldap_uid email display_name u = record u {
  email = email;
  display_name = display_name;
  ldap_dn = some ldap_dn;
  ldap_uid = some ldap_uid;
  source = "ldap";
  last_synced_at = some now;
}

abbrev pub new_ldap_user : ℕ → ℕ → String → String → String → Option String → Option String → User
new_ldap_user now i ldap_dn ldap_uid username email display_name = record {
  id = i;
  username = username;
  email = email;
  display_name = display_name;
  source = "ldap";
  is_admin = false;
  status = "active";
  custom_role_id = none;
  password_hash = none;
  ldap_dn = some ldap_dn;
  ldap_uid = some ldap_uid;
  last_login_at = none;
  last_synced_at = some now;
}

-- `_created`: whether the user was inserted.
unfoldable pub upsert_ldap_user :
    ℕ → String → String → String → Option String → Option String → Action Database Bool
upsert_ldap_user now ldap_dn ldap_uid username email display_name db =
    if any (named username) db.users
    then (
      ok false,
      record db {
        users =
            update_where (named username) (synced now ldap_dn ldap_uid email display_name) db.users;
      },
    )
    else (
      ok true,
      record db {
        next_user_id = suc db.next_user_id;
        users =
            db.users
            ++ new_ldap_user now db.next_user_id ldap_dn ldap_uid username email display_name ∷ [];
      },
    )

unfoldable pub count_users : Database → ℕ
count_users db = length db.users
