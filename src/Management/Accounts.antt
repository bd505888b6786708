-- ===== src/Management/Accounts.antt =====
-- src/management_api.py: login and the users. bcrypt and the LDAP bind are parameters; a token is the
-- claims in it.
use no8s_operator.Base.{
  ℕ, String, Bool, true, false, ◌&&◌, Option, none, some, List, ◌==◌, string_eq, if◌then◌else◌,
}
use no8s_operator.Base.Result.{
  Error, Result, Action, ok, err, ◌>>=◌, ◌>>◌, pure, lift, gets, http, type_error,
}
use no8s_operator.Db.Rows.{User, Database}
use no8s_operator.Db.Users
use no8s_operator.Auth.{Claims, claims_of}
use no8s_operator.LdapSync.{Entry, Tally, sync_to_db}
use no8s_operator.Management.{
  Services, as_admin, with_db, caught, caught_unique, or_404, deleted_or,
}

pub record LoginRequest : Type 0 where
  pub username : String
  pub password : String

pub record LoginResponse : Type 0 where
  pub access_token : Claims
  pub username : String
  pub is_admin : Bool

abbrev pub invalid_credentials : Error
invalid_credentials = http 401 "Invalid credentials"

-- `not user.get("password_hash") or not verify_password(…)`
abbrev pub password_matches : (String → String → Result Bool) → String → Option String → Result Bool
password_matches verify_password password none = ok false
password_matches verify_password password (some hash) =
    if hash == "" then ok false else verify_password password hash

-- By the source of the user; `authenticate` is given the DN of the row, which may be NULL.
unfoldable pub check_credentials :
    Services
    → (String → String → Result Bool)
    → (Option String → String → Bool)
    → String
    → User
    → Result Bool
check_credentials s verify_password authenticate password u =
    if u.source == "manual"
    then password_matches verify_password password u.password_hash
    else ok (s.ldap_manager && s.ldap_configured && authenticate u.ldap_dn password)

unfoldable pub issue_token : ℕ → User → Action Database LoginResponse
issue_token now u =
    Users.update_user_last_login now u.id
    >> pure (record { access_token = claims_of u; username = u.username; is_admin = u.is_admin })

abbrev pub logged_in : ℕ → User → Result Bool → Action Database LoginResponse
logged_in now u (err e) db = (err e, db)
logged_in now u (ok false) db = (err invalid_credentials, db)
logged_in now u (ok true) db = issue_token now u db

unfoldable pub login :
    Services
    → (String → String → Result Bool)
    → (Option String → String → Bool)
    → ℕ
    → LoginRequest
    → Action Database LoginResponse
login s verify_password authenticate now body = with_db s (λ db.
    if s.auth_manager
    then elim (Users.get_user_by_username body.username db) [
      | none ↦ (err invalid_credentials, db)
      | some u ↦
          if u.status == "active"
          then logged_in now u (check_credentials s verify_password authenticate body.password u) db
          else (err invalid_credentials, db)
    ]
    else (err (http 503 "Auth not configured"), db))

unfoldable pub auth_me : Services → Claims → Action Database User
auth_me s user = with_db s (λ db. or_404 "User not found" (Users.get_user user.sub db) db)

pub record UserCreate : Type 0 where
  pub username : String
  pub password : String
  pub email : Option String
  pub display_name : Option String
  pub is_admin : Bool

-- The row that an insert or an update has returned.
abbrev pub returned_user : ℕ → Action Database User
returned_user i db = elim (Users.get_user i db) [
  | none ↦ (err (type_error "'NoneType' object is not iterable"), db)
  | some u ↦ (ok u, db)
]

unfoldable pub create_user :
    (Error → String)
    → (String → Result String)
    → Services
    → Claims
    → UserCreate
    → Action Database User
create_user text hash_password s user body = as_admin user (
    with_db s (λ db.
      if s.auth_manager
      then caught_unique text "User already exists"
          (lift (hash_password body.password) >>= (λ hash.
            Users.create_user body.username body.is_admin (some hash) body.email body.display_name
              "manual"
            >>= returned_user))
          db
      else (err (http 503 "Auth not configured"), db)))

unfoldable pub list_users :
    Services
    → Claims
    → Option String
    → Option Bool
    → Option String
    → ℕ
    → Action Database (List User)
list_users s user source is_admin status limit =
    as_admin user (with_db s (gets (Users.list_users source is_admin status limit)))

unfoldable pub get_user : Services → Claims → ℕ → Action Database User
get_user s user i =
    as_admin user (with_db s (λ db. or_404 "User not found" (Users.get_user i db) db))

pub record UserUpdate : Type 0 where
  pub email : Option String
  pub display_name : Option String
  pub is_admin : Option Bool
  pub status : Option String
  pub custom_role_id : Option ℕ

unfoldable pub update_user :
    (Error → String) → Services → Claims → ℕ → UserUpdate → Action Database User
update_user text s user i body = as_admin user (
    with_db s (
      caught text (
        Users.update_user i body.email body.display_name body.is_admin body.status
          body.custom_role_id
        >>= deleted_or 404 "User not found"
        >> returned_user i)))

unfoldable pub delete_user : Services → Claims → ℕ → Action Database (Unit {0})
delete_user s user i =
    as_admin user (with_db s (Users.delete_user i >>= deleted_or 404 "User not found"))

unfoldable pub ldap_sync :
    (Error → String) → Result (List Entry) → ℕ → Services → Claims → Action Database Tally
ldap_sync text directory now s user = as_admin user (
    with_db s (λ db.
      if s.ldap_manager && s.ldap_configured
      then caught text (sync_to_db true directory now) db
      else (err (http 503 "LDAP is not configured"), db)))
