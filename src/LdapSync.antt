-- ===== src/LdapSync.antt =====
-- src/ldap_sync.py: the users of a directory come into the table of users. What the directory answers
-- to the search, or the exception, is a parameter.
pub mod Rights
pub mod Counts
mod Examples
use no8s_operator.Base.{
  ℕ, suc, ◌+◌, String, Bool, true, false, Option, none, some, List, [], ◌∷◌, ◌==◌, if◌then◌else◌,
  string_eq, length,
}
use no8s_operator.Base.Result.{Result, Action, ok, err, runtime_error}
use no8s_operator.Db.Rows.{Database}
use no8s_operator.Db.Users.{upsert_ldap_user}

-- An entry of the directory, with `None` for an attribute that is not there.
pub record Entry : Type 0 where
  pub entry_dn : String
  pub uid : Option String
  pub email : Option String
  pub display_name : Option String

pub record LdapUser : Type 0 where
  pub dn : String
  pub uid : String
  pub email : Option String
  pub display_name : Option String

-- Entries without a uid are passed over.
unfoldable pub found_users : List Entry → List LdapUser
found_users [] = []
found_users (e ∷ es) =
    let rest = found_users es in
    elim e.uid [
      | none ↦ rest
      | some u ↦
          if u == ""
          then rest
          else record { dn = e.entry_dn; uid = u; email = e.email; display_name = e.display_name }
            ∷ rest
    ]

unfoldable pub search_users : Bool → Result (List Entry) → Result (List LdapUser)
search_users false directory = err (runtime_error "LDAP is not configured")
search_users true (err e) = err e
search_users true (ok entries) = ok (found_users entries)

pub record Tally : Type 0 where
  pub created : ℕ
  pub updated : ℕ
  pub total : ℕ

abbrev pub count : Bool → Tally → Tally
count true c = record c { created = suc c.created }
count false c = record c { updated = suc c.updated }

abbrev pub upserted : ℕ → LdapUser → Action Database Bool
upserted now u = upsert_ldap_user now u.dn u.uid u.uid u.email u.display_name

-- The loop, with what it has counted so far.
unfoldable pub sync_users : ℕ → List LdapUser → Tally → Action Database Tally
sync_users now [] c db = (ok c, db)
sync_users now (u ∷ us) c db =
    let (answer, db') = upserted now u db in
    elim answer [ ok created ↦ sync_users now us (count created c) db' | err e ↦ (err e, db') ]

unfoldable pub sync_to_db : Bool → Result (List Entry) → ℕ → Action Database Tally
sync_to_db false directory now db = (ok (record { created = 0; updated = 0; total = 0 }), db)
sync_to_db true directory now db = elim (search_users true directory) [
  | err e ↦ (err e, db)
  | ok users ↦ sync_users now users (record { created = 0; updated = 0; total = length users }) db
]
