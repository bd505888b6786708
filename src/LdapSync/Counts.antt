-- ===== src/LdapSync/Counts.antt =====
-- What a synchronisation of src/ldap_sync.py counts.
use no8s_operator.Base.{
  ℕ, suc, ◌+◌, ◌≡◌, refl, ap, ◌∙◌, inl, inr, Bool, true, false, List, [], ◌∷◌, ◌++◌, arith,
  if◌then◌else◌, string_eq, any, length, length-append, update_where, Bool-cases,
}
use no8s_operator.Base.Result.{Result, ok, err}
use no8s_operator.Db.Rows.{User, Database}
use no8s_operator.Db.Users.{named, upsert_ldap_user, count_users}
use no8s_operator.LdapSync.{
  Entry, LdapUser, Tally, count, upserted, found_users, search_users, sync_users, sync_to_db,
}

length-update_where :
    (p : User → Bool) (f : User → User) (us : List User) → length (update_where p f us) ≡ length us
length-update_where p f [] = refl
length-update_where p f (u ∷ us) = ap suc (length-update_where p f us)

length-snoc : (us : List User) (u : User) → length (us ++ u ∷ []) ≡ suc (length us)
length-snoc us u = length-append us (u ∷ []) ∙ omega arith

-- An upsert returns, and the table grows where it says so.
upserted_counts :
    (now : ℕ) (x : LdapUser) (db : Database)
    → (b : Bool) × (db' : Database) × (upserted now x db ≡ (ok b, db'))
      × (count_users db' ≡ (if b then suc (count_users db) else count_users db))
unfolding upsert_ldap_user count_users
upserted_counts now x db = elim (Bool-cases (any (named x.uid) db.users)) [
  | inl y ↦ (
    false,
    (upserted now x db).1,
    rw (y, upsert_ldap_user) refl,
    rw (y, upsert_ldap_user) (length-update_where (named x.uid) _ db.users),
  )
  | inr n ↦ (
    true,
    (upserted now x db).1,
    rw (n, upsert_ldap_user) refl,
    rw (n, upsert_ldap_user) (length-snoc db.users _),
  )
]

counted :
    (b : Bool) (c : Tally)
    → ((count b c).created ≡ (if b then suc c.created else c.created))
      × ((count b c).created + (count b c).updated ≡ suc (c.created + c.updated))
      × ((count b c).total ≡ c.total)
counted true c = (refl, omega arith, refl)
counted false c = (refl, omega arith, refl)

sync_step :
    (now : ℕ) (x : LdapUser) (us : List LdapUser) (c : Tally) (db db' : Database) (b : Bool)
    → upserted now x db ≡ (ok b, db')
    → sync_users now (x ∷ us) c db ≡ sync_users now us (count b c) db'
unfolding sync_users
sync_step now x us c db db' b q = ap continued q
  where
    continued : Result Bool × Database → Result Tally × Database
    continued y = elim y.0 [ ok a ↦ sync_users now us (count a c) y.1 | err e ↦ (err e, y.1) ]

-- With the tally so far, the rest of the loop returns and counts each user once.
sync_users_counts :
    (now : ℕ) (us : List LdapUser) (c : Tally) (db : Database)
    → (t : Tally) × (db' : Database) × (sync_users now us c db ≡ (ok t, db'))
      × (t.created + t.updated ≡ c.created + c.updated + length us)
      × (t.total ≡ c.total)
      × (count_users db' + c.created ≡ count_users db + t.created)
unfolding sync_users
sync_users_counts now [] c db = (c, db, refl, omega arith, refl, refl)
sync_users_counts now (x ∷ us) c db =
    let (b, db1, q, grew) = upserted_counts now x db in
    let (t, db2, e, sum, total, size) = sync_users_counts now us (count b c) db1 in
    let (one, both, same) = counted b c in
    (
      t,
      db2,
      sync_step now x us c db db1 b q ∙ e,
      omega (arith, sum, both),
      total ∙ same,
      ground (arith, size, grew, one),
    )

-- A synchronisation whose search returns entries returns itself; the users it counts as created and
-- as updated are together all that have a uid, and the table has grown by the created ones.
pub sync_to_db_counts :
    (entries : List Entry) (now : ℕ) (db : Database)
    → (t : Tally) × (db' : Database) × (sync_to_db true (ok entries) now db ≡ (ok t, db'))
      × (t.created + t.updated ≡ length (found_users entries))
      × (t.total ≡ length (found_users entries))
      × (count_users db' ≡ count_users db + t.created)
unfolding sync_to_db search_users
sync_to_db_counts entries now db =
    let users = found_users entries in
    let (t, db', e, sum, total, size) =
      sync_users_counts now users (record { created = 0; updated = 0; total = length users }) db in
    (t, db', e, sum ∙ omega arith, total, omega (arith, size))
