-- ===== src/LdapSync/Examples.antt =====
-- The theorems on src/ldap_sync.py for one administrator and two entries.
use no8s_operator.Base.{◌≡◌, refl, true, none, some, List, [], ◌∷◌, string_eq}
use no8s_operator.Base.Result.{ok}
use no8s_operator.Db.Rows.{User, Database, empty}
use no8s_operator.Db.Users.{get_user_by_username, upsert_ldap_user}
use no8s_operator.LdapSync.{Entry, found_users, search_users, sync_users, sync_to_db}
use no8s_operator.LdapSync.Rights.{Inherits, sync_to_db-Inherits}

abbrev ann : User
ann = record {
  id = 1;
  username = "ann";
  email = none;
  display_name = none;
  source = "manual";
  is_admin = true;
  status = "active";
  custom_role_id = none;
  password_hash = some "hash";
  ldap_dn = none;
  ldap_uid = none;
  last_login_at = none;
  last_synced_at = none;
}

abbrev tables : Database
tables = record empty { users = ann ∷ []; next_user_id = 2 }

abbrev entries : List Entry
entries =
    record { entry_dn = "cn=ann"; uid = some "ann"; email = none; display_name = none }
    ∷ record { entry_dn = "cn=bob"; uid = some "bob"; email = none; display_name = none }
    ∷ []

abbrev synced_ann : User
synced_ann = record ann {
  source = "ldap";
  ldap_dn = some "cn=ann";
  ldap_uid = some "ann";
  last_synced_at = some 9;
}

ann_test : get_user_by_username "ann" (sync_to_db true (ok entries) 9 tables).1 ≡ some synced_ann
unfolding sync_to_db search_users found_users sync_users upsert_ldap_user get_user_by_username
    string_eq
ann_test = refl

sync_to_db-Inherits_example : Inherits "ann" tables synced_ann
sync_to_db-Inherits_example =
    sync_to_db-Inherits true (ok entries) 9 "ann" tables synced_ann ann_test
