-- ===== src/Management/Release.antt =====
-- What src/management_api.py still does on a resource that is marked for deletion.
use no8s_operator.Base.{ℕ, ◌<◌, ◌≡◌, refl, ap, ◌∙◌, String, true, none, List, if◌then◌else◌}
use no8s_operator.Base.Result.{Error, Result, err, http, ◌>>=◌, ◌>>◌, pure}
use no8s_operator.Db.Rows.{Resource, Database}
use no8s_operator.Db.Resources.{get_resource, delete_resource, mark_resource_for_reconciliation}
use no8s_operator.Db.Resources.Laws.{get_resource-delete_resource}
use no8s_operator.Db.Resources.Deleted.{get_resource-execute_all}
use no8s_operator.Db.Calls.{Call, execute_all}
use no8s_operator.Json.{Fields}
use no8s_operator.Auth.{Claims}
use no8s_operator.Management.{Services, caught, find_resource}
use no8s_operator.Management.Resources.{
  add_all, remove_all, finish_update, get_resource_by_id, update_finalizers, trigger_reconciliation,
}

-- The answer where there is no such resource.
abbrev pub missing : {A : Type 0} → Database → Result A × Database
missing db = (err (http 404 "Resource not found"), db)

pub not_found :
    (user : Claims) (operation : String) (i : ℕ) (db : Database)
    → get_resource i db ≡ none
    → find_resource user operation i db ≡ err (http 404 "Resource not found")
unfolding find_resource
not_found user operation i db gone = rw (gone, find_resource) refl

-- A handler with a database goes on by what its first step answers.
goes_on :
    {B : Type 0} (s : Services) (next : Result Resource → Result B × Database)
    (r r' : Result Resource) (db : Database)
    → s.db_manager ≡ true
    → r ≡ r'
    → (if s.db_manager then next r else (err (http 503 "Database not available"), db)) ≡ next r'
goes_on s next r r' db on e =
    ap (λ b. if b then next r else (err (http 503 "Database not available"), db)) on ∙ ap next e

module _ (text : Error → String) (s : Services) (user : Claims) (i : ℕ) where
  -- With a database, once a resource is marked for deletion, and whatever calls of the methods that
  -- write resources and their history follow, every later request to change its finalizers, to trigger it or to read it by its id is
  -- answered by a 404 and changes nothing, for an administrator too: a finalizer that it holds then
  -- cannot be removed through this API. The number of the resource is one that has been given out.
  pub deleted_is_unreachable :
      (hash : Fields → String) (now later : ℕ) (calls : List (ℕ × Call)) (add remove : List String)
      (db : Database)
      → s.db_manager ≡ true
      → i < db.next_resource_id
      → let db' = execute_all hash calls (delete_resource now i db).1 in
        (update_finalizers text later s user i add remove db' ≡ missing db')
        × (trigger_reconciliation text later s user i db' ≡ missing db')
        × (get_resource_by_id s user i db' ≡ missing db')
  unfolding update_finalizers trigger_reconciliation get_resource_by_id delete_resource
  deleted_is_unreachable hash now later calls add remove db on given =
      let db' = execute_all hash calls (delete_resource now i db).1 in
      let refusal : Result Resource = err (http 404 "Resource not found") in
      let gone : (operation : String) → find_resource user operation i db' ≡ refusal = λ operation.
        not_found user operation i db' (
          get_resource-execute_all i hash calls (delete_resource now i db).1
            (get_resource-delete_resource now i db) given) in
      (
        goes_on s
            (λ r.
              caught text
                ((λ d. (r, d))
                  >>= (λ q. add_all later i add >> remove_all later i remove >> finish_update q i))
                db')
            (find_resource user "UPDATE" i db') refusal db' on (gone "UPDATE"),
        goes_on s
            (λ r.
              caught text ((λ d. (r, d)) >> mark_resource_for_reconciliation later i 0 >> pure i)
                db')
            (find_resource user "UPDATE" i db') refusal db' on (gone "UPDATE"),
        goes_on s (λ r. (r, db')) (find_resource user "READ" i db') refusal db' on (gone "READ"),
      )
