-- ===== src/Management/Resources.antt =====
-- src/management_api.py: what is read of resources, their finalizers, and the manual trigger.
use no8s_operator.Base.{
  ℕ, String, Bool, Option, none, some, List, [], ◌∷◌, ◌==◌, filter, if◌then◌else◌,
}
use no8s_operator.Base.Result.{Error, Action, ok, err, ◌>>=◌, ◌>>◌, pure, gets, http}
use no8s_operator.Json.{Fields}
use no8s_operator.Db.Rows.{deleting, status_eq, Resource, History, Database}
use no8s_operator.Db.Resources
use no8s_operator.Db.Finalizers
use no8s_operator.Db.Queue
use no8s_operator.Auth.{Claims, check_resource_permission}
use no8s_operator.Management.{Services, with_db, caught, or_404, find_resource}

abbrev pub readable : Claims → Database → Resource → Bool
readable user db r =
    check_resource_permission user db r.resource_type_name r.resource_type_version "READ"

-- The claims have no "role", so the filter is applied to the list of an admin too.
unfoldable pub list_resources :
    Services → Claims → Option String → Option String → ℕ → Action Database (List Resource)
list_resources s user status action_plugin limit = with_db s (
    gets (λ db. filter (readable user db) (Resources.list_resources status action_plugin limit db)))

unfoldable pub get_resource_by_id : Services → Claims → ℕ → Action Database Resource
get_resource_by_id s user i = with_db s (λ db. (find_resource user "READ" i db, db))

-- Here the permission is asked for first.
unfoldable pub get_resource_by_name :
    Services → Claims → String → String → String → Action Database Resource
get_resource_by_name s user type_name type_version name = with_db s (λ db.
    if check_resource_permission user db type_name type_version "READ"
    then or_404 "Resource not found" (Resources.get_resource_by_name name type_name type_version db)
        db
    else (err (http 403 "Insufficient permissions"), db))

unfoldable pub add_all : ℕ → ℕ → List String → Action Database (Unit {0})
add_all now i [] db = (ok tt, db)
add_all now i (f ∷ fs) db = (Finalizers.add_finalizer now i f >> add_all now i fs) db

unfoldable pub remove_all : ℕ → ℕ → List String → Action Database (Unit {0})
remove_all now i [] db = (ok tt, db)
remove_all now i (f ∷ fs) db = (Finalizers.remove_finalizer now i f >> remove_all now i fs) db

-- The answer: the resource, or that it is deleted.
pub data Updated : Type 0 where
  updated : Resource → Updated
  resource_deleted : ℕ → Updated

abbrev pub read_updated : ℕ → Action Database Updated
read_updated i db = elim (Resources.get_resource i db) [
  | none ↦ (err (http 404 "Resource not found"), db)
  | some r ↦ (ok (updated r), db)
]

-- `if not remaining`
abbrev pub delete_if_free : ℕ → List String → Action Database Updated
delete_if_free i [] db = (Finalizers.hard_delete_resource i >> pure (resource_deleted i)) db
delete_if_free i (f ∷ fs) db = read_updated i db

-- By the status as it was read before the finalizers were changed.
unfoldable pub finish_update : Resource → ℕ → Action Database Updated
finish_update r i db =
    if r.status == deleting
    then delete_if_free i (Finalizers.get_finalizers i db) db
    else read_updated i db

unfoldable pub update_finalizers :
    (Error → String)
    → ℕ
    → Services
    → Claims
    → ℕ
    → List String
    → List String
    → Action Database Updated
update_finalizers text now s user i add remove = with_db s (
    caught text (
      (λ db. (find_resource user "UPDATE" i db, db))
      >>= (λ r. add_all now i add >> remove_all now i remove >> finish_update r i)))

unfoldable pub trigger_reconciliation :
    (Error → String) → ℕ → Services → Claims → ℕ → Action Database ℕ
trigger_reconciliation text now s user i = with_db s (
    caught text (
      (λ db. (find_resource user "UPDATE" i db, db))
      >> Resources.mark_resource_for_reconciliation now i 0
      >> pure i))

unfoldable pub get_reconciliation_history :
    Services → Claims → ℕ → ℕ → Action Database (List History)
get_reconciliation_history s user i limit = with_db s (
    (λ db. (find_resource user "READ" i db, db)) >> gets (Queue.get_reconciliation_history i limit))

unfoldable pub get_resource_outputs : Services → Claims → ℕ → Action Database Fields
get_resource_outputs s user i =
    with_db s ((λ db. (find_resource user "READ" i db, db)) >>= (λ r. pure r.outputs))
