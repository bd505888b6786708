-- ===== src/Db/Resources.antt =====
-- The statements of src/db.py on the table `resources`, one function for each method.
pub mod Laws
pub mod Absent
pub mod Deleted
use no8s_operator.Base.{
  ℕ, suc, ◌+◌, ◌*◌, String, Bool, true, false, ◌&&◌, ◌||◌, Option, none, some, List, [], ◌∷◌, ◌++◌,
  ◌==◌, if◌then◌else◌, string_eq, nat_eq, leb, any, filter, find, update_where, take,
}
use no8s_operator.Base.Result.{Action, ok, err, modify, unique_violation, value_error}
use no8s_operator.Base.Sort.{sort}
use no8s_operator.Json
use no8s_operator.Json.{Fields}
use no8s_operator.Db.Rows.{pending, deleting, status_eq, value, Resource, Database}

abbrev pub is_none {ℓ} : {A : Type ℓ} → Option A → Bool
is_none none = true
is_none (some a) = false

abbrev pub or_default {ℓ} : {A : Type ℓ} → Option A → A → A
or_default none d = d
or_default (some a) d = a

abbrev pub has_id : ℕ → Resource → Bool
has_id i r = r.id == i

-- `SELECT … FROM resources WHERE id = $1`
abbrev pub row : ℕ → Database → Option Resource
row i db = find (has_id i) db.resources

-- `UPDATE resources SET f WHERE id = $1`
abbrev pub update_row : ℕ → (Resource → Resource) → Database → Database
update_row i f db = record db { resources = update_where (has_id i) f db.resources }

abbrev pub name_taken : String → Database → Bool
name_taken n db = any (λ (r : Resource). r.name == n) db.resources

-- The SHA-256 digest of the spec's canonical JSON comes from `hashlib` and `json`.
module _ (calculate_spec_hash : Fields → String) where
  unfoldable pub new_resource :
      ℕ → ℕ → String → String → String → String → Fields → Fields → Fields → List String → Resource
  new_resource now i name type_name type_version action_plugin spec plugin_config metadata
        finalizers =
      record {
        id = i;
        name = name;
        resource_type_name = type_name;
        resource_type_version = type_version;
        action_plugin = action_plugin;
        spec = spec;
        plugin_config = plugin_config;
        metadata = metadata;
        outputs = Json.end;
        status = pending;
        status_message = none;
        generation = 1;
        observed_generation = 0;
        spec_hash = calculate_spec_hash spec;
        retry_count = 0;
        last_reconcile_time = none;
        next_reconcile_time = some now;
        conditions = [];
        finalizers = finalizers;
        created_at = now;
        updated_at = now;
        deleted_at = none;
      }

  -- The sequence behind `id` advances before the constraint on `name` is checked.
  unfoldable pub create_resource :
      ℕ
      → String
      → String
      → String
      → String
      → Option Fields
      → Option Fields
      → Option Fields
      → Option (List String)
      → Action Database ℕ
  unfolding new_resource
  create_resource now name type_name type_version action_plugin spec plugin_config metadata
        finalizers db =
      let i = db.next_resource_id in
      let r =
        new_resource now i name type_name type_version action_plugin (or_default spec Json.end)
          (or_default plugin_config Json.end) (or_default metadata Json.end)
          (or_default finalizers (action_plugin ∷ [])) in
      if name_taken name db
      then (err (unique_violation "resources_name_key"), record db { next_resource_id = suc i })
      else (ok i, record db { next_resource_id = suc i; resources = db.resources ++ r ∷ [] })

  -- The `UPDATE`, from the row that the `SELECT` of the same method returned.
  abbrev pub respecified : ℕ → Option Fields → Option Fields → Resource → Resource → Resource
  respecified now spec plugin_config current r =
      let new_spec = or_default spec current.spec in
      record r {
        spec = new_spec;
        plugin_config = or_default plugin_config current.plugin_config;
        spec_hash = calculate_spec_hash new_spec;
        generation = current.generation + 1;
        status = pending;
        next_reconcile_time = some now;
        updated_at = now;
      }

  unfoldable pub update_resource :
      ℕ → ℕ → Option Fields → Option Fields → Action Database (Unit {0})
  update_resource now i spec plugin_config db = elim (row i db) [
    | none ↦ (err (value_error "not found"), db)
    | some current ↦ (ok tt, update_row i (respecified now spec plugin_config current) db)
  ]

-- Soft delete.
unfoldable pub delete_resource : ℕ → ℕ → Action Database (Unit {0})
delete_resource now i = modify (
    update_row i
      (λ r. record r { status = deleting; deleted_at = some now; next_reconcile_time = some now }))

unfoldable pub get_resource : ℕ → Database → Option Resource
get_resource i db = find (λ (r : Resource). has_id i r && is_none r.deleted_at) db.resources

unfoldable pub get_resource_by_name : String → String → String → Database → Option Resource
get_resource_by_name name type_name type_version db =
    find
      (λ (r : Resource).
        r.name == name
        && r.resource_type_name == type_name
        && r.resource_type_version == type_version
        && is_none r.deleted_at)
      db.resources

-- `if status:` is false of `None` and of the empty text.
abbrev passes : Option String → String → Bool
passes none v = true
passes (some f) v = f == "" || v == f

newest_first : Resource → Resource → Bool
newest_first a b = leb b.created_at a.created_at

unfoldable pub list_resources : Option String → Option String → ℕ → Database → List Resource
unfolding newest_first
list_resources status action_plugin limit db = take limit (
    sort newest_first (
      filter
        (λ (r : Resource).
          is_none r.deleted_at
          && passes status (value r.status)
          && passes action_plugin r.action_plugin)
        db.resources))

unfoldable pub mark_resource_for_reconciliation : ℕ → ℕ → ℕ → Action Database (Unit {0})
mark_resource_for_reconciliation now i delay_seconds =
    modify (
      update_row i (λ r. record r { next_reconcile_time = some (now + 1_000_000 * delay_seconds) }))

unfoldable pub update_resource_outputs : ℕ → ℕ → Fields → Action Database (Unit {0})
update_resource_outputs now i outputs =
    modify (update_row i (λ r. record r { outputs = outputs; updated_at = now }))
