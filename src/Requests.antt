-- ===== src/Requests.antt =====
-- The validators of src/api_models.py, which run before the handlers. pydantic reports the errors of all
-- fields; here it is the first one. The texts
-- are without the field's name and value. How a dict is written as text is a parameter.
pub mod Names
mod Examples
use no8s_operator.Base.{
  ℕ, zero, suc, String, Bool, true, false, ◌&&◌, ◌||◌, Option, none, some, List, [], ◌∷◌, ◌==◌,
  length, if◌then◌else◌, nat_eq, string_eq, leb, ltb, contains,
}
use no8s_operator.Base.Paths.{codes}
use no8s_operator.Base.Result.{Result, ok, err, and_then, value_error}
use no8s_operator.Json.{Fields}
use no8s_operator.Db.Webhooks.Edits.{NewWebhook, WebhookChange}
use no8s_operator.Api.Create.{ResourceCreate}
use no8s_operator.Management.Accounts.{UserCreate}
use no8s_operator.Management.Roles.{CustomRoleCreate, CustomRoleUpdate}

-- `[a-z0-9]` and `[a-z0-9-]`
abbrev pub is_end_char : ℕ → Bool
is_end_char c = (leb 97 c && leb c 122) || (leb 48 c && leb c 57)

abbrev pub is_inner_char : ℕ → Bool
is_inner_char c = is_end_char c || c == 45

-- `$` stands at the end, and before a line feed that is the last character.
abbrev pub at_end : List ℕ → Bool
at_end [] = true
at_end (c ∷ []) = c == 10
at_end (c ∷ d ∷ s) = false

-- `[a-z0-9-]{0,n}[a-z0-9]$`
unfoldable pub match_rest : ℕ → List ℕ → Bool
match_rest n [] = false
match_rest zero (c ∷ s) = is_end_char c && at_end s
match_rest (suc n) (c ∷ s) =
    let rest = match_rest n s in (is_end_char c && at_end s) || (is_inner_char c && rest)

-- `NAME_PATTERN.match(value)`
unfoldable pub match_name : List ℕ → Bool
match_name [] = false
match_name (c ∷ s) = is_end_char c && (match_rest 61 s || at_end s)

unfoldable pub validate_name_format : String → Result String
validate_name_format value =
    if value == ""
    then err (value_error "cannot be empty")
    else if ltb 63 (length (codes value))
    then err (value_error "cannot exceed 63 characters")
    else if match_name (codes value)
    then ok value
    else err (value_error "must consist of lowercase alphanumeric characters or '-'")

-- 1 MB, in characters
abbrev pub max_spec_size : ℕ
max_spec_size = 1_048_576

module _ (dumps : Fields → String) where
  unfoldable pub validate_json_size : Option Fields → Result (Option Fields)
  validate_json_size none = ok none
  validate_json_size (some value) =
      if ltb max_spec_size (length (codes (dumps value)))
      then err (value_error "exceeds maximum size of 1024KB")
      else ok (some value)

  unfoldable pub validate_resource_create : ResourceCreate → Result ResourceCreate
  validate_resource_create r = and_then (validate_name_format r.name) (λ name.
      and_then (validate_json_size r.spec)
        (λ spec. and_then (validate_json_size r.plugin_config) (λ config. ok r)))

  unfoldable pub validate_resource_update :
      Option Fields → Option Fields → Result (Option Fields × Option Fields)
  validate_resource_update spec plugin_config =
      and_then (validate_json_size spec)
        (λ s. and_then (validate_json_size plugin_config) (λ config. ok (s, config)))

-- Every element is one of those that are allowed.
unfoldable pub check_each : String → List String → List String → Result (List String)
check_each text allowed [] = ok []
check_each text allowed (x ∷ xs) =
    let rest = check_each text allowed xs in
    if contains allowed x then and_then rest (λ ys. ok (x ∷ ys)) else err (value_error text)

unfoldable pub validate_webhook_type : String → Result String
validate_webhook_type v =
    if contains ("validating" ∷ "mutating" ∷ []) v
    then ok v
    else err (value_error "webhook_type must be 'validating' or 'mutating'")

unfoldable pub validate_operations : List String → Result (List String)
validate_operations v = check_each "Invalid operation" ("CREATE" ∷ "UPDATE" ∷ "DELETE" ∷ []) v

unfoldable pub validate_failure_policy : String → Result String
validate_failure_policy v =
    if contains ("Fail" ∷ "Ignore" ∷ []) v
    then ok v
    else err (value_error "failure_policy must be 'Fail' or 'Ignore'")

unfoldable pub validate_webhook_create : NewWebhook → Result NewWebhook
validate_webhook_create w = and_then (validate_webhook_type w.webhook_type) (λ t.
    and_then (validate_operations w.operations)
      (λ o. and_then (validate_failure_policy w.failure_policy) (λ p. ok w)))

-- A field that is `None` is not checked.
abbrev pub if_given : {A : Type 0} → (A → Result A) → Option A → Result (Option A)
if_given f none = ok none
if_given f (some a) = and_then (f a) (λ b. ok (some b))

unfoldable pub validate_webhook_update : WebhookChange → Result WebhookChange
validate_webhook_update w = and_then (if_given validate_webhook_type w.webhook_type) (λ t.
    and_then (if_given validate_operations w.operations)
      (λ o. and_then (if_given validate_failure_policy w.failure_policy) (λ p. ok w)))

unfoldable pub validate_user_create : UserCreate → Result UserCreate
validate_user_create u = and_then (validate_name_format u.username) (λ name. ok u)

unfoldable pub validate_system_permissions : List String → Result (List String)
validate_system_permissions v =
    check_each "Unknown system_permissions" ("view_webhooks" ∷ "view_plugins" ∷ []) v

unfoldable pub validate_role_create : CustomRoleCreate → Result CustomRoleCreate
validate_role_create r = and_then (validate_system_permissions r.system_permissions) (λ p. ok r)

unfoldable pub validate_role_update : CustomRoleUpdate → Result CustomRoleUpdate
validate_role_update r =
    and_then (if_given validate_system_permissions r.system_permissions) (λ p. ok r)
