-- ===== src/Management/Webhooks.antt =====
-- src/management_api.py: the admission webhooks, and which plugins there are.
use no8s_operator.Base.{ℕ, String, Bool, Option, none, some, List, [], ◌∷◌, if◌then◌else◌}
use no8s_operator.Base.Result.{Error, Action, ok, err, ◌>>=◌, ◌>>◌, gets, http, type_error}
use no8s_operator.Db.Rows.{Webhook, Database}
use no8s_operator.Db.Webhooks.Edits
use no8s_operator.Db.Webhooks.Edits.{NewWebhook, WebhookChange}
use no8s_operator.Auth.{Claims, check_system_permission}
use no8s_operator.Plugins.Registry.{
  PluginInfo, Registry, list_action_plugins, list_input_plugins, get_action_plugin_info,
  get_input_plugin_info,
}
use no8s_operator.Management.{
  Services, as_admin, with_db, caught, caught_unique, or_404, deleted_or,
}

abbrev pub with_permission : {A : Type 0} → Claims → String → Action Database A → Action Database A
with_permission user permission body db =
    if check_system_permission user db permission
    then body db
    else (err (http 403 "Insufficient permissions"), db)

-- `for name in …: if info`
unfoldable pub infos : (String → Option PluginInfo) → List String → List PluginInfo
infos info [] = []
infos info (name ∷ names) =
    let rest = infos info names in elim (info name) [ none ↦ rest | some i ↦ i ∷ rest ]

unfoldable pub plugin_actions : Services → Claims → Registry → Action Database (List PluginInfo)
plugin_actions s user g = with_db s (
    with_permission user "view_plugins"
      (gets (λ db. infos (λ name. get_action_plugin_info name g) (list_action_plugins g))))

unfoldable pub plugin_inputs : Services → Claims → Registry → Action Database (List PluginInfo)
plugin_inputs s user g = with_db s (
    with_permission user "view_plugins"
      (gets (λ db. infos (λ name. get_input_plugin_info name g) (list_input_plugins g))))

abbrev pub created_webhook : ℕ → Action Database Webhook
created_webhook i db = elim (Edits.get_admission_webhook i db) [
  | none ↦ (err (type_error "argument after ** must be a mapping, not NoneType"), db)
  | some w ↦ (ok w, db)
]

unfoldable pub create_admission_webhook :
    (Error → String) → Services → Claims → NewWebhook → Action Database Webhook
create_admission_webhook text s user webhook = as_admin user (
    with_db s (
      caught_unique text "Admission webhook already exists"
        (Edits.create_admission_webhook webhook >>= created_webhook)))

unfoldable pub list_admission_webhooks :
    (String → String → Bool)
    → Services
    → Claims
    → Option String
    → Option String
    → Option String
    → Action Database (List Webhook)
list_admission_webhooks le s user resource_type_name resource_type_version webhook_type =
    with_db s (
      with_permission user "view_webhooks" (
        gets
          (Edits.list_admission_webhooks le resource_type_name resource_type_version webhook_type)))

unfoldable pub get_admission_webhook : Services → Claims → ℕ → Action Database Webhook
get_admission_webhook s user i = with_db s (
    with_permission user "view_webhooks"
      (λ db. or_404 "Admission webhook not found" (Edits.get_admission_webhook i db) db))

unfoldable pub update_admission_webhook :
    (Error → String) → Services → Claims → ℕ → WebhookChange → Action Database Webhook
update_admission_webhook text s user i change = as_admin user (
    with_db s (
      caught text (
        Edits.update_admission_webhook i change
        >> (λ db. or_404 "Admission webhook not found" (Edits.get_admission_webhook i db) db))))

unfoldable pub delete_admission_webhook :
    (Error → String) → Services → Claims → ℕ → Action Database (Unit {0})
delete_admission_webhook text s user i = as_admin user (
    with_db s (
      caught text
        (Edits.delete_admission_webhook i >>= deleted_or 404 "Admission webhook not found")))
