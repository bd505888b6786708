-- ===== src/Plugins/Examples.antt =====
-- Two registrations of src/plugins/registry.py that clash, and the secret stores of a start.
use no8s_operator.Base.{◌≡◌, refl, none, some, [], ◌∷◌, string_eq}
use no8s_operator.Base.Assoc.{lookup, insert}
use no8s_operator.Base.Result.{ok, err, value_error, key_error}
use no8s_operator.Json.{end}
use no8s_operator.Plugins.Registry.{
  SecretStoreClass, register_reconciler_plugin, get_secret_store, list_secret_store_plugins,
  list_reconciler_plugins,
}
use no8s_operator.Plugins.Registry.Registration.{
  Found, register_secret_store_plugin, register_builtin_plugins,
}
use no8s_operator.Plugins.Registry.Claims.{started}

abbrev env_store : SecretStoreClass
env_store = record {
  load_config_from_env = ok end;
  create = λ config. ok (record { get_secret = λ key. err (key_error key) });
}

abbrev found : Found
found = record {
  env_store = some env_store;
  vault_store = none;
  aws_store = none;
  stores = none ∷ [];
  github_actions = none;
  http = none;
  reconcilers =
      some (record { name = "db"; resource_types = "Cluster" ∷ []; raises = none })
      ∷ none
      ∷ some (record { name = "other"; resource_types = "Queue" ∷ "Cluster" ∷ []; raises = none })
      ∷ [];
}

-- The second reconciler claims a type that is taken, and registers nothing.
started_test :
    (list_reconciler_plugins (started found) ≡ "db" ∷ [])
    × (list_secret_store_plugins (started found) ≡ "env" ∷ [])
unfolding register_builtin_plugins register_secret_store_plugin register_reconciler_plugin
    list_reconciler_plugins list_secret_store_plugins lookup insert string_eq
started_test = (refl, refl)

unknown_store_test :
    (get_secret_store (some "vault") (started found)).0
    ≡ err (value_error "Unknown secret store plugin")
unfolding get_secret_store register_builtin_plugins register_secret_store_plugin
    register_reconciler_plugin lookup insert string_eq
unknown_store_test = refl
