-- ===== src/Plugins/Registry/Registration.antt =====
-- src/plugins/registry.py: how classes are registered, alone and by `register_builtin_plugins`. The
-- classes that `entry_points` and the imports of the built-in modules yield are given.
use no8s_operator.Base.{String, string_eq, Option, none, some, List, [], ◌∷◌}
use no8s_operator.Base.Assoc.{insert}
use no8s_operator.Base.Result.{Result, Action, ok, err, ◌>>◌}
use no8s_operator.Json.{Fields}
use no8s_operator.Plugins.Registry.{
  PluginClass, PluginInfo, InputClass, ReconcilerClass, SecretStoreClass, Registry,
  register_reconciler_plugin,
}

-- An exception of `load_config_from_env` comes when the class is already entered.
unfoldable pub register_action_plugin :
    PluginInfo → Result Fields → PluginClass → Action Registry (Unit {0})
register_action_plugin info config c g =
    let entered : Registry = record g {
      action_plugins = insert info.name c g.action_plugins;
      action_plugin_info = insert info.name info g.action_plugin_info;
    } in
    elim config [
      | err e ↦ (err e, entered)
      | ok fields ↦ (
        ok tt,
        record entered {
          action_plugin_configs = insert info.name fields entered.action_plugin_configs;
        },
      )
    ]

unfoldable pub register_input_plugin :
    PluginInfo → Result Fields → InputClass → Action Registry (Unit {0})
register_input_plugin info config c g =
    let entered : Registry = record g {
      input_plugins = insert info.name c g.input_plugins;
      input_plugin_info = insert info.name info g.input_plugin_info;
    } in
    elim config [
      | err e ↦ (err e, entered)
      | ok fields ↦ (
        ok tt,
        record entered {
          input_plugin_configs = insert info.name fields entered.input_plugin_configs;
        },
      )
    ]

unfoldable pub register_secret_store_plugin : String → SecretStoreClass → Action Registry (Unit {0})
register_secret_store_plugin name c g =
    (ok tt, record g { secret_store_plugins = insert name c g.secret_store_plugins })

-- `try: register(ep.load()) except Exception`: `none` is an entry point that cannot be loaded, and a
-- registration that raises is logged and passed over.
abbrev pub try_each :
    {C : Type 0} → (C → Action Registry (Unit {0})) → List (Option C) → Registry → Registry
try_each register [] g = g
try_each register (none ∷ cs) g = try_each register cs g
try_each register (some c ∷ cs) g = try_each register cs (register c g).1

-- `try: import … except ImportError`: `none` is a module that is not there; nothing else is caught.
abbrev pub if_imported :
    {C : Type 0} → (C → Action Registry (Unit {0})) → Option C → Action Registry (Unit {0})
if_imported register none g = (ok tt, g)
if_imported register (some c) g = register c g

-- The classes that a start finds: those of the built-in modules, and those of the entry points.
pub record Found : Type 0 where
  pub env_store : Option SecretStoreClass
  pub vault_store : Option SecretStoreClass
  pub aws_store : Option SecretStoreClass
  pub stores : List (Option (String × SecretStoreClass))
  pub github_actions : Option (PluginInfo × Result Fields × PluginClass)
  pub http : Option (PluginInfo × Result Fields × InputClass)
  pub reconcilers : List (Option ReconcilerClass)

abbrev pub in_order : List (Action Registry (Unit {0})) → Action Registry (Unit {0})
in_order [] g = (ok tt, g)
in_order (m ∷ ms) g = (m >> in_order ms) g

abbrev pub register_store : String × SecretStoreClass → Action Registry (Unit {0})
register_store (name, c) g = register_secret_store_plugin name c g

abbrev pub register_action : PluginInfo × Result Fields × PluginClass → Action Registry (Unit {0})
register_action (info, config, c) g = register_action_plugin info config c g

abbrev pub register_input : PluginInfo × Result Fields × InputClass → Action Registry (Unit {0})
register_input (info, config, c) g = register_input_plugin info config c g

abbrev pub try_all :
    {C : Type 0} → (C → Action Registry (Unit {0})) → List (Option C) → Action Registry (Unit {0})
try_all register cs g = (ok tt, try_each register cs g)

abbrev pub steps : Found → List (Action Registry (Unit {0}))
steps found =
    if_imported (register_secret_store_plugin "env") found.env_store
    ∷ if_imported (register_secret_store_plugin "vault") found.vault_store
    ∷ if_imported (register_secret_store_plugin "aws_secrets_manager") found.aws_store
    ∷ try_all register_store found.stores
    ∷ if_imported register_action found.github_actions
    ∷ if_imported register_input found.http
    ∷ try_all register_reconciler_plugin found.reconcilers
    ∷ []

unfoldable pub register_builtin_plugins : Found → Action Registry (Unit {0})
register_builtin_plugins found = in_order (steps found)
