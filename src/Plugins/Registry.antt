-- ===== src/Plugins/Registry.antt =====
-- src/plugins/registry.py: plugin classes by name, their instances, and which reconciler claims which
-- resource type. What a class answers before it is made an instance (its name, its version and
-- `load_config_from_env`) is given when it is registered.
pub mod Registration
pub mod Claims
use no8s_operator.Base.{
  String, Bool, true, false, not, ◌&&◌, Option, none, some, List, [], ◌∷◌, ◌==◌, if◌then◌else◌,
  string_eq,
}
use no8s_operator.Base.Assoc.{Dict, keys, lookup, insert, has}
use no8s_operator.Base.Result.{Result, Action, ok, err, value_error, external}
use no8s_operator.Json.{Fields, end}
use no8s_operator.Plugins.{Plugin}

-- `plugin_class()` followed by `initialize(config)`.
abbrev pub PluginClass : Type 0
PluginClass = Fields → Result Plugin

-- A reconciler is known by the types it claims; its loop is no part of the registry. `raises` is the
-- text of the exception with which its constructor ends when the instance to be kept is made, if it
-- does not return; name and types are those of the instance made for the registration.
pub record ReconcilerClass : Type 0 where
  pub name : String
  pub resource_types : List String
  pub raises : Option String

-- What the registry keeps of a class besides the class: `{"name": …, "version": …}`.
pub record PluginInfo : Type 0 where
  pub name : String
  pub version : String

-- The methods of an input plugin that is initialized and can be asked by its owner.
pub record InputPlugin : Type 0 where
  pub name : String
  pub health_check : Bool × String

pub record SecretStore : Type 0 where
  pub get_secret : String → Result String

abbrev pub InputClass : Type 0
InputClass = Fields → Result InputPlugin

-- `load_config_from_env`, and `plugin_class()` followed by `initialize(config)`.
pub record SecretStoreClass : Type 0 where
  pub load_config_from_env : Result Fields
  pub create : Fields → Result SecretStore

pub record Registry : Type 0 where
  pub action_plugins : Dict String PluginClass
  pub action_instances : Dict String Plugin
  pub action_plugin_info : Dict String PluginInfo
  pub action_plugin_configs : Dict String Fields
  pub input_plugins : Dict String InputClass
  pub input_instances : Dict String InputPlugin
  pub input_plugin_info : Dict String PluginInfo
  pub input_plugin_configs : Dict String Fields
  pub reconciler_plugins : Dict String ReconcilerClass
  pub reconciler_instances : Dict String ReconcilerClass
  pub reconciler_plugin_info : Dict String ReconcilerClass
  pub resource_type_to_reconciler : Dict String String
  pub secret_store_plugins : Dict String SecretStoreClass
  pub secret_store_instance : Option SecretStore
  pub active_secret_store_name : String

-- `PluginRegistry()`
abbrev pub empty_registry : Registry
empty_registry = record {
  action_plugins = [];
  action_instances = [];
  action_plugin_info = [];
  action_plugin_configs = [];
  input_plugins = [];
  input_instances = [];
  input_plugin_info = [];
  input_plugin_configs = [];
  reconciler_plugins = [];
  reconciler_instances = [];
  reconciler_plugin_info = [];
  resource_type_to_reconciler = [];
  secret_store_plugins = [];
  secret_store_instance = none;
  active_secret_store_name = "env";
}

-- The class is looked up before the instances are.
unfoldable pub get_action_plugin : String → Fields → Action Registry Plugin
get_action_plugin name config g = elim (lookup name g.action_plugins) [
  | none ↦ (err (value_error "Unknown action plugin"), g)
  | some plugin_class ↦ elim (lookup name g.action_instances) [
    | some plugin ↦ (ok plugin, g)
    | none ↦ elim (plugin_class config) [
      | err e ↦ (err e, g)
      | ok plugin ↦
          (ok plugin, record g { action_instances = insert name plugin g.action_instances })
    ]
  ]
]

-- `existing and existing != name`: the empty name claims nothing.
abbrev pub conflicts : String → Option String → Bool
conflicts name none = false
conflicts name (some existing) = not (existing == "") && not (existing == name)

pub any_conflict : String → List String → Dict String String → Bool
any_conflict name [] claims = false
any_conflict name (t ∷ ts) claims =
    let rest = any_conflict name ts claims in
    if conflicts name (lookup t claims) then true else rest

abbrev pub claim : String → List String → Dict String String → Dict String String
claim name [] claims = claims
claim name (t ∷ ts) claims = claim name ts (insert t name claims)

unfoldable pub register_reconciler_plugin : ReconcilerClass → Action Registry (Unit {0})
unfolding any_conflict
register_reconciler_plugin c g =
    if any_conflict c.name c.resource_types g.resource_type_to_reconciler
    then (err (value_error "Resource type is already claimed"), g)
    else (
      ok tt,
      record g {
        reconciler_plugins = insert c.name c g.reconciler_plugins;
        reconciler_plugin_info = insert c.name c g.reconciler_plugin_info;
        resource_type_to_reconciler = claim c.name c.resource_types g.resource_type_to_reconciler;
      },
    )

-- `plugin_class()`, by what its constructor raises; what it returns is kept.
abbrev pub keep_instance :
    String → ReconcilerClass → Option String → Action Registry ReconcilerClass
keep_instance name c (some text) g = (err (external text), g)
keep_instance name c none g =
    (ok c, record g { reconciler_instances = insert name c g.reconciler_instances })

unfoldable pub get_reconciler_plugin : String → Action Registry ReconcilerClass
get_reconciler_plugin name g = elim (lookup name g.reconciler_plugins) [
  | none ↦ (err (value_error "Unknown reconciler plugin"), g)
  | some c ↦ elim (lookup name g.reconciler_instances) [
    | some r ↦ (ok r, g)
    | none ↦ keep_instance name c c.raises g
  ]
]

unfoldable pub list_reconciler_plugins : Registry → List String
list_reconciler_plugins g = keys g.reconciler_plugins

unfoldable pub has_reconciler_for_resource_type : String → Registry → Bool
has_reconciler_for_resource_type t g = has t g.resource_type_to_reconciler

unfoldable pub get_reconciler_for_resource_type : String → Action Registry (Option ReconcilerClass)
get_reconciler_for_resource_type t g = elim (lookup t g.resource_type_to_reconciler) [
  | none ↦ (ok none, g)
  | some name ↦
      let (r, g') = get_reconciler_plugin name g in
      elim r [ ok c ↦ (ok (some c), g') | err e ↦ (err e, g') ]
]

unfoldable pub has_action_plugin : String → Registry → Bool
has_action_plugin name g = has name g.action_plugins

unfoldable pub has_input_plugin : String → Registry → Bool
has_input_plugin name g = has name g.input_plugins

unfoldable pub list_action_plugins : Registry → List String
list_action_plugins g = keys g.action_plugins

unfoldable pub list_input_plugins : Registry → List String
list_input_plugins g = keys g.input_plugins

unfoldable pub get_input_plugin : String → Fields → Action Registry InputPlugin
get_input_plugin name config g = elim (lookup name g.input_plugins) [
  | none ↦ (err (value_error "Unknown input plugin"), g)
  | some plugin_class ↦ elim (lookup name g.input_instances) [
    | some plugin ↦ (ok plugin, g)
    | none ↦ elim (plugin_class config) [
      | err e ↦ (err e, g)
      | ok plugin ↦ (ok plugin, record g { input_instances = insert name plugin g.input_instances })
    ]
  ]
]

abbrev pub or_no_config : Option Fields → Fields
or_no_config none = end
or_no_config (some config) = config

unfoldable pub get_action_plugin_config : String → Registry → Fields
get_action_plugin_config name g = or_no_config (lookup name g.action_plugin_configs)

unfoldable pub get_input_plugin_config : String → Registry → Fields
get_input_plugin_config name g = or_no_config (lookup name g.input_plugin_configs)

unfoldable pub get_action_plugin_info : String → Registry → Option PluginInfo
get_action_plugin_info name g = lookup name g.action_plugin_info

unfoldable pub get_input_plugin_info : String → Registry → Option PluginInfo
get_input_plugin_info name g = lookup name g.input_plugin_info

unfoldable pub get_reconciler_plugin_info : String → Registry → Option ReconcilerClass
get_reconciler_plugin_info name g = lookup name g.reconciler_plugin_info

-- A name that is given becomes the active one, also where an instance is already there and returned.
abbrev pub activate : Option String → Registry → Registry
activate none g = g
activate (some name) g = record g { active_secret_store_name = name }

abbrev pub create_secret_store : SecretStoreClass → Action Registry SecretStore
create_secret_store c g = elim c.load_config_from_env [
  | err e ↦ (err e, g)
  | ok config ↦ elim (c.create config) [
    | err e ↦ (err e, g)
    | ok store ↦ (ok store, record g { secret_store_instance = some store })
  ]
]

unfoldable pub get_secret_store : Option String → Action Registry SecretStore
get_secret_store name g =
    let g' = activate name g in
    elim g'.secret_store_instance [
      | some store ↦ (ok store, g')
      | none ↦ elim (lookup g'.active_secret_store_name g'.secret_store_plugins) [
        | none ↦ (err (value_error "Unknown secret store plugin"), g')
        | some c ↦ create_secret_store c g'
      ]
    ]

unfoldable pub list_secret_store_plugins : Registry → List String
list_secret_store_plugins g = keys g.secret_store_plugins
