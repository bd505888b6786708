-- ===== src/Plugins/Registry/Claims.antt =====
-- src/plugins/registry.py: every resource type that is claimed has a registered reconciler.
use no8s_operator.Base.{String, ◌≡◌, ◌⊎◌, true, some, string_eq}
use no8s_operator.Base.Assoc.{lookup, has}
use no8s_operator.Base.Result.{Result, Action, ok, err, external}
use no8s_operator.Plugins.Registry.{ReconcilerClass, Registry, empty_registry}
use no8s_operator.Plugins.Registry.Registration.{Found, register_builtin_plugins}

AllRegistered : Registry → Type 0
AllRegistered g =
    (t name : String)
    → lookup t g.resource_type_to_reconciler ≡ some name
    → has name g.reconciler_plugins ≡ true

abbrev Keeps : Action Registry (Unit {0}) → Type 0
Keeps m = (g : Registry) → AllRegistered g → AllRegistered (m g).1

-- The instance of the class is there, or its constructor raises.
abbrev pub IsGiven : ReconcilerClass → Result ReconcilerClass → Type 0
IsGiven c answer =
    (answer ≡ ok c) ⊎ ((e : String) × (c.raises ≡ some e) × (answer ≡ err (external e)))

-- What a start registers, whatever it finds and wherever it fails.
abbrev pub started : Found → Registry
started found = (register_builtin_plugins found empty_registry).1
