-- ===== src/Plugins.antt =====
-- src/plugins/base.py and src/plugins/actions/base.py: what the controller and a plugin exchange.
-- The methods of a plugin are fields of a record: their code belongs to the plugin.
pub mod Registry
mod Examples
use no8s_operator.Base.{ℕ, String, Bool, Option}
use no8s_operator.Base.Result.{Action}
use no8s_operator.Json.{Fields}
use no8s_operator.Db.Rows.{Database}

-- All methods of a plugin answer with one of these.
pub record ActionResult : Type 0 where
  pub success : Bool
  pub phase : String
  pub plan_output : String
  pub apply_output : String
  pub error_message : Option String
  pub resources_created : ℕ
  pub resources_updated : ℕ
  pub resources_deleted : ℕ
  pub outputs : Fields
  pub has_changes : Bool

pub record ActionContext : Type 0 where
  pub resource_id : ℕ
  pub resource_name : String
  pub generation : ℕ
  pub spec : Fields
  pub spec_hash : String
  pub plugin_config : Fields

-- The methods of an initialized plugin that the controller calls; `apply_changes` is `apply`, a name
-- that cannot be used here. While a method runs, other parts of the program may write to the database:
-- what stands there when it is done is the second component.
pub record Plugin : Type 0 where
  pub prepare : ActionContext → Action Database String
  pub plan : ActionContext → String → Action Database ActionResult
  pub apply_changes : ActionContext → String → Action Database ActionResult
  pub destroy : ActionContext → String → Action Database ActionResult
  pub cleanup : String → Action Database (Unit {0})
