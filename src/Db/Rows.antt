-- ===== src/Db/Rows.antt =====
-- The rows of the tables (src/migrations/001_initial_schema.sql) and the state that all operations
-- of src/db.py share. Instants are numbers of microseconds; `NOW()` is an argument of each operation.
use no8s_operator.Base.{ℕ, String, Bool, Option, List, [], Eq}
use no8s_operator.Json.{Fields}

pub data ResourceStatus : Type 0 where
  pending reconciling ready failed deleting : ResourceStatus

ResourceStatus-discrete : Discrete ResourceStatus
ResourceStatus-discrete = hlevel

instance unfoldable pub status_eq : Eq ResourceStatus
unfolding ResourceStatus-discrete
status_eq = record { dec = ResourceStatus-discrete }

-- `ResourceStatus.value`
abbrev pub value : ResourceStatus → String
value pending = "pending"
value reconciling = "reconciling"
value ready = "ready"
value failed = "failed"
value deleting = "deleting"

-- `status` is "True", "False" or "Unknown".
pub record Condition : Type 0 where
  pub type : String
  pub status : String
  pub reason : String
  pub message : String
  pub last_transition_time : ℕ
  pub observed_generation : ℕ

pub record Resource : Type 0 where
  pub id : ℕ
  pub name : String
  pub resource_type_name : String
  pub resource_type_version : String
  pub action_plugin : String
  pub spec : Fields
  pub plugin_config : Fields
  pub metadata : Fields
  pub outputs : Fields
  pub status : ResourceStatus
  pub status_message : Option String
  pub generation : ℕ
  pub observed_generation : ℕ
  pub spec_hash : String
  pub retry_count : ℕ
  pub last_reconcile_time : Option ℕ
  pub next_reconcile_time : Option ℕ
  pub conditions : List Condition
  pub finalizers : List String
  pub created_at : ℕ
  pub updated_at : ℕ
  pub deleted_at : Option ℕ

-- A row of reconciliation_history.
pub record History : Type 0 where
  pub resource_id : ℕ
  pub generation : ℕ
  pub success : Bool
  pub phase : String
  pub plan_output : Option String
  pub apply_output : Option String
  pub error_message : Option String
  pub resources_created : ℕ
  pub resources_updated : ℕ
  pub resources_deleted : ℕ
  pub duration_seconds : Option ℕ
  pub trigger_reason : Option String
  pub drift_detected : Bool
  pub reconcile_time : ℕ

pub record ResourceType : Type 0 where
  pub id : ℕ
  pub name : String
  pub version : String
  pub schema : Fields
  pub description : Option String
  pub status : String
  pub metadata : Fields
  pub updated_at : ℕ

pub record Webhook : Type 0 where
  pub id : ℕ
  pub name : String
  pub resource_type_name : Option String
  pub resource_type_version : Option String
  pub webhook_url : String
  pub webhook_type : String
  pub operations : List String
  pub timeout_seconds : ℕ
  pub failure_policy : String
  pub ordering : ℕ

pub record Lock : Type 0 where
  pub resource_key : String
  pub holder_id : String
  pub acquired_at : ℕ
  pub lease_duration_seconds : ℕ

pub record Node : Type 0 where
  pub node_id : String
  pub hostname : String
  pub pid : String
  pub first_seen : ℕ
  pub last_heartbeat : ℕ
  pub lease_duration_seconds : ℕ

pub record Role : Type 0 where
  pub id : ℕ
  pub name : String
  pub description : Option String
  pub system_permissions : List String

pub record Permission : Type 0 where
  pub id : ℕ
  pub role_id : ℕ
  pub resource_type_name : String
  pub resource_type_version : String
  pub operations : List String

pub record User : Type 0 where
  pub id : ℕ
  pub username : String
  pub email : Option String
  pub display_name : Option String
  pub source : String
  pub is_admin : Bool
  pub status : String
  pub custom_role_id : Option ℕ
  pub password_hash : Option String
  pub ldap_dn : Option String
  pub ldap_uid : Option String
  pub last_login_at : Option ℕ
  pub last_synced_at : Option ℕ

-- The tables, and the next value of each `SERIAL` column that an operation reads back.
pub record Database : Type 0 where
  pub resources : List Resource
  pub next_resource_id : ℕ
  pub history : List History
  pub resource_types : List ResourceType
  pub next_resource_type_id : ℕ
  pub webhooks : List Webhook
  pub next_webhook_id : ℕ
  pub locks : List Lock
  pub nodes : List Node
  pub roles : List Role
  pub next_role_id : ℕ
  pub permissions : List Permission
  pub next_permission_id : ℕ
  pub users : List User
  pub next_user_id : ℕ

abbrev pub empty : Database
empty = record {
  resources = [];
  next_resource_id = 1;
  history = [];
  resource_types = [];
  next_resource_type_id = 1;
  webhooks = [];
  next_webhook_id = 1;
  locks = [];
  nodes = [];
  roles = [];
  next_role_id = 1;
  permissions = [];
  next_permission_id = 1;
  users = [];
  next_user_id = 1;
}

-- INTERVAL '1 second' in microseconds.
abbrev pub second : ℕ
second = 1_000_000
