-- ===== src/Api/Examples.antt =====
-- The theorems on src/plugins/inputs/http/api.py for one resource, one user and no webhook.
use no8s_operator.Base.{
  ℕ, String, ◌≡◌, refl, true, Option, none, some, List, [], ◌∷◌, arith, string_eq, nat_eq,
}
use no8s_operator.Base.Result.{Error, Result, ok, err, http}
use no8s_operator.Base.Sort.{sort}
use no8s_operator.Json.{Value, Fields, end}
use no8s_operator.Db.Rows.{ready, status_eq, Resource, Webhook, empty}
use no8s_operator.Db.Resources.{get_resource, update_resource}
use no8s_operator.Db.ResourceTypes.{get_resource_type_by_name_version}
use no8s_operator.Db.Webhooks.{get_matching_webhooks}
use no8s_operator.Admission.{AdmissionRequest, run, run_mutating, run_validating}
use no8s_operator.Auth.{Claims, check_resource_permission}
use no8s_operator.Plugins.Registry.{Registry, empty_registry}
use no8s_operator.Api.{HttpInputPlugin, World, check_update, put_resource}
use no8s_operator.Api.Update.{answer, checks, refused_changes_nothing, wired_update_fails}

abbrev pub endpoint : Webhook → AdmissionRequest → Option Value
endpoint w q = none

abbrev pub no_errors : Fields → Fields → Result (List String)
no_errors schema spec = ok []

abbrev plugin : HttpInputPlugin
plugin = record {
  db_manager = true;
  admission_chain = true;
  event_bus = true;
  on_resource_event = some true;
}

abbrev pub text : Error → String
text e = "error"

abbrev pub hash : Fields → String
hash d = "digest"

abbrev pub ann : Claims
ann = record {
  sub = 1;
  username = "ann";
  is_admin = true;
  source = "manual";
  custom_role_id = none;
}

abbrev pub resource : Resource
resource = record {
  id = 1;
  name = "db";
  resource_type_name = "Cluster";
  resource_type_version = "v1";
  action_plugin = "";
  spec = end;
  plugin_config = end;
  metadata = end;
  outputs = end;
  status = ready;
  status_message = none;
  generation = 1;
  observed_generation = 1;
  spec_hash = "digest";
  retry_count = 0;
  last_reconcile_time = none;
  next_reconcile_time = none;
  conditions = [];
  finalizers = [];
  created_at = 0;
  updated_at = 0;
  deleted_at = none;
}

abbrev registry : Registry
registry = empty_registry

abbrev world : World
world = record {
  db = record empty { resources = resource ∷ []; next_resource_id = 2 };
  bus = record { queue_size = 256; subscribers = []; unsubscribed = [] };
  registry = registry;
}

abbrev put_to : ℕ → Result Resource × World
put_to i =
    answer endpoint no_errors plugin text hash "2024-01-01T00:00:00Z" 9 ann i (some end) none world

missing_test : (put_to 2).0 ≡ err (http 404 "Resource not found")
unfolding put_resource check_update get_resource nat_eq
missing_test = refl

refused_changes_nothing_example : (put_to 2).1 ≡ world
refused_changes_nothing_example =
    refused_changes_nothing endpoint no_errors plugin text hash "2024-01-01T00:00:00Z" 9 ann 2
      (some end) none world 404 "Resource not found" missing_test (λ e. ground arith)

checks_test :
    checks endpoint no_errors plugin text hash "2024-01-01T00:00:00Z" 9 ann 1 (some end) none world
    ≡ ok (some end)
unfolding check_update get_resource check_resource_permission get_resource_type_by_name_version run
    run_mutating run_validating get_matching_webhooks sort nat_eq string_eq
checks_test = refl

wired_update_fails_example :
    ((detail : String) × ((put_to 1).0 ≡ err (http 500 detail)))
    × ((put_to 1).1.db ≡ (update_resource hash 9 1 (some end) none world.db).1)
    × ((put_to 1).1.bus ≡ world.bus)
wired_update_fails_example =
    wired_update_fails endpoint no_errors plugin text hash "2024-01-01T00:00:00Z" 9 ann 1 (some end)
      none world (some end) refl checks_test
