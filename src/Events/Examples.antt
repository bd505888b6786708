-- ===== src/Events/Examples.antt =====
-- The theorems on src/events.py for a bus with queues of size 1.
use no8s_operator.Base.{◌≡◌, refl, true, none, some, [], ◌∷◌, map}
use no8s_operator.Json
use no8s_operator.Db.Rows.{ready, Resource}
use no8s_operator.Events.{ResourceEvent, EventBus, created, from_resource, full}

abbrev resource : Resource
resource = record {
  id = 1;
  name = "db";
  resource_type_name = "Cluster";
  resource_type_version = "v1";
  action_plugin = "";
  spec = Json.end;
  plugin_config = Json.end;
  metadata = Json.end;
  outputs = Json.end;
  status = ready;
  status_message = none;
  generation = 1;
  observed_generation = 1;
  spec_hash = "";
  retry_count = 0;
  last_reconcile_time = none;
  next_reconcile_time = none;
  conditions = [];
  finalizers = [];
  created_at = 0;
  updated_at = 0;
  deleted_at = none;
}

abbrev first : ResourceEvent
first = from_resource "2024-01-01T00:00:00Z" created resource

abbrev bus : EventBus
bus = record { queue_size = 1; subscribers = []; unsubscribed = [] }

abbrev filled : EventBus
filled = record bus { subscribers = ("a", some first ∷ []) ∷ [] }

full_test : full 1 (map some (first ∷ [])) ≡ true
full_test = refl
