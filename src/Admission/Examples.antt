-- ===== src/Admission/Examples.antt =====
-- The theorems on src/admission.py for one spec and two webhooks.
use mathlib.Core.List.{Perm}
use no8s_operator.Base.{◌↔◌, Bool, ◌≡◌, refl, true, Option, none, some, [], ◌∷◌, string_eq, filter}
use no8s_operator.Base.Result.{ok}
use no8s_operator.Json.{
  Value, Fields, bool, num, str, arr, obj, nil, cons, end, field, get, set, remove,
}
use no8s_operator.Db.Webhooks.Order.{Matches, InOrder, matching_webhooks_ordered}
use no8s_operator.Db.Rows.{Webhook, Database, empty}
use no8s_operator.Db.Webhooks.{get_matching_webhooks}
use no8s_operator.Admission.{AdmissionRequest, put, delete}

abbrev small : Fields
small = field "size" (obj (field "cpu" (num "2") end)) end

abbrev bigger : Fields
bigger = field "size" (obj (field "cpu" (num "4") end)) end

abbrev smaller : Fields
smaller = field "size" (obj end) end

put_test : put ("cpu" ∷ []) "size" (num "4") small ≡ ok bigger
unfolding put get set string_eq
put_test = refl

delete_test : delete ("cpu" ∷ []) "size" small ≡ ok smaller
unfolding delete get set remove string_eq
delete_test = refl

abbrev mutator : Webhook
mutator = record {
  id = 1;
  name = "grow";
  resource_type_name = none;
  resource_type_version = none;
  webhook_url = "http://grow";
  webhook_type = "mutating";
  operations = "CREATE" ∷ [];
  timeout_seconds = 10;
  failure_policy = "Fail";
  ordering = 0;
}

abbrev validator : Webhook
validator = record mutator { id = 2; name = "check"; webhook_type = "validating" }

abbrev grow : Value
grow =
    obj (
      field "op" (str "replace")
        (field "path" (str "/spec/size/cpu") (field "value" (num "4") end)))

-- The mutating webhook patches, the validating one allows.
abbrev endpoint : Webhook → AdmissionRequest → Option Value
endpoint w q = some (obj (field "allowed" (bool true) (field "patches" (arr (cons grow nil)) end)))

abbrev hooks : Database
hooks = record empty { webhooks = validator ∷ mutator ∷ [] }

abbrev creation : AdmissionRequest
creation = record {
  operation = "CREATE";
  name = "db";
  resource_type_name = "Cluster";
  resource_type_version = "v1";
  spec = small;
  old_resource = none;
}

abbrev silent : Webhook → AdmissionRequest → Option Value
silent w q = none

matching_webhooks_ordered_example :
    let found = get_matching_webhooks "Cluster" "v1" "CREATE" hooks in
    (keeps : Webhook → Bool) × Perm found (filter keeps (validator ∷ mutator ∷ []))
    × ((w : Webhook) → (keeps w ≡ true) ↔ Matches "Cluster" "v1" "CREATE" w)
    × InOrder found
matching_webhooks_ordered_example = matching_webhooks_ordered "Cluster" "v1" "CREATE" hooks
