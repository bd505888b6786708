-- ===== src/Db/Webhooks/Edits.antt =====
-- The other methods of src/db.py on the table `admission_webhooks`, but for its two time stamps, which
-- nothing reads.
use no8s_operator.Base.{
  ℕ, suc, String, Bool, true, ◌&&◌, Option, none, some, List, [], ◌∷◌, ◌++◌, ◌==◌, if◌then◌else◌,
  string_eq, nat_eq, option_eq, leb, any, filter, find, update_where, delete_where,
}
use no8s_operator.Base.Result.{Action, ok, err, modify, unique_violation}
use no8s_operator.Base.Sort.{sort}
use no8s_operator.Db.Rows.{Webhook, Database}
use no8s_operator.Db.Resources.{or_default}

-- What a webhook is created with: all columns but the id.
pub record NewWebhook : Type 0 where
  pub name : String
  pub webhook_url : String
  pub webhook_type : String
  pub operations : List String
  pub resource_type_name : Option String
  pub resource_type_version : Option String
  pub timeout_seconds : ℕ
  pub failure_policy : String
  pub ordering : ℕ

abbrev pub webhook_row : ℕ → NewWebhook → Webhook
webhook_row i w = record {
  id = i;
  name = w.name;
  resource_type_name = w.resource_type_name;
  resource_type_version = w.resource_type_version;
  webhook_url = w.webhook_url;
  webhook_type = w.webhook_type;
  operations = w.operations;
  timeout_seconds = w.timeout_seconds;
  failure_policy = w.failure_policy;
  ordering = w.ordering;
}

unfoldable pub create_admission_webhook : NewWebhook → Action Database ℕ
create_admission_webhook w db =
    let i = db.next_webhook_id in
    if any (λ (q : Webhook). q.name == w.name) db.webhooks
    then (
      err (unique_violation "admission_webhooks_name_key"),
      record db { next_webhook_id = suc i },
    )
    else (
      ok i,
      record db { next_webhook_id = suc i; webhooks = db.webhooks ++ webhook_row i w ∷ [] },
    )

abbrev pub is_webhook : ℕ → Webhook → Bool
is_webhook i w = w.id == i

unfoldable pub get_admission_webhook : ℕ → Database → Option Webhook
get_admission_webhook i db = find (is_webhook i) db.webhooks

-- A filter that is `None` is left out; `column = $1` is not true of NULL.
abbrev pub column_is : Option String → Option String → Bool
column_is none v = true
column_is (some f) v = v == some f

abbrev pub by_type_and_ordering : (String → String → Bool) → Webhook → Webhook → Bool
by_type_and_ordering le a b =
    if a.webhook_type == b.webhook_type
    then leb a.ordering b.ordering
    else le a.webhook_type b.webhook_type

-- `le` is the collation of the server.
unfoldable pub list_admission_webhooks :
    (String → String → Bool)
    → Option String
    → Option String
    → Option String
    → Database
    → List Webhook
list_admission_webhooks le resource_type_name resource_type_version webhook_type db =
    sort (by_type_and_ordering le) (
      filter
        (λ (w : Webhook).
          column_is resource_type_name w.resource_type_name
          && column_is resource_type_version w.resource_type_version
          && column_is webhook_type (some w.webhook_type))
        db.webhooks)

-- What is to be set; a field that is `None` is left out of the `SET` clause.
pub record WebhookChange : Type 0 where
  pub webhook_url : Option String
  pub webhook_type : Option String
  pub operations : Option (List String)
  pub resource_type_name : Option String
  pub resource_type_version : Option String
  pub timeout_seconds : Option ℕ
  pub failure_policy : Option String
  pub ordering : Option ℕ

abbrev pub or_same : Option String → Option String → Option String
or_same none old = old
or_same (some s) old = some s

abbrev pub with_change : WebhookChange → Webhook → Webhook
with_change c w = record w {
  resource_type_name = or_same c.resource_type_name w.resource_type_name;
  resource_type_version = or_same c.resource_type_version w.resource_type_version;
  webhook_url = or_default c.webhook_url w.webhook_url;
  webhook_type = or_default c.webhook_type w.webhook_type;
  operations = or_default c.operations w.operations;
  timeout_seconds = or_default c.timeout_seconds w.timeout_seconds;
  failure_policy = or_default c.failure_policy w.failure_policy;
  ordering = or_default c.ordering w.ordering;
}

-- With nothing to set there is no statement, which leaves the table as an update by nothing does.
unfoldable pub update_admission_webhook : ℕ → WebhookChange → Action Database (Unit {0})
update_admission_webhook i c =
    modify (λ db. record db { webhooks = update_where (is_webhook i) (with_change c) db.webhooks })

-- Whether a row was deleted; `if result:` is false of the id 0, which no row has.
unfoldable pub delete_admission_webhook : ℕ → Action Database Bool
delete_admission_webhook i db = (
  ok (any (is_webhook i) db.webhooks),
  record db { webhooks = delete_where (is_webhook i) db.webhooks },
)
