-- ===== src/Db/Webhooks.antt =====
-- Which admission webhooks src/db.py finds for a request, and in which order.
pub mod Order
pub mod Edits
use no8s_operator.Base.{
  ℕ, ◌≡◌, String, Bool, true, false, ◌&&◌, ◌||◌, Option, none, some, List, ◌==◌, if◌then◌else◌,
  string_eq, contains, filter, ltb, leb,
}
use no8s_operator.Base.Sort.{sort}
use no8s_operator.Db.Rows.{Webhook, Database}

-- `column IS NULL OR column = $1`
abbrev pub null_or : Option String → String → Bool
null_or none v = true
null_or (some c) v = c == v

-- `operations @> [operation]`
abbrev pub matches : String → String → String → Webhook → Bool
matches type_name type_version operation w =
    null_or w.resource_type_name type_name
    && null_or w.resource_type_version type_version
    && contains w.operations operation

-- A type that the `CASE` does not name sorts last, as NULL does.
abbrev pub type_rank : String → ℕ
type_rank t = if t == "mutating" then 0 else if t == "validating" then 1 else 2

abbrev pub comes_before : Webhook → Webhook → Bool
comes_before v w =
    if ltb (type_rank v.webhook_type) (type_rank w.webhook_type)
    then true
    else if ltb (type_rank w.webhook_type) (type_rank v.webhook_type)
    then false
    else leb v.ordering w.ordering

unfoldable pub get_matching_webhooks : String → String → String → Database → List Webhook
get_matching_webhooks type_name type_version operation db =
    sort comes_before (filter (matches type_name type_version operation) db.webhooks)
