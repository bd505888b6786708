-- ===== src/Management/Streams.antt =====
-- src/management_api.py: which events a stream sends to its reader. The stream itself is a subscription
-- of src/events.py with this filter.
use no8s_operator.Base.{
  ℕ, String, Bool, true, ◌&&◌, ◌||◌, Option, none, some, List, [], ◌==◌, string_eq, nat_eq,
  contains, any, filter, map, if◌then◌else◌,
}
use no8s_operator.Base.Result.{Result, ok, err, http}
use no8s_operator.Db.Rows.{Permission, Database}
use no8s_operator.Db.Roles.{get_custom_role_permissions}
use no8s_operator.Auth.{Claims, role_id_of}
use no8s_operator.Events.{ResourceEvent, EventBus, subscribe}
use no8s_operator.Management.{Services, find_resource}

-- `if resource_type:` is false of the empty text.
abbrev pub type_matches : Option String → ResourceEvent → Bool
type_matches none e = true
type_matches (some t) e = t == "" || e.resource_type_name == t

abbrev pub reads : Permission → Bool
reads p = contains p.operations "READ"

abbrev pub reads_all : Permission → Bool
reads_all p = p.resource_type_name == "*" && reads p

-- `allowed_types`: none where all types are allowed.
unfoldable pub allowed_types : List Permission → Option (List String)
allowed_types perms =
    if any reads_all perms
    then none
    else some (map (λ (p : Permission). p.resource_type_name) (filter reads perms))

abbrev pub type_allowed : Option (List String) → ResourceEvent → Bool
type_allowed none e = true
type_allowed (some types) e = contains types e.resource_type_name

-- `if custom_role_id and db_manager`, and else no type.
abbrev pub types_of : Services → Option ℕ → Database → Option (List String)
types_of s none db = some []
types_of s (some i) db =
    if s.db_manager then allowed_types (get_custom_role_permissions i db) else some []

-- The filter of `stream_all_events`, as it is computed when the stream is opened.
unfoldable pub event_filter : Services → Claims → Option String → Database → ResourceEvent → Bool
event_filter s user resource_type db e =
    if user.is_admin
    then type_matches resource_type e
    else type_allowed (types_of s (role_id_of user.custom_role_id) db) e
      && type_matches resource_type e

unfoldable pub stream_all_events :
    Services
    → Claims
    → Option String
    → String
    → Database
    → EventBus
    → Result (ResourceEvent → Bool) × EventBus
stream_all_events s user resource_type subscriber_id db bus =
    if s.event_bus
    then (ok (event_filter s user resource_type db), subscribe subscriber_id bus)
    else (err (http 503 "Event streaming not available"), bus)

unfoldable pub stream_resource_events :
    Services → Claims → ℕ → String → Database → EventBus → Result (ResourceEvent → Bool) × EventBus
stream_resource_events s user i subscriber_id db bus =
    if s.db_manager
    then (if s.event_bus
        then elim (find_resource user "READ" i db) [
          | err e ↦ (err e, bus)
          | ok r ↦ (ok (λ (e : ResourceEvent). e.resource_id == i), subscribe subscriber_id bus)
        ]
        else (err (http 503 "Event streaming not available"), bus))
    else (err (http 503 "Database not available"), bus)
