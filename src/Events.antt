-- ===== src/Events.antt =====
-- src/events.py: the bus between the writers of resources and the event streams. A queue belongs to
-- its subscription and outlives `unsubscribe`, so the bus keeps the queues of both kinds.
pub mod Delivery
pub mod Closing
mod Examples
use no8s_operator.Base.{
  ℕ, String, Bool, true, false, ◌&&◌, Option, none, some, List, [], ◌∷◌, ◌++◌, ◌==◌, if◌then◌else◌,
  string_eq, ltb, leb, length,
}
use no8s_operator.Base.Assoc.{Dict, lookup, insert, erase}
use no8s_operator.Db.Rows.{Resource}

pub data EventType : Type 0 where
  created modified deleted reconciled trigger : EventType

pub record ResourceEvent : Type 0 where
  pub event_type : EventType
  pub resource_id : ℕ
  pub resource_name : String
  pub resource_type_name : String
  pub resource_type_version : String
  pub resource_data : Resource
  pub timestamp : String

abbrev pub from_resource : String → EventType → Resource → ResourceEvent
from_resource timestamp event_type r = record {
  event_type = event_type;
  resource_id = r.id;
  resource_name = r.name;
  resource_type_name = r.resource_type_name;
  resource_type_version = r.resource_type_version;
  resource_data = r;
  timestamp = timestamp;
}

-- `none` is the sentinel.
abbrev pub Queue : Type 0
Queue = List (Option ResourceEvent)

pub record EventBus : Type 0 where
  pub queue_size : ℕ
  pub subscribers : Dict String Queue
  pub unsubscribed : Dict String Queue

-- A queue with a maximal size of 0 is never full.
abbrev pub full : ℕ → Queue → Bool
full size q = ltb 0 size && leb size (length q)

-- `put_nowait`, where the caller drops what a full queue refuses.
abbrev pub offer : ℕ → Option ResourceEvent → Queue → Queue
offer size x q = if full size q then q else q ++ x ∷ []

abbrev pub map_queues : (Queue → Queue) → Dict String Queue → Dict String Queue
map_queues f [] = []
map_queues f ((i, q) ∷ qs) = (i, f q) ∷ map_queues f qs

unfoldable pub publish : ResourceEvent → EventBus → EventBus
publish e b = record b { subscribers = map_queues (offer b.queue_size (some e)) b.subscribers }

-- `subscriber_id` is a fresh `uuid4`.
unfoldable pub subscribe : String → EventBus → EventBus
subscribe subscriber_id b = record b { subscribers = insert subscriber_id [] b.subscribers }

unfoldable pub unsubscribe : String → EventBus → EventBus
unsubscribe subscriber_id b = elim (lookup subscriber_id b.subscribers) [
  | none ↦ b
  | some q ↦ record b {
    subscribers = erase subscriber_id b.subscribers;
    unsubscribed = insert subscriber_id (offer b.queue_size none q) b.unsubscribed;
  }
]

unfoldable pub subscriber_count : EventBus → ℕ
subscriber_count b = length b.subscribers

-- What one `__anext__` comes to with what is in the queue: an event, the end, or it waits for more.
pub data Next : Type 0 where
  event : ResourceEvent → Next
  stopped waits : Next

-- The rest of the queue comes back with it.
unfoldable pub next_event : (ResourceEvent → Bool) → Queue → Next × Queue
next_event filter_fn [] = (waits, [])
next_event filter_fn (none ∷ q) = (stopped, q)
next_event filter_fn (some e ∷ q) =
    let later = next_event filter_fn q in if filter_fn e then (event e, q) else later
