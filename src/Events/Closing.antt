-- ===== src/Events/Closing.antt =====
-- Whether the reader of a subscription comes to its end after src/events.py `unsubscribe`.
use no8s_operator.Base.{
  ◌≡◌, refl, Bool, none, some, List, [], ◌∷◌, if◌then◌else◌, string_eq, inl, inr, Bool-cases,
}
use no8s_operator.Events.{ResourceEvent, Queue, Next, event, stopped, waits, next_event}

-- Reading until the iterator stops or waits: the events, and how it came to the end.
unfoldable pub drain : (ResourceEvent → Bool) → Queue → List ResourceEvent × Next
drain f [] = ([], waits)
drain f (none ∷ q) = ([], stopped)
drain f (some e ∷ q) = let (es, end) = drain f q in if f e then (e ∷ es, end) else (es, end)

-- What a reader has got after one `__anext__` and all that follow.
abbrev pub told : (ResourceEvent → Bool) → Next × Queue → List ResourceEvent × Next
told f (event e, rest) = (e ∷ (drain f rest).0, (drain f rest).1)
told f (stopped, rest) = ([], stopped)
told f (waits, rest) = ([], waits)

-- One `__anext__` gives the first event of these and leaves the queue from which the others come.
pub drain-next_event : (f : ResourceEvent → Bool) (q : Queue) → drain f q ≡ told f (next_event f q)
unfolding drain next_event
drain-next_event f [] = refl
drain-next_event f (none ∷ q) = refl
drain-next_event f (some e ∷ q) = elim (Bool-cases (f e)) [
  | inl y ↦ rw (y, next_event) refl
  | inr n ↦ rw (n, next_event) (drain-next_event f q)
]
