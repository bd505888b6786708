-- ===== src/Events/Delivery.antt =====
-- Which events src/events.py keeps for a subscriber.
use mathlib.Core.List.{append-nil, append_assoc}
use no8s_operator.Base.{
  ℕ, zero, suc, ◌-◌, ◌≤◌, String, ◌≡◌, refl, sym, ap, ◌∙◌, true, false, Option, some, List, [], ◌∷◌,
  ◌++◌, map, arith, ◌==◌, string_eq, length, take, length-append, inl, inr, Bool-cases,
}
use no8s_operator.Base.Assoc.{Dict, lookup, lookup-insert}
use no8s_operator.Events.{
  ResourceEvent, Queue, EventBus, full, offer, map_queues, publish, subscribe,
}

abbrev pub publish_all : List ResourceEvent → EventBus → EventBus
publish_all [] b = b
publish_all (e ∷ es) b = publish_all es (publish e b)

-- The queue of one subscriber after the same events.
offers : ℕ → List ResourceEvent → Queue → Queue
offers size [] q = q
offers size (e ∷ es) q = offers size es (offer size (some e) q)

lookup-map_queues :
    (i : String) (f : Queue → Queue) (q : Queue) (qs : Dict String Queue)
    → lookup i qs ≡ some q
    → lookup i (map_queues f qs) ≡ some (f q)
unfolding lookup
lookup-map_queues i f q [] e = absurd (ground arith)
lookup-map_queues i f q ((j, p) ∷ qs) e = elim (Bool-cases (i == j)) [
  | inl y ↦ ground arith
  | inr n ↦ ground (arith, lookup-map_queues i f q qs)
]

lookup-publish_all :
    (i : String) (es : List ResourceEvent) (q : Queue) (b : EventBus)
    → lookup i b.subscribers ≡ some q
    → lookup i (publish_all es b).subscribers ≡ some (offers b.queue_size es q)
unfolding publish offers
lookup-publish_all i [] q b e = e
lookup-publish_all i (x ∷ es) q b e =
    lookup-publish_all i es _ (publish x b)
      (lookup-map_queues i (offer b.queue_size (some x)) q b.subscribers e)

offers-unbounded : (es : List ResourceEvent) (q : Queue) → offers 0 es q ≡ q ++ map some es
unfolding offers
offers-unbounded [] q = sym (append-nil q)
offers-unbounded (e ∷ es) q =
    offers-unbounded es (q ++ some e ∷ []) ∙ append_assoc q (some e ∷ []) (map some es)

offers-full :
    (size : ℕ) (es : List ResourceEvent) (q : Queue) → full size q ≡ true → offers size es q ≡ q
unfolding offers
offers-full size [] q h = refl
offers-full size (e ∷ es) q h = rw h (offers-full size es q h)

take-nil : (n : ℕ) → take {A = ResourceEvent} n [] ≡ []
take-nil zero = refl
take-nil (suc n) = refl

no_room : (size : ℕ) (q : Queue) → full size q ≡ true → size - length q ≡ 0
no_room size q h = ground arith

room :
    (size : ℕ) (q : Queue)
    → 1 ≤ size
    → full size q ≡ false
    → size - length q ≡ suc (size - suc (length q))
room size q s h = ground arith

offers-bounded :
    (size : ℕ) (es : List ResourceEvent) (q : Queue)
    → 1 ≤ size
    → offers size es q ≡ q ++ map some (take (size - length q) es)
unfolding offers
offers-bounded size [] q h =
    sym (append-nil q) ∙ ap (λ xs. q ++ map some xs) (sym (take-nil (size - length q)))
offers-bounded size (e ∷ es) q h = elim (Bool-cases (full size q)) [
  | inl y ↦
      offers-full size (e ∷ es) q y
      ∙ sym (append-nil q)
      ∙ ap (λ n. q ++ map some (take n (e ∷ es))) (sym (no_room size q y))
  | inr n ↦
      rw n (offers-bounded size es (q ++ some e ∷ []) h)
      ∙ ap (λ n. (q ++ some e ∷ []) ++ map some (take (size - n) es))
          (length-append q (some e ∷ []) ∙ omega arith)
      ∙ append_assoc q (some e ∷ []) (map some (take (size - suc (length q)) es))
      ∙ ap (λ n. q ++ map some (take n (e ∷ es))) (sym (room size q h n))
]

minus_zero : (n : ℕ) → n - length {A = Option ResourceEvent} [] ≡ n
minus_zero n = omega arith

-- What a subscriber has of the events published after it subscribed.
abbrev pub kept : ℕ → List ResourceEvent → List ResourceEvent
kept zero es = es
kept (suc n) es = take (suc n) es

-- Until it reads, a new subscriber has exactly the first events published since, in their order, as
-- many as its queue holds (all of them where the size is 0), whatever other subscribers there are.
pub published_events :
    (i : String) (es : List ResourceEvent) (b : EventBus)
    → lookup i (publish_all es (subscribe i b)).subscribers ≡ some (map some (kept b.queue_size es))
unfolding subscribe
published_events i es b =
    lookup-publish_all i es [] (subscribe i b) (lookup-insert i i [] b.subscribers ∙ ground arith)
    ∙ ap some (counted b.queue_size)
  where
    counted : (size : ℕ) → offers size es [] ≡ map some (kept size es)
    counted zero = offers-unbounded es []
    counted (suc n) =
        offers-bounded (suc n) es [] (omega arith)
        ∙ ap (λ m. map some (take m es)) (minus_zero (suc n))
