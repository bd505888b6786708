-- ===== src/Db/Queue/Schedule.antt =====
-- When a resource is due again after src/db.py `update_resource_status` and
-- `requeue_failed_resources`.
use no8s_operator.Base.{
  ℕ, suc, ◌+◌, ◌-◌, ◌*◌, ◌≤◌, ◌<◌, String, ◌≡◌, refl, ◌≢◌, Bool, true, false, Option, none, some,
  List, [], ◌∷◌, arith, if◌then◌else◌, nat_eq, leb, find, update_where,
}
use no8s_operator.Json.{Fields}
use no8s_operator.Db.Rows.{ResourceStatus, ready, failed, status_eq, Resource, Database, second}
use no8s_operator.Db.Resources.{has_id, row, respecified, update_resource}
use no8s_operator.Db.Resources.Laws.{row-update_row}
use no8s_operator.Db.Queue.{
  needs_reconciliation, backoff_seconds, jittered, with_status, update_resource_status,
  requeue_half_seconds, requeued_at, overdue, requeued, requeue_failed_resources,
}

-- Ten per cent of jitter either way.
jittered_bounds :
    (now seconds draw : ℕ)
    → draw ≤ 10_000
    → (10 * now + 9 * (seconds * second) ≤ 10 * jittered now seconds 10 draw)
      × (10 * jittered now seconds 10 draw ≤ 10 * now + 11 * (seconds * second))
unfolding jittered
jittered_bounds now seconds draw h = grind arith

module _ (now draw i base_delay max_delay : ℕ) (message : Option String) (r : Resource)
    (db : Database) (exists : row i db ≡ some r) where
  abbrev pub marked : ResourceStatus → Option ℕ → Database
  marked s g = (update_resource_status now draw i s message g base_delay max_delay db).1

  row-marked :
      (s : ResourceStatus) (g : Option ℕ)
      → row i (marked s g) ≡ some (with_status now draw s message g base_delay max_delay r)
  unfolding update_resource_status
  row-marked ready g = ground (
    arith,
    row-update_row i i (with_status now draw ready message g base_delay max_delay) db (λ q. refl),
  )
  row-marked s g = ground (
    arith,
    row-update_row i i (with_status now draw s message g base_delay max_delay) db (λ q. refl),
  )

  -- A failure schedules the retry between 0.9 and 1.1 times the backoff of the failures before it,
  -- and counts one more.
  pub failed_schedules_retry :
      draw ≤ 10_000
      → (r' : Resource) × (t : ℕ) × (row i (marked failed none) ≡ some r')
        × (r'.status ≡ failed)
        × (r'.retry_count ≡ suc r.retry_count)
        × (r'.next_reconcile_time ≡ some t)
        × (10 * now + 9 * (backoff_seconds base_delay max_delay r.retry_count * second) ≤ 10 * t)
        × (10 * t ≤ 10 * now + 11 * (backoff_seconds base_delay max_delay r.retry_count * second))
  failed_schedules_retry h =
      let b = jittered_bounds now (backoff_seconds base_delay max_delay r.retry_count) draw h in
      (
        with_status now draw failed message none base_delay max_delay r,
        jittered now (backoff_seconds base_delay max_delay r.retry_count) 10 draw,
        row-marked failed none,
        refl,
        refl,
        refl,
        b.0,
        b.1,
      )

  -- The backoff holds back a failed resource that was ready before and whose generation has been
  -- observed: it is not due until the time that was scheduled.
  pub failed_waits :
      (later : ℕ)
      → r.last_reconcile_time ≢ none
      → r.generation ≤ r.observed_generation
      → (r' : Resource) × (row i (marked failed none) ≡ some r')
        × (later < jittered now (backoff_seconds base_delay max_delay r.retry_count) 10 draw
            → needs_reconciliation later r' ≡ false)
  unfolding needs_reconciliation
  failed_waits later seen observed = (
    with_status now draw failed message none base_delay max_delay r,
    row-marked failed none,
    λ early. ground arith,
  )

  -- A live resource that succeeds at the generation it has is due again after five minutes, and not
  -- before.
  pub ready_waits :
      (later : ℕ)
      → r.deleted_at ≡ none
      → (r' : Resource) × (row i (marked ready (some r.generation)) ≡ some r')
        × (needs_reconciliation later r' ≡ leb (now + 300 * second) later)
  unfolding needs_reconciliation
  ready_waits later live = (
    with_status now draw ready message (some r.generation) base_delay max_delay r,
    row-marked ready (some r.generation),
    ground arith,
  )

  -- A live resource that has never been ready is due at every instant after a failure, whatever the
  -- backoff says.
  pub failed_before_ready_is_due :
      (later : ℕ)
      → r.last_reconcile_time ≡ none
      → r.deleted_at ≡ none
      → (r' : Resource) × (row i (marked failed none) ≡ some r')
        × (needs_reconciliation later r' ≡ true)
  unfolding needs_reconciliation
  failed_before_ready_is_due later new live = (
    with_status now draw failed message none base_delay max_delay r,
    row-marked failed none,
    ground arith,
  )

-- No update is lost: if the specification changes while a reconciliation of the old generation is
-- running, the success that the reconciliation then reports leaves the resource due at once, at
-- any later instant, with the new specification.
pub update_during_reconciliation :
    (hash : Fields → String) (now now' later draw i base_delay max_delay : ℕ)
    (message : Option String) (spec : Fields) (plugin_config : Option Fields) (r : Resource)
    (db : Database)
    → row i db ≡ some r
    → r.deleted_at ≡ none
    → let changed = (update_resource hash now i (some spec) plugin_config db).1 in
      let reported =
        (update_resource_status now' draw i ready message
          (some r.generation)
          base_delay
          max_delay
          changed).1 in
      (r' : Resource) × (row i reported ≡ some r')
      × (r'.spec ≡ spec)
      × (needs_reconciliation later r' ≡ true)
unfolding update_resource needs_reconciliation
update_during_reconciliation hash now now' later draw i base_delay max_delay message spec
      plugin_config r db exists live =
    let f = respecified hash now (some spec) plugin_config r in
    let changed = (update_resource hash now i (some spec) plugin_config db).1 in
    let found : row i changed ≡ some (f r) = ground (arith, row-update_row i i f db (λ q. refl)) in
    (
      with_status now' draw ready message (some r.generation) base_delay max_delay (f r),
      row-marked now' draw i base_delay max_delay message (f r) changed found ready
          (some r.generation),
      refl,
      ground arith,
    )

find-requeue :
    (i : ℕ) (p : Resource → Bool) (f : Resource → Resource) (rs : List Resource) {r : Resource}
    → ((q : Resource) → (f q).id ≡ q.id)
    → find (has_id i) rs ≡ some r
    → find (has_id i) (update_where p f rs) ≡ some (if p r then f r else r)
find-requeue i p f [] keep e = cc
find-requeue i p f (q ∷ rs) {r} keep e = ground (arith, keep q, find-requeue i p f rs {r = r} keep)

requeued_bound :
    (now half percent draw : ℕ)
    → percent ≤ 100
    → now + half * (500_000 - 5_000 * percent) ≤ requeued_at now half percent draw
unfolding requeued_at
requeued_bound now half percent draw h = grind arith

-- The requeue postpones a failed resource whose retry has come: where the resource is held back by
-- its schedule alone, it is not due in the time that follows, which is at least the delay less the
-- jitter, although it was due when the requeue ran.
pub requeue_postpones :
    (now later i base_delay max_delay percent : ℕ) (draw : ℕ → ℕ) (r : Resource) {t : ℕ}
    (db : Database)
    → row i db ≡ some r
    → r.status ≡ failed
    → r.deleted_at ≡ none
    → r.next_reconcile_time ≡ some t
    → t < now
    → r.last_reconcile_time ≢ none
    → r.generation ≤ r.observed_generation
    → percent ≤ 100
    → later
      < now + requeue_half_seconds base_delay max_delay r.retry_count * (500_000 - 5_000 * percent)
    → (needs_reconciliation now r ≡ true)
      × ((r' : Resource) × (row i
              (requeue_failed_resources now draw base_delay max_delay percent db).1
            ≡ some r')
          × (needs_reconciliation later r' ≡ false))
unfolding requeue_failed_resources needs_reconciliation
requeue_postpones now later i base_delay max_delay percent draw r db exists f live e past seen
      observed fits early =
    (
      ground arith,
      (
        requeued now draw base_delay max_delay percent r,
        ground (
          arith,
          find-requeue i (overdue now) (requeued now draw base_delay max_delay percent) db.resources
              {r = r} (λ q. refl) exists,
        ),
        ground (
          arith,
          requeued_bound now (requeue_half_seconds base_delay max_delay r.retry_count) percent
              (draw r.id),
        ),
      ),
    )
