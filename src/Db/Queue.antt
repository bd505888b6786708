-- ===== src/Db/Queue.antt =====
-- The reconciliation queue of src/db.py: which resources are due, the status updates that schedule
-- them, and the history.
pub mod Selection
pub mod Schedule
pub mod Stalled
use no8s_operator.Base.{
  ℕ, suc, ◌+◌, ◌-◌, ◌*◌, ◌^◌, min, String, Bool, true, false, not, ◌&&◌, ◌||◌, Option, none, some,
  List, [], ◌∷◌, ◌++◌, ◌==◌, if◌then◌else◌, string_eq, nat_eq, ltb, leb, contains, filter,
  update_where, take,
}
use no8s_operator.Base.Result.{Action, ok, err, modify, not_null_violation}
use no8s_operator.Base.Sort.{sort}
use no8s_operator.Db.Rows.{
  ResourceStatus, pending, reconciling, ready, failed, deleting, status_eq, Resource, History,
  Database, second,
}
use no8s_operator.Db.Resources.{row, update_row, is_none, or_default}

-- `next_reconcile_time <= NOW()`, which is not true of NULL.
abbrev pub due : ℕ → Resource → Bool
due now r = elim r.next_reconcile_time [ none ↦ false | some t ↦ leb t now ]

-- The `WHERE` clause of the query.
unfoldable pub needs_reconciliation : ℕ → Resource → Bool
needs_reconciliation now r =
    (is_none r.deleted_at || r.status == deleting)
    && (is_none r.last_reconcile_time
        || ltb r.observed_generation r.generation
        || due now r
        || (r.status == failed && due now r)
        || r.status == deleting)
    && not (r.status == reconciling)

-- The `CASE` of the `ORDER BY` clause.
abbrev pub rank : ResourceStatus → ℕ
rank deleting = 0
rank pending = 1
rank failed = 2
rank ready = 3
rank reconciling = 3

-- `ASC NULLS FIRST`
abbrev pub time_le : Option ℕ → Option ℕ → Bool
time_le none u = true
time_le (some t) none = false
time_le (some t) (some u) = leb t u

-- Resources with equal keys come in an order that PostgreSQL does not promise; here, in table order.
unfoldable pub before : Resource → Resource → Bool
before a b =
    if ltb (rank a.status) (rank b.status)
    then true
    else if ltb (rank b.status) (rank a.status)
    then false
    else time_le a.next_reconcile_time b.next_reconcile_time

unfoldable pub get_resources_needing_reconciliation : ℕ → ℕ → Database → List Resource
get_resources_needing_reconciliation now limit db =
    take limit (sort before (filter (needs_reconciliation now) db.resources))

-- `resource_type_name IN (…)` stands in the middle of the same `WHERE` clause.
unfoldable pub get_resources_needing_reconciliation_by_type :
    ℕ → List String → ℕ → Database → List Resource
get_resources_needing_reconciliation_by_type now [] limit db = []
get_resources_needing_reconciliation_by_type now (t ∷ ts) limit db = take limit (
    sort before (
      filter (λ r. needs_reconciliation now r && contains (t ∷ ts) r.resource_type_name)
        db.resources))

-- LEAST(base * POWER(2, LEAST(retries, 10)), max), in seconds.
unfoldable pub backoff_seconds : ℕ → ℕ → ℕ → ℕ
backoff_seconds base_delay max_delay retries = min (base_delay * 2 ^ min retries 10) max_delay

-- seconds * (1 + (random() * 2 - 1) * percent / 100), in microseconds after `now`, where the draw
-- of `random()` is `draw` ten-thousandths.
unfoldable pub jittered : ℕ → ℕ → ℕ → ℕ → ℕ
jittered now seconds percent draw =
    now + seconds * (second + 2 * draw * percent) - seconds * (10_000 * percent)

-- The extra assignments for the new status.
abbrev pub scheduled : ℕ → ℕ → ResourceStatus → ℕ → ℕ → Resource → Resource
scheduled now draw ready base_delay max_delay r = record r {
  next_reconcile_time = some (now + 300 * second);
  last_reconcile_time = some now;
  retry_count = 0;
}
scheduled now draw failed base_delay max_delay r = record r {
  next_reconcile_time =
      some (jittered now (backoff_seconds base_delay max_delay r.retry_count) 10 draw);
  retry_count = suc r.retry_count;
}
scheduled now draw _ base_delay max_delay r = r

abbrev pub with_status :
    ℕ → ℕ → ResourceStatus → Option String → Option ℕ → ℕ → ℕ → Resource → Resource
with_status now draw status message observed_generation base_delay max_delay r =
    let r' = scheduled now draw status base_delay max_delay r in
    record r' {
      status = status;
      status_message = message;
      observed_generation = or_default observed_generation r.observed_generation;
      updated_at = now;
    }

unfoldable pub update_resource_status :
    ℕ → ℕ → ℕ → ResourceStatus → Option String → Option ℕ → ℕ → ℕ → Action Database (Unit {0})
update_resource_status now draw i status message observed_generation base_delay max_delay =
    modify
      (update_row i (with_status now draw status message observed_generation base_delay max_delay))

-- LEAST(base * POWER(2, LEAST(retry_count - 1, 10)), max) in half seconds, so that the half of the
-- base delay at a count of 0 is a whole number.
unfoldable pub requeue_half_seconds : ℕ → ℕ → ℕ → ℕ
requeue_half_seconds base_delay max_delay retries =
    min (base_delay * 2 ^ min retries 11) (2 * max_delay)

unfoldable pub requeued_at : ℕ → ℕ → ℕ → ℕ → ℕ
requeued_at now half_seconds percent draw =
    now + half_seconds * (500_000 + draw * percent) - half_seconds * (5_000 * percent)

abbrev pub overdue : ℕ → Resource → Bool
overdue now r =
    r.status == failed && elim r.next_reconcile_time [ none ↦ false | some t ↦ ltb t now ]

abbrev pub requeued : ℕ → (ℕ → ℕ) → ℕ → ℕ → ℕ → Resource → Resource
requeued now draw base_delay max_delay percent r = record r {
  next_reconcile_time = some (
      requeued_at now (requeue_half_seconds base_delay max_delay r.retry_count) percent
        (draw r.id));
}

-- `random()` is drawn for each row. `percent` is `jitter_factor` in hundredths.
unfoldable pub requeue_failed_resources : ℕ → (ℕ → ℕ) → ℕ → ℕ → ℕ → Action Database (Unit {0})
requeue_failed_resources now draw base_delay max_delay percent = modify (λ db. record db {
  resources =
      update_where (overdue now) (requeued now draw base_delay max_delay percent) db.resources;
})

-- What `record_reconciliation` is given beside the resource.
pub record Report : Type 0 where
  pub success : Bool
  pub phase : String
  pub plan_output : Option String
  pub apply_output : Option String
  pub error_message : Option String
  pub resources_created : ℕ
  pub resources_updated : ℕ
  pub resources_deleted : ℕ
  pub duration_seconds : Option ℕ
  pub trigger_reason : Option String
  pub drift_detected : Bool

-- For a resource that is gone the selected generation is NULL, which the column refuses.
unfoldable pub record_reconciliation : ℕ → ℕ → Report → Action Database (Unit {0})
record_reconciliation now i p db = elim (row i db) [
  | none ↦ (err (not_null_violation "generation"), db)
  | some r ↦ (
    ok tt,
    record db {
      history =
          db.history
          ++ record {
            resource_id = i;
            generation = r.generation;
            success = p.success;
            phase = p.phase;
            plan_output = p.plan_output;
            apply_output = p.apply_output;
            error_message = p.error_message;
            resources_created = p.resources_created;
            resources_updated = p.resources_updated;
            resources_deleted = p.resources_deleted;
            duration_seconds = p.duration_seconds;
            trigger_reason = p.trigger_reason;
            drift_detected = p.drift_detected;
            reconcile_time = now;
          }
            ∷ [];
    },
  )
]

latest_first : History → History → Bool
latest_first a b = leb b.reconcile_time a.reconcile_time

unfoldable pub get_reconciliation_history : ℕ → ℕ → Database → List History
unfolding latest_first
get_reconciliation_history i limit db =
    take limit (sort latest_first (filter (λ (h : History). h.resource_id == i) db.history))
