-- ===== src/Db/Examples.antt =====
-- The theorems on src/db.py at concrete tables, and tests of its methods.
use mathlib.Core.List.{Perm}
use text.Mathlib.TextEquality.{eq_iff}
use no8s_operator.Base.{
  ℕ, String, ◌≡◌, refl, ◌≢◌, ◌↔◌, ◌⊎◌, true, false, none, some, List, [], ◌∷◌, ◌++◌, arith,
  string_eq, nat_eq, All, length, min,
}
use no8s_operator.Json
use no8s_operator.Json.{Fields}
use no8s_operator.Db.Rows.{
  pending, reconciling, ready, failed, deleting, status_eq, Condition, Resource, Database, empty,
}
use no8s_operator.Db.Resources.{row, update_resource}
use no8s_operator.Db.Finalizers.{get_finalizers}
use no8s_operator.Db.Finalizers.Laws.{held}
use no8s_operator.Db.Finalizers.Protection.{execute_all-held}
use no8s_operator.Db.Conditions.{set_condition}
use no8s_operator.Db.Conditions.Laws.{condition_of, set_condition_updates}
use no8s_operator.Db.Queue.{
  needs_reconciliation, update_resource_status, requeue_failed_resources, requeue_half_seconds,
}
use no8s_operator.Db.Queue.Selection.{
  Precedes, HasWork, needs_reconciliation_iff, needing, selected, selected_first,
}
use no8s_operator.Db.Queue.Schedule.{
  failed_before_ready_is_due, update_during_reconciliation, requeue_postpones,
}
use no8s_operator.Db.Queue.Stalled.{unfinished_deletion_is_never_due}
use no8s_operator.Db.Calls.{Call, execute_all}
use no8s_operator.Db.Invariant.{IsValid}
use no8s_operator.Db.Invariant.Preserved.{execute_all-IsValid}
use no8s_operator.Db.Locks.{taken}

abbrev no_hash : Fields → String
no_hash _ = "digest"

abbrev sample : Resource
sample = record {
  id = 1;
  name = "db";
  resource_type_name = "Cluster";
  resource_type_version = "v1";
  action_plugin = "github_actions";
  spec = Json.end;
  plugin_config = Json.end;
  metadata = Json.end;
  outputs = Json.end;
  status = reconciling;
  status_message = none;
  generation = 2;
  observed_generation = 1;
  spec_hash = "digest";
  retry_count = 1;
  last_reconcile_time = none;
  next_reconcile_time = some 0;
  conditions = [];
  finalizers = "github_actions" ∷ "backup" ∷ [];
  created_at = 0;
  updated_at = 0;
  deleted_at = none;
}

abbrev seen : Resource
seen = record sample { last_reconcile_time = some 0; observed_generation = 2; status = failed }

abbrev gone : Resource
gone = record sample { deleted_at = some 5; finalizers = [] }

abbrev with_rows : List Resource → Database
with_rows rs = record empty { resources = rs; next_resource_id = 7 }

abbrev calls : List (ℕ × Call)
calls =
    (3, Call.delete 1)
    ∷ (4, Call.release 1 "backup")
    ∷ (5, Call.hard_delete 1)
    ∷ (6, Call.create "other" "Cluster" "v1" "" none none none none)
    ∷ []

abbrev two_lines : Database
two_lines = with_rows (sample ∷ [])

two_lines-IsValid : IsValid two_lines
two_lines-IsValid = record {
  unique = (refl, refl, tt);
  below = (omega arith, tt);
  rows = (record { generation = omega arith; counted = λ e. cc; conditions = tt }, tt);
  refers = tt;
}

execute_all-IsValid_example : IsValid (execute_all no_hash calls two_lines)
execute_all-IsValid_example = execute_all-IsValid no_hash calls two_lines two_lines-IsValid

protected_test : held 1 "github_actions" two_lines ≡ true
unfolding get_finalizers string_eq nat_eq
protected_test = refl

execute_all-held_example : held 1 "github_actions" (execute_all no_hash calls two_lines) ≡ true
execute_all-held_example =
    execute_all-held 1 "github_actions" no_hash calls two_lines
      (ground (arith, eq_iff "backup" "github_actions")) protected_test

set_condition_updates_example :
    (c : Condition) × (condition_of 1 "Ready"
        (set_condition 9 1 "Ready" "True" "Done" "All is well" 2 two_lines).1
      ≡ some c)
    × (c.type ≡ "Ready")
    × (c.status ≡ "True")
    × (c.reason ≡ "Done")
    × (c.message ≡ "All is well")
    × (c.observed_generation ≡ 2)
    × ((old : Condition)
        → condition_of 1 "Ready" two_lines ≡ some old
        → old.status ≡ "True"
        → c.last_transition_time ≡ old.last_transition_time)
    × ((old : Condition)
        → condition_of 1 "Ready" two_lines ≡ some old
        → old.status ≢ "True"
        → c.last_transition_time ≡ 9)
    × (condition_of 1 "Ready" two_lines ≡ none → c.last_transition_time ≡ 9)
unfolding nat_eq
set_condition_updates_example =
    set_condition_updates 9 1 "Ready" "True" "Done" "All is well" 2 {r = sample} two_lines refl

needs_reconciliation_iff_example : (needs_reconciliation 3 seen ≡ true) ↔ (
    (seen.status ≢ reconciling)
    × ((seen.status ≡ deleting) ⊎ ((seen.deleted_at ≡ none) × HasWork 3 seen)))
needs_reconciliation_iff_example = needs_reconciliation_iff 3 seen

abbrev queue : Database
queue = with_rows (
    seen
    ∷ record seen { id = 2; name = "x"; status = deleting; deleted_at = some 3 }
    ∷ record seen { id = 3; name = "y"; status = pending }
    ∷ [])

selected_first_example :
    (rest : List Resource) × Perm (selected 3 2 queue ++ rest) (needing 3 2 queue)
    × (length (selected 3 2 queue) ≡ min 2 (length (needing 3 2 queue)))
    × All (λ s. All (Precedes s) rest) (selected 3 2 queue)
selected_first_example = selected_first 3 2 queue

failed_before_ready_is_due_example :
    (r' : Resource) × (row 1 (update_resource_status 9 100 1 failed none none 60 3600 two_lines).1
      ≡ some r')
    × (needs_reconciliation 9 r' ≡ true)
unfolding nat_eq
failed_before_ready_is_due_example =
    failed_before_ready_is_due 9 100 1 60 3600 none sample two_lines refl 9 refl refl

-- The deletion fails, is tried again by the requeue and the API, and is not due.
abbrev failed_deletion : List (ℕ × Call)
failed_deletion =
    (9, Call.update_status 100 1 failed none (some 2) 60 3600)
    ∷ (300, Call.requeue (λ j. 5) 60 3600 10)
    ∷ (301, Call.mark 1 0)
    ∷ (302, Call.update 1 (some Json.end) none)
    ∷ []

abbrev taken_up : Database
taken_up = record (with_rows (record gone { status = reconciling } ∷ [])) { next_resource_id = 2 }

unfinished_deletion_is_never_due_example :
    All
      (λ (r : Resource). r.id ≡ 1 → needs_reconciliation 1000 r ≡ false)
      (execute_all no_hash failed_deletion taken_up).resources
unfolding status_eq nat_eq
unfinished_deletion_is_never_due_example =
    unfinished_deletion_is_never_due 1 no_hash failed_deletion taken_up 1000
      ((λ e. (λ q. cc, λ q. cc)), tt) (omega arith) (refl, (refl, (refl, (refl, tt))))

update_during_reconciliation_example :
    let changed = (update_resource no_hash 8 1 (some Json.end) none two_lines).1 in
    let reported = (update_resource_status 9 100 1 ready none (some 2) 60 3600 changed).1 in
    (r' : Resource) × (row 1 reported ≡ some r')
    × (r'.spec ≡ Json.end)
    × (needs_reconciliation 10 r' ≡ true)
unfolding nat_eq
update_during_reconciliation_example =
    update_during_reconciliation no_hash 8 9 10 100 1 60 3600 none Json.end none sample two_lines
      refl refl

requeue_postpones_example :
    (needs_reconciliation 5 seen ≡ true)
    × ((r' : Resource) × (row 1
            (requeue_failed_resources 5 (λ _. 0) 60 3600 10 (with_rows (seen ∷ []))).1
          ≡ some r')
        × (needs_reconciliation 40_000_000 r' ≡ false))
unfolding nat_eq
requeue_postpones_example =
    requeue_postpones 5 40_000_000 1 60 3600 10 (λ _. 0) seen (with_rows (seen ∷ [])) refl refl refl
      refl (omega arith) (λ e. cc) (omega arith) (omega arith)
      (unfold requeue_half_seconds in omega arith)

abbrev locked : Database
locked = record empty { locks = taken 0 "leader" "a" 30 ∷ [] }
