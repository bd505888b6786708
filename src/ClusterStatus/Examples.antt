-- ===== src/ClusterStatus/Examples.antt =====
-- The theorems on src/cluster_status.py for one node that leads and one that does not.
use no8s_operator.Base.{
  ℕ, ◌+◌, ◌≤◌, ◌<◌, ◌≡◌, ◌↔◌, refl, arith, String, true, false, none, some, [], ◌∷◌, All, nat_eq,
  string_eq, option_eq,
}
use text.Mathlib.TextEquality.{eq_iff}
use no8s_operator.Base.Paths.{codes}
use no8s_operator.Base.Result.{ok}
use no8s_operator.Base.Sort.{sort}
use no8s_operator.Db.Rows.{Node, Database, empty}
use no8s_operator.Db.Locks.{lock_of, acquire_or_renew_lock, get_leader_lock_info}
use no8s_operator.Db.Nodes.{get_cluster_nodes}
use no8s_operator.Auth.{Claims, require_admin}
use no8s_operator.LeaderElection.{Config, Instance}
use no8s_operator.ClusterStatus.{
  LeaderInfo, ClusterNodesResponse, leader, leader_info, node_info, cluster_nodes,
}
use no8s_operator.ClusterStatus.Age.{
  decimal, two_units, format_age, read_age, precision, read_age-format_age,
}
use no8s_operator.ClusterStatus.Report.{HeldBy, reported_leader_iff, valid_lock_is_refused}

age_test : format_age 190_800 ≡ codes "2d5h"
unfolding format_age two_units decimal nat_eq
age_test = refl

age_test_minutes : format_age 2_700 ≡ codes "45m"
unfolding format_age two_units decimal nat_eq
age_test_minutes = refl

read_age-format_age_example :
    (read_age (format_age 190_812) ≤ 190_812)
    × (190_812 < read_age (format_age 190_812) + precision 190_812)
read_age-format_age_example = read_age-format_age 190_812

abbrev config : Config
config = record {
  lock_name = "leader";
  lease_duration_seconds = 30;
  renew_interval_seconds = 10;
  retry_interval_seconds = 5;
}

abbrev instance_a : Instance
instance_a = record {
  holder_id = "a";
  hostname = "host-a";
  pid = "1";
  is_leader = true;
  running = true;
  leading = true;
}

abbrev ann : Claims
ann = record {
  sub = 1;
  username = "ann";
  is_admin = true;
  source = "manual";
  custom_role_id = none;
}

abbrev node : String → ℕ → Node
node i t = record {
  node_id = i;
  hostname = i;
  pid = "1";
  first_seen = t;
  last_heartbeat = 60_000_000;
  lease_duration_seconds = 30;
}

abbrev db : Database
db = record empty {
  locks =
      record {
        resource_key = "leader";
        holder_id = "a";
        acquired_at = 60_000_000;
        lease_duration_seconds = 30;
      }
      ∷ [];
  nodes = node "b" 20_000_000 ∷ node "a" 0 ∷ [];
}

abbrev now : ℕ
now = 70_000_000

abbrev lock : LeaderInfo
lock = record {
  holder_id = "a";
  acquired_at = 60_000_000;
  expires_at = 90_000_000;
  is_valid = true;
}

abbrev answer : ClusterNodesResponse
answer = record {
  this_instance_id = "a";
  this_instance_is_leader = true;
  leader_lock = some lock;
  nodes =
      node_info now (some "a") (node "a" 0) ∷ node_info now (some "a") (node "b" 20_000_000) ∷ [];
}

answer_test : cluster_nodes now true true ann config instance_a db ≡ ok answer
unfolding cluster_nodes require_admin get_leader_lock_info get_cluster_nodes leader_info sort
    string_eq
answer_test = refl

reported_leader_iff_example :
    All (λ n. (n.role ≡ leader) ↔ HeldBy now (lock_of config.lock_name db) n.node_id) answer.nodes
reported_leader_iff_example =
    reported_leader_iff now true ann config instance_a db answer answer_test

valid_lock_is_refused_example :
    acquire_or_renew_lock now config.lock_name "b" 30 db ≡ (ok false, db)
valid_lock_is_refused_example =
    valid_lock_is_refused now true ann config instance_a db answer lock "b" 30 answer_test refl refl
      (ground (arith, eq_iff "b" "a"))
