-- ===== src/ClusterStatus.antt =====
-- src/cluster_status.py: what the two endpoints report of the cluster, and how an age is written.
-- Instants are numbers of microseconds, as in the tables.
pub mod Age
pub mod Report
mod Examples
use no8s_operator.Base.{
  ℕ, ◌+◌, ◌-◌, ◌*◌, ◌/◌, String, Bool, true, false, Option, none, some, List, map, ◌==◌, option_eq,
  string_eq, if◌then◌else◌, ltb,
}
use no8s_operator.Base.Result.{Result, ok, err, external, and_then}
use no8s_operator.Db.Rows.{Lock, Node, Database, second}
use no8s_operator.Db.Locks.{get_leader_lock_info}
use no8s_operator.Db.Nodes.{get_cluster_nodes}
use no8s_operator.Auth.{Claims, require_admin}
use no8s_operator.LeaderElection.{Config, Instance}
use no8s_operator.ClusterStatus.Age.{format_age}

pub record ClusterHealthResponse : Type 0 where
  pub status_code : ℕ
  pub status : String

pub record LeaderInfo : Type 0 where
  pub holder_id : String
  pub acquired_at : ℕ
  pub expires_at : ℕ
  pub is_valid : Bool

pub data NodeStatus : Type 0 where
  ready not_ready : NodeStatus

pub data NodeRole : Type 0 where
  leader follower : NodeRole

-- `age` is a text, as its code points.
pub record NodeInfo : Type 0 where
  pub node_id : String
  pub hostname : String
  pub pid : String
  pub status : NodeStatus
  pub role : NodeRole
  pub age : List ℕ
  pub first_seen : ℕ
  pub last_heartbeat : ℕ

pub record ClusterNodesResponse : Type 0 where
  pub this_instance_id : String
  pub this_instance_is_leader : Bool
  pub leader_lock : Option LeaderInfo
  pub nodes : List NodeInfo

-- The answer of `ping` is given.
unfoldable pub cluster_health : Bool → ClusterHealthResponse
cluster_health true = record { status_code = 200; status = "ok" }
cluster_health false = record { status_code = 503; status = "disconnected" }

unfoldable pub leader_info : ℕ → Lock → LeaderInfo
leader_info now l =
    let expires_at = l.acquired_at + l.lease_duration_seconds * second in
    record {
      holder_id = l.holder_id;
      acquired_at = l.acquired_at;
      expires_at = expires_at;
      is_valid = ltb now expires_at;
    }

-- `leader_id`
abbrev pub valid_holder : Option LeaderInfo → Option String
valid_holder none = none
valid_holder (some l) = if l.is_valid then some l.holder_id else none

unfoldable pub node_info : ℕ → Option String → Node → NodeInfo
node_info now leader_id n = record {
  node_id = n.node_id;
  hostname = n.hostname;
  pid = n.pid;
  status =
      if ltb now (n.last_heartbeat + n.lease_duration_seconds * second) then ready else not_ready;
  role = if some n.node_id == leader_id then leader else follower;
  age = format_age ((now - n.first_seen) / second);
  first_seen = n.first_seen;
  last_heartbeat = n.last_heartbeat;
}

-- `except Exception`: a query that fails counts as one with no row.
abbrev pub or_none : {A : Type 0} → Result (Option A) → Option A
or_none (ok a) = a
or_none (err e) = none

abbrev pub or_empty : {A : Type 0} → Result (List A) → List A
or_empty (ok l) = l
or_empty (err e) = List.[]

-- A query over a connection that works or not.
abbrev pub query : {A : Type 0} → Bool → A → Result A
query true a = ok a
query false a = err (external "connection")

abbrev pub leader_lock : ℕ → Bool → Config → Database → Option LeaderInfo
leader_lock now connected c db =
    elim (or_none (query connected (get_leader_lock_info c.lock_name db))) [
      | none ↦ none
      | some l ↦ some (leader_info now l)
    ]

-- Each of the two queries gets through, or does not.
unfoldable pub cluster_nodes :
    ℕ → Bool → Bool → Claims → Config → Instance → Database → Result ClusterNodesResponse
cluster_nodes now lock_connected nodes_connected user c s db = and_then (require_admin user) (λ _.
    let lock = leader_lock now lock_connected c db in
    ok (record {
      this_instance_id = s.holder_id;
      this_instance_is_leader = s.is_leader;
      leader_lock = lock;
      nodes =
          map (node_info now (valid_holder lock))
            (or_empty (query nodes_connected (get_cluster_nodes db)));
    }))
