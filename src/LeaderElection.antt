-- ===== src/LeaderElection.antt =====
-- src/leader_election.py: one instance competes for the lock, and starts and stops leading.
pub mod Rounds
pub mod Tables
pub mod Steps
pub mod Leases
pub mod Cluster
mod Examples
use no8s_operator.Base.{
  ℕ, String, Bool, true, false, Option, none, some, List, [], ◌∷◌, ◌++◌, if◌then◌else◌,
}
use no8s_operator.Base.Result.{Result, ok, err}
use no8s_operator.Db.Rows.{Database}
use no8s_operator.Db.Locks.{acquire_or_renew_lock, release_lock}
use no8s_operator.Db.Nodes.{register_node, deregister_node}

-- The part of `LeaderElectionConfig` that the loop reads.
pub record Config : Type 0 where
  pub lock_name : String
  pub lease_duration_seconds : ℕ
  pub renew_interval_seconds : ℕ
  pub retry_interval_seconds : ℕ

-- `leading` says that `_leading_task` is set and not done.
pub record Instance : Type 0 where
  pub holder_id : String
  pub hostname : String
  pub pid : String
  pub is_leader : Bool
  pub running : Bool
  pub leading : Bool

-- What an instance does to its controller.
pub data Effect : Type 0 where
  started_leading cancelled stopped_leading : Effect

-- How the connection answers a statement: it runs and answers, it is never run, or it is run and the
-- answer is lost, which the code sees as the same exception.
pub data Link : Type 0 where
  up lost_request lost_answer : Link

-- What a statement does to the database over the link, and what the caller gets.
abbrev pub over :
    {A : Type 0} → Link → (Database → Result A × Database) → Database → Option A × Database
over up m db = let (r, db') = m db in elim r [ ok a ↦ (some a, db') | err e ↦ (none, db') ]
over lost_request m db = (none, db)
over lost_answer m db = (none, (m db).1)

-- `_stop_leading`: the task is cancelled if it is not done, then the callback runs.
abbrev pub cancel : Bool → List Effect
cancel true = cancelled ∷ []
cancel false = []

unfoldable pub stop_leading : Instance → Instance × List Effect
stop_leading s =
    (record s { is_leader = false; leading = false }, cancel s.leading ++ stopped_leading ∷ [])

-- The rest of a round, by the answer of `acquire_or_renew_lock`; `none` is an exception.
unfoldable pub decide : Config → Option Bool → Instance → Instance × List Effect × ℕ
decide c none s =
    if s.is_leader
    then (let (s', es) = stop_leading s in (s', es, c.retry_interval_seconds))
    else (s, [], c.retry_interval_seconds)
decide c (some true) s = if s.is_leader then (s, [], c.renew_interval_seconds) else (
  record s { is_leader = true; leading = true },
  started_leading ∷ [],
  c.renew_interval_seconds,
)
decide c (some false) s =
    if s.is_leader
    then (let (s', es) = stop_leading s in (s', es, c.retry_interval_seconds))
    else (s, [], c.retry_interval_seconds)

-- `_heartbeat_node`; its failure is only logged.
abbrev pub heartbeat_node : ℕ → Link → Config → Instance → Database → Database
heartbeat_node now link c s db =
    (over link (register_node now s.holder_id s.hostname s.pid c.lease_duration_seconds) db).1

-- The heartbeat is skipped after an exception.
abbrev pub heartbeat_if : Option Bool → ℕ → Link → Config → Instance → Database → Database
heartbeat_if none now link c s db = db
heartbeat_if (some b) now link c s db = heartbeat_node now link c s db

-- The lock is asked for; the answer is what the loop sees.
unfoldable pub ask : Config → ℕ → Link → Instance → Database → Option Bool × Database
ask c now link s db =
    over link (acquire_or_renew_lock now c.lock_name s.holder_id c.lease_duration_seconds) db

-- One round of the `while` loop of `run` in which nothing comes between its awaits: the new state of
-- the instance and of the database, what is done to the controller, and the seconds to sleep.
unfoldable pub round :
    Config → ℕ → Link → Link → Instance → Database → Instance × Database × List Effect × ℕ
round c now lock_link node_link s db =
    let (answer, db') = ask c now lock_link s db in
    let (s', effects, sleep) = decide c answer s in
    (s', heartbeat_if answer now node_link c s db', effects, sleep)

-- `stop` until its first await: the flags, and the task of a leader.
unfoldable pub halt : Instance → Instance × List Effect
halt s = (
  record s {
    is_leader = false;
    running = false;
    leading = if s.is_leader then false else s.leading;
  },
  if s.is_leader then cancel s.leading else [],
)

-- The statement of a `stop` that found the instance leading.
abbrev pub release : Config → Link → Instance → Database → Database
release c link s db = (over link (release_lock c.lock_name s.holder_id) db).1

abbrev pub deregister : Link → Instance → Database → Database
deregister link s db = (over link (deregister_node s.holder_id) db).1

-- A `stop` in which nothing comes between its awaits.
unfoldable pub stop : Config → Link → Link → Instance → Database → Instance × Database × List Effect
stop c lock_link node_link s db =
    let (s', effects) = halt s in
    (s', deregister node_link s (if s.is_leader then release c lock_link s db else db), effects)
