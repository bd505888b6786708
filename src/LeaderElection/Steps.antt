-- ===== src/LeaderElection/Steps.antt =====
-- Any number of instances of src/leader_election.py on one database, whose awaits come in any order.
use no8s_operator.Base.{
  ℕ, ◌+◌, ◌*◌, ◌≤◌, String, ◌≡◌, Bool, true, false, ◌&&◌, ◌||◌, Option, none, some, ◌==◌,
  if◌then◌else◌, string_eq,
}
use no8s_operator.Db.Rows.{Database, second}
use no8s_operator.LeaderElection.{
  Config, Instance, Link, ask, decide, heartbeat_node, halt, release, deregister,
}
use no8s_operator.LeaderElection.Rounds.{agreed}

-- Where the loop of an instance stands: it sleeps, it has asked for the lock, it has the answer, or
-- it has also sent its heartbeat.
pub data Phase : Type 0 where
  sleeping requested : Phase
  answered : Option Bool → Phase
  reported : Bool → Phase

-- The instances by their holder identifiers, which are unique, with the phase of each loop, the
-- database and its clock. `renewed` is the time at which the database last agreed to an instance's
-- request for the lock; no code reads it.
pub record System : Type 0 where
  pub now : ℕ
  pub db : Database
  pub instances : String → Instance
  pub phases : String → Phase
  pub renewed : String → ℕ

abbrev pub update : {A : Type 0} → String → A → (String → A) → String → A
update h a f k = if k == h then a else f k

abbrev pub to_phase : String → Phase → System → System
to_phase h p s = record s { phases = update h p s.phases }

-- The statement of the lock runs, or is lost, and its answer is on the way.
abbrev pub after_ask : Config → Link → String → System → System
after_ask c link h s =
    let (answer, db) = ask c s.now link (s.instances h) s.db in
    record s {
      db = db;
      phases = update h (answered answer) s.phases;
      renewed = if agreed answer then update h s.now s.renewed else s.renewed;
    }

abbrev pub after_heartbeat : Config → Link → String → Bool → System → System
after_heartbeat c link h b s = record s {
  db = heartbeat_node s.now link c (s.instances h) s.db;
  phases = update h (reported b) s.phases;
}

abbrev pub after_decide : Config → String → Option Bool → System → System
after_decide c h answer s = record s {
  instances = update h (decide c answer (s.instances h)).0 s.instances;
  phases = update h sleeping s.phases;
}

abbrev pub after_halt : String → System → System
after_halt h s = record s { instances = update h (halt (s.instances h)).0 s.instances }

-- One thing happens. The loop goes from one await to the next; `stop` may begin at any of them, and
-- its statements run at any time after. Such a statement may also run where `stop` would not send
-- it, which only allows more.
pub data Step (c : Config) (s : System) : System → Type 0 where
  wait : (d : ℕ) → Step c s (record s { now = s.now + d })
  requests :
      (h : String)
      → (s.instances h).running ≡ true
      → s.phases h ≡ sleeping
      → Step c s (to_phase h requested s)
  asks : (h : String) (link : Link) → s.phases h ≡ requested → Step c s (after_ask c link h s)
  fails : (h : String) → s.phases h ≡ answered none → Step c s (after_decide c h none s)
  reports :
      (h : String) (link : Link) (b : Bool)
      → s.phases h ≡ answered (some b)
      → Step c s (after_heartbeat c link h b s)
  decides :
      (h : String) (b : Bool) → s.phases h ≡ reported b → Step c s (after_decide c h (some b) s)
  halts : (h : String) → Step c s (after_halt h s)
  releases :
      (h : String) (link : Link)
      → (s.instances h).running ≡ false
      → Step c s (record s { db = release c link (s.instances h) s.db })
  deregisters :
      (h : String) (link : Link)
      → (s.instances h).running ≡ false
      → Step c s (record s { db = deregister link (s.instances h) s.db })

pub data Reach (c : Config) (s : System) : System → Type 0 where
  here : Reach c s s
  next : {t u : System} → Reach c s t → Step c t u → Reach c s u

abbrev pub LeaseRuns : Config → String → System → Type 0
LeaseRuns c h s = s.now ≤ s.renewed h + c.lease_duration_seconds * second

-- The answer of the database with which an instance is about to lead.
abbrev pub agreed_in : Phase → Bool
agreed_in sleeping = false
agreed_in requested = false
agreed_in (answered answer) = agreed answer
agreed_in (reported b) = b

-- An instance that is not stopped leads, or is about to.
abbrev pub claiming : Instance → Phase → Bool
claiming i p = i.running && (i.is_leader || agreed_in p)
