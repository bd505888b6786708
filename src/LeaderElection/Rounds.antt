-- ===== src/LeaderElection/Rounds.antt =====
-- What one round of src/leader_election.py `run` leaves behind, and the effects of many.
use no8s_operator.Base.{
  ℕ, String, ◌≡◌, refl, Bool, true, false, Option, none, some, List, [], ◌∷◌, ◌++◌, arith, inl, inr,
}
use no8s_operator.Base.Result.{ok}
use no8s_operator.Db.Rows.{Database}
use no8s_operator.Db.Locks.{taken, lock_of, acquire_or_renew_lock}
use no8s_operator.Db.Locks.Laws.{acquire_or_renew_lock_iff, acquire_answers}
use no8s_operator.Db.Nodes.{register_node, deregister_node}
use no8s_operator.LeaderElection.{
  Config, Instance, Effect, started_leading, cancelled, stopped_leading, Link, up, lost_request,
  lost_answer, over, ask, stop_leading, decide, heartbeat_node, heartbeat_if, round,
}

-- The heartbeat writes another table.
pub locks-heartbeat :
    (now : ℕ) (link : Link) (c : Config) (s : Instance) (db : Database)
    → (heartbeat_node now link c s db).locks ≡ db.locks
unfolding register_node
locks-heartbeat now up c s db = ground arith
locks-heartbeat now lost_request c s db = refl
locks-heartbeat now lost_answer c s db = ground arith

pub locks-deregister :
    (link : Link) (i : String) (db : Database)
    → (over link (deregister_node i) db).1.locks ≡ db.locks
unfolding deregister_node
locks-deregister up i db = refl
locks-deregister lost_request i db = refl
locks-deregister lost_answer i db = refl

-- The answer that makes an instance lead.
abbrev pub agreed : Option Bool → Bool
agreed none = false
agreed (some b) = b

pub decide_leads :
    (c : Config) (answer : Option Bool) (s : Instance)
    → ((decide c answer s).0.is_leader ≡ agreed answer)
      × ((decide c answer s).0.holder_id ≡ s.holder_id)
unfolding decide stop_leading
decide_leads c none s = ground arith
decide_leads c (some true) s = ground arith
decide_leads c (some false) s = ground arith

pub locks-heartbeat_if :
    (answer : Option Bool) (now : ℕ) (link : Link) (c : Config) (s : Instance) (db : Database)
    → (heartbeat_if answer now link c s db).locks ≡ db.locks
locks-heartbeat_if none now link c s db = refl
locks-heartbeat_if (some b) now link c s db = locks-heartbeat now link c s db

module _ (c : Config) (now : ℕ) (s : Instance) (db : Database) where
  abbrev attempt : Link → Option Bool × Database
  attempt link = ask c now link s db

  refused :
      (acquire_or_renew_lock now c.lock_name s.holder_id c.lease_duration_seconds db).0 ≡ ok false
      → agreed (attempt up).0 ≡ true
      → ⊥
  unfolding ask
  refused f a = ground arith

  pub attempt_lock :
      (link : Link)
      → agreed (attempt link).0 ≡ true
      → lock_of c.lock_name (attempt link).1
        ≡ some (taken now c.lock_name s.holder_id c.lease_duration_seconds)
  unfolding ask
  attempt_lock up a =
      let iff = acquire_or_renew_lock_iff now c.lock_name s.holder_id c.lease_duration_seconds db in
      elim (acquire_answers now c.lock_name s.holder_id c.lease_duration_seconds db) [
        | inl t ↦ ground (arith, iff.1 t)
        | inr f ↦ absurd (refused f a)
      ]
  attempt_lock lost_request a = cc
  attempt_lock lost_answer a = cc

-- What happens before one more round: the clock, both links, the state of the database, which other
-- instances have changed at will, and whether the leading task has ended by itself.
pub record Turn : Type 0 where
  pub now : ℕ
  pub lock_link : Link
  pub node_link : Link
  pub db : Database
  pub task_done : Bool

abbrev pub task_ended : Bool → Instance → Instance
task_ended true s = record s { leading = false }
task_ended false s = s

-- The effects of a run of rounds.
unfoldable pub run_effects : Config → List Turn → Instance → List Effect
run_effects c [] s = []
run_effects c (t ∷ ts) s =
    let (s', _, effects, _) =
      round c t.now t.lock_link t.node_link (task_ended t.task_done s) t.db in
    effects ++ run_effects c ts s'

-- Starts and stops take turns, beginning with a start if the flag is false; a task is only cancelled
-- between a start and the stop that follows it at once.
abbrev pub Alternates : Bool → List Effect → Type 0
Alternates leads [] = Unit
Alternates false (started_leading ∷ es) = Alternates true es
Alternates true (stopped_leading ∷ es) = Alternates false es
Alternates true (cancelled ∷ stopped_leading ∷ es) = Alternates false es
Alternates _ _ = ⊥
