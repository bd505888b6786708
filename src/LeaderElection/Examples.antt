-- ===== src/LeaderElection/Examples.antt =====
-- The theorems on src/leader_election.py at concrete instances.
use no8s_operator.Base.{String, ◌≡◌, refl, true, false, ◌&&◌, some, List, [], ◌∷◌, arith, string_eq}
use no8s_operator.Db.Rows.{empty}
use no8s_operator.Db.Locks.{acquire_or_renew_lock, release_lock}
use no8s_operator.LeaderElection.{
  Config, Instance, up, lost_request, lost_answer, ask, halt, release, decide,
}
use no8s_operator.LeaderElection.Rounds.{Turn}
use no8s_operator.LeaderElection.Steps.{
  System, sleeping, requested, answered, to_phase, after_ask, after_heartbeat, after_decide,
  after_halt, here, next, requests, asks, reports, decides, Reach,
}
use no8s_operator.LeaderElection.Cluster.{one_leader}

abbrev config : Config
config = record {
  lock_name = "leader";
  lease_duration_seconds = 30;
  renew_interval_seconds = 10;
  retry_interval_seconds = 5;
}

abbrev fresh : String → Instance
fresh h = record {
  holder_id = h;
  hostname = h;
  pid = "1";
  is_leader = false;
  running = true;
  leading = false;
}

abbrev start : System
start = record {
  now = 100;
  db = empty;
  instances = fresh;
  phases = λ h. sleeping;
  renewed = λ h. 0;
}

-- One round of an instance, await by await.
abbrev asked : String → System → System
asked h s = after_ask config up h (to_phase h requested s)

abbrev led : String → System → System
led h s = after_decide config h (some true) (after_heartbeat config up h true (asked h s))

abbrev elected : System
elected = led "a" start

a_leads : (elected.instances "a").running && (elected.instances "a").is_leader ≡ true
unfolding ask decide acquire_or_renew_lock string_eq
a_leads = refl

a_renewed : elected.renewed "a" ≡ 100
unfolding ask decide acquire_or_renew_lock string_eq
a_renewed = refl

a_answered : (asked "a" start).phases "a" ≡ answered (some true)
unfolding ask acquire_or_renew_lock string_eq
a_answered = refl

elected_reached : Reach config start elected
unfolding string_eq
elected_reached =
    next
      (next (next (next here (requests "a" refl refl)) (asks "a" up refl))
        (reports "a" up true a_answered))
      (decides "a" true refl)

-- A leader is stopped while the answer to its renewal is on the way: it leads again without the lock,
-- which another instance has taken.
abbrev stopped_meanwhile : System
stopped_meanwhile =
    let s = after_halt "a" (asked "a" elected) in
    let t = record s { db = release config up (s.instances "a") s.db } in
    led "b" (after_decide config "a" (some true) (after_heartbeat config up "a" true t))

both_lead :
    ((stopped_meanwhile.instances "a").is_leader ≡ true)
    × ((stopped_meanwhile.instances "b").is_leader ≡ true)
    × ((stopped_meanwhile.instances "a").running ≡ false)
unfolding ask halt decide acquire_or_renew_lock release_lock string_eq
both_lead = (refl, refl, refl)

abbrev turns : List Turn
turns =
    record { now = 100; lock_link = up; node_link = up; db = empty; task_done = false }
    ∷ record { now = 110; lock_link = lost_answer; node_link = up; db = empty; task_done = false }
    ∷ record { now = 120; lock_link = up; node_link = lost_request; db = empty; task_done = true }
    ∷ []

one_leader_example : ◌≡◌ {A = String} "a" "a"
one_leader_example =
    one_leader {c = config} {s = start} {t = elected} "a" "a" tt (λ h. refl) (λ h. (refl, refl))
      elected_reached a_leads a_leads (rw a_renewed (omega arith)) (rw a_renewed (omega arith))
