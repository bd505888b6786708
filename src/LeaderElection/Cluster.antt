-- ===== src/LeaderElection/Cluster.antt =====
-- Any number of instances of src/leader_election.py on one database: while the lease of a leader that
-- is not stopped runs, no other such instance leads.
use mathlib.Core.Path.{subst}
use no8s_operator.Base.{
  String, Bool, ◌≡◌, refl, sym, ap, ◌∙◌, ◌≢◌, true, false, ◌&&◌, Option, none, some, arith, find,
  string_eq, inl, inr, Bool-cases,
}
use no8s_operator.Db.Rows.{Database}
use no8s_operator.Db.Locks.{has_key, lock_of}
use no8s_operator.Db.Locks.Laws.{UniqueKeys}
use no8s_operator.LeaderElection.{
  Config, Instance, Link, ask, decide, stop_leading, heartbeat_node, halt, release, deregister,
}
use no8s_operator.LeaderElection.Rounds.{agreed, decide_leads, locks-heartbeat, locks-deregister}
use no8s_operator.LeaderElection.Tables.{ask_keys, release_keys}
use no8s_operator.LeaderElection.Steps.{
  Phase, sleeping, requested, reported, System, to_phase, after_ask, after_decide, after_halt, Step,
  wait, requests, asks, fails, reports, decides, halts, releases, deregisters, Reach, here, next,
  LeaseRuns, agreed_in, claiming,
}
use no8s_operator.LeaderElection.Leases.{
  Covers, Covers-later, Covers-same, ask_own, ask_other, ask_agreed, release_other,
}

pub record IsSafe (c : Config) (s : System) : Type 0 where
  pub keys : UniqueKeys s.db.locks
  pub names : (h : String) → (s.instances h).holder_id ≡ h
  pub holds :
      (h : String)
      → claiming (s.instances h) (s.phases h) ≡ true
      → LeaseRuns c h s
      → Covers c s.now (s.renewed h) h (lock_of c.lock_name s.db)

ask-IsSafe :
    (c : Config) (link : Link) (k : String) (s : System)
    → IsSafe c s
    → IsSafe c (after_ask c link k s)
ask-IsSafe c link k s safe = record {
  keys = ask_keys c s.now (s.instances k) s.db link safe.keys;
  names = safe.names;
  holds = λ h l r. elim (string_eq.dec h k) [
    | yes p ↦ elim (Bool-cases (agreed (ask c s.now link (s.instances k) s.db).0)) [
      | inl a ↦
          let v = ask_agreed c link s.now 0 (s.instances k) s.db a in
          ground (arith, v, p, a, safe.names k)
      | inr n ↦
          let l' : claiming (s.instances h) (s.phases h) ≡ true = ground (arith, l, p, n) in
          let r' : LeaseRuns c h s = ground (arith, r, p, n) in
          let v = ask_own c link s.now (s.renewed h) (s.instances h) s.db in
          ground (arith, v, n, p, safe.names h, safe.holds h l' r')
    ]
    | no d ↦
        let l' : claiming (s.instances h) (s.phases h) ≡ true = ground arith in
        let r' : LeaseRuns c h s = ground arith in
        let v =
          ask_other c link s.now (s.renewed h) (s.instances k) s.db h
            (λ q. d (sym q ∙ safe.names k)) r' (safe.holds h l' r') in
        ground (arith, v)
  ];
}

-- A step that leaves the locks and the times, and in which nobody begins to claim, is safe.
quiet_step :
    {c : Config} {s : System} (t : System)
    → IsSafe c s
    → t.now ≡ s.now
    → t.renewed ≡ s.renewed
    → t.db.locks ≡ s.db.locks
    → ((h : String)
        → ((t.instances h).holder_id ≡ (s.instances h).holder_id)
          × (claiming (t.instances h) (t.phases h) ≡ true
              → claiming (s.instances h) (s.phases h) ≡ true))
    → IsSafe c t
quiet_step {c} {s} t safe n r e follows = record {
  keys = subst UniqueKeys (sym e) safe.keys;
  names = λ h. (follows h).0 ∙ safe.names h;
  holds = λ h l runs.
      let runs' : LeaseRuns c h s = rw (sym n, sym r) runs in
      let v = safe.holds h ((follows h).1 l) runs' in
      rw (n, r, ap (find (has_key c.lock_name)) e) v;
}

decide_running :
    (c : Config) (answer : Option Bool) (i : Instance) → (decide c answer i).0.running ≡ i.running
unfolding decide stop_leading
decide_running c none i = ground arith
decide_running c (some true) i = ground arith
decide_running c (some false) i = ground arith

decide-IsSafe :
    (c : Config) (k : String) (answer : Option Bool) (s : System)
    → agreed_in (s.phases k) ≡ agreed answer
    → IsSafe c s
    → IsSafe c (after_decide c k answer s)
decide-IsSafe c k answer s a safe =
    let led = decide_leads c answer (s.instances k) in
    let ran = decide_running c answer (s.instances k) in
    quiet_step (after_decide c k answer s) safe refl refl refl (λ h. elim (string_eq.dec h k) [
      | yes p ↦ (ground (arith, led.1), λ l. ground (arith, l, led.0, ran, a))
      | no d ↦ (ground arith, λ l. ground (arith, l))
    ])

halt-IsSafe : (c : Config) (k : String) (s : System) → IsSafe c s → IsSafe c (after_halt k s)
unfolding halt
halt-IsSafe c k s safe = quiet_step (after_halt k s) safe refl refl refl (λ h.
    elim (string_eq.dec h k) [
      | yes p ↦ (ground arith, λ l. ground (arith, l))
      | no d ↦ (ground arith, λ l. ground (arith, l))
    ])

release-IsSafe :
    (c : Config) (link : Link) (k : String) (s : System)
    → (s.instances k).running ≡ false
    → IsSafe c s
    → IsSafe c (record s { db = release c link (s.instances k) s.db })
release-IsSafe c link k s stopped safe = record {
  keys = release_keys c link (s.instances k) s.db safe.keys;
  names = safe.names;
  holds = λ h l r.
      let d : h ≢ k = λ p. ground (arith, l, stopped, p) in
      let d' : (s.instances k).holder_id ≢ h = λ q. d (sym q ∙ safe.names k) in
      release_other c link s.now (s.renewed h) (s.instances k) s.db h d' safe.keys
        (safe.holds h l r);
}

phase_step :
    (c : Config) (p : Phase) (k : String) (s : System)
    → (agreed_in p ≡ true → agreed_in (s.phases k) ≡ true)
    → (db : Database) → db.locks ≡ s.db.locks
    → IsSafe c s
    → IsSafe c (record (to_phase k p s) { db = db })
phase_step c p k s a db e safe =
    quiet_step (record (to_phase k p s) { db = db }) safe refl refl e
      (λ h. elim (string_eq.dec h k) [
        | yes q ↦ (refl, λ l. ground (arith, l, a, q))
        | no d ↦ (refl, λ l. ground (arith, l))
      ])

pub Step-IsSafe : {c : Config} {s t : System} → Step c s t → IsSafe c s → IsSafe c t
Step-IsSafe {c} {s} (wait d) safe = record {
  keys = safe.keys;
  names = safe.names;
  holds = λ h l r.
      Covers-later c s.now d (s.renewed h) h (lock_of c.lock_name s.db)
        (safe.holds h l (omega arith));
}
Step-IsSafe {c} {s} (requests h u p) safe =
    phase_step c requested h s (λ a. ground arith) s.db refl safe
Step-IsSafe {c} {s} (asks h link p) safe = ask-IsSafe c link h s safe
Step-IsSafe {c} {s} (fails h p) safe = decide-IsSafe c h none s (ap agreed_in p) safe
Step-IsSafe {c} {s} (reports h link b p) safe =
    phase_step c (reported b) h s (λ a. ground (arith, p))
      (heartbeat_node s.now link c (s.instances h) s.db)
      (locks-heartbeat s.now link c (s.instances h) s.db) safe
Step-IsSafe {c} {s} (decides h b p) safe = decide-IsSafe c h (some b) s (ap agreed_in p) safe
Step-IsSafe {c} {s} (halts h) safe = halt-IsSafe c h s safe
Step-IsSafe {c} {s} (releases h link u) safe = release-IsSafe c link h s u safe
Step-IsSafe {c} {s} (deregisters h link u) safe =
    quiet_step (record s { db = deregister link (s.instances h) s.db }) safe refl refl
      (locks-deregister link (s.instances h).holder_id s.db) (λ k. (refl, λ l. l))

Reach-IsSafe : {c : Config} {s t : System} → IsSafe c s → Reach c s t → IsSafe c t
Reach-IsSafe safe here = safe
Reach-IsSafe safe (next r step) = Step-IsSafe step (Reach-IsSafe safe r)

-- Mutual exclusion: from a system in which every loop sleeps and nobody leads, each lock has one row
-- and each instance its own holder identifier, through any interleaving of the awaits of loops, stops
-- and heartbeats, with delays and lost messages, two different instances that are running, so that
-- stop has not been called on them, never both lead while both their leases run, counted from the
-- last time the database agreed. Nothing is said of an instance on which stop was called.
pub one_leader :
    {c : Config} {s t : System} (a b : String)
    → UniqueKeys s.db.locks
    → ((h : String) → (s.instances h).holder_id ≡ h)
    → ((h : String) → ((s.instances h).is_leader ≡ false) × (s.phases h ≡ sleeping))
    → Reach c s t
    → (t.instances a).running && (t.instances a).is_leader ≡ true
    → (t.instances b).running && (t.instances b).is_leader ≡ true
    → LeaseRuns c a t
    → LeaseRuns c b t
    → a ≡ b
one_leader {c} {s} {t} a b keys names nobody r la lb ra rb =
    let safe =
      Reach-IsSafe {c = c} {s = s} {t = t}
        (record {
          keys = keys;
          names = names;
          holds = λ h l x. absurd (ground (arith, nobody h, l));
        })
        r in
    Covers-same c t.now (t.renewed a) (t.renewed b) a b (lock_of c.lock_name t.db)
      (safe.holds a (ground arith) ra) (safe.holds b (ground arith) rb)
