-- ===== src/LeaderElection/Leases.antt =====
-- The row of the lock under the statements of src/leader_election.py: it covers the lease of the
-- instance that claims to lead.
use no8s_operator.Base.{
  ℕ, ◌+◌, ◌*◌, ◌≤◌, String, ◌≡◌, refl, sym, ◌∙◌, ◌≢◌, true, Option, none, some, arith, Option-cases,
  inl, inr,
}
use no8s_operator.Db.Rows.{Lock, Database, second}
use no8s_operator.Db.Locks.{expires, lock_of}
use no8s_operator.Db.Locks.Laws.{UniqueKeys, Takeable}
use no8s_operator.LeaderElection.{Config, Instance, Link, ask, release}
use no8s_operator.LeaderElection.Rounds.{agreed, attempt_lock}
use no8s_operator.LeaderElection.Tables.{ask_cases, release_keeps}

-- The row is the instance's, and does not expire before the lease does.
abbrev pub Covers : Config → ℕ → ℕ → String → Option Lock → Type 0
Covers c now renewed h none = ⊥
Covers c now renewed h (some l) =
    (l.holder_id ≡ h) × (renewed ≤ now) × (renewed + c.lease_duration_seconds * second ≤ expires l)

pub Covers-renewed :
    (c : Config) (now r : ℕ) (h : String) (x : Option Lock) → Covers c now r h x → r ≤ now
Covers-renewed c now r h none k = elim k [ ]
Covers-renewed c now r h (some l) k = k.1

pub Covers-later :
    (c : Config) (now d r : ℕ) (h : String) (x : Option Lock)
    → Covers c now r h x
    → Covers c (now + d) r h x
Covers-later c now d r h none v = elim v [ ]
Covers-later c now d r h (some l) v = (v.0, omega (arith, v.1), v.2)

-- Another instance cannot take a lock that covers a running lease.
pub Covers-not_Takeable :
    (c : Config) (now r : ℕ) (h k : String) (x : Option Lock)
    → Covers c now r h x
    → now ≤ r + c.lease_duration_seconds * second
    → k ≢ h
    → ¬ Takeable now k x
Covers-not_Takeable c now r h k none v runs d _ = elim v [ ]
Covers-not_Takeable c now r h k (some l) v runs d (inl t) = omega (arith, v.2)
Covers-not_Takeable c now r h k (some l) v runs d (inr t) = d (cc (v.0, t))

pub Covers-same :
    (c : Config) (now r q : ℕ) (a b : String) (x : Option Lock)
    → Covers c now r a x
    → Covers c now q b x
    → a ≡ b
Covers-same c now r q a b none v w = elim v [ ]
Covers-same c now r q a b (some l) v w = sym v.0 ∙ w.0

module _ (c : Config) (link : Link) (now r : ℕ) (i : Instance) (db : Database) where
  -- What the instance holds it still holds after it has asked, also where the answer is lost.
  pub ask_own :
      Covers c now r i.holder_id (lock_of c.lock_name db)
      → Covers c now r i.holder_id (lock_of c.lock_name (ask c now link i db).1)
  ask_own v =
      let early = Covers-renewed c now r i.holder_id (lock_of c.lock_name db) v in
      elim (ask_cases c now i db link) [
        | inl (_, e) ↦ rw e (refl, early, omega (arith, early))
        | inr e ↦ rw e v
      ]

  pub ask_other :
      (h : String)
      → i.holder_id ≢ h
      → now ≤ r + c.lease_duration_seconds * second
      → Covers c now r h (lock_of c.lock_name db)
      → Covers c now r h (lock_of c.lock_name (ask c now link i db).1)
  ask_other h d runs v = elim (ask_cases c now i db link) [
    | inl (t, _) ↦
        absurd (Covers-not_Takeable c now r h i.holder_id (lock_of c.lock_name db) v runs d t)
    | inr e ↦ rw e v
  ]

  pub ask_agreed :
      agreed (ask c now link i db).0 ≡ true
      → Covers c now now i.holder_id (lock_of c.lock_name (ask c now link i db).1)
  ask_agreed a = rw (attempt_lock c now i db link a) (refl, omega arith, omega arith)

pub release_other :
    (c : Config) (link : Link) (now r : ℕ) (i : Instance) (db : Database) (h : String)
    → i.holder_id ≢ h
    → UniqueKeys db.locks
    → Covers c now r h (lock_of c.lock_name db)
    → Covers c now r h (lock_of c.lock_name (release c link i db))
release_other c link now r i db h d u v = elim (Option-cases (lock_of c.lock_name db)) [
  | inl e ↦ absurd (rw e at v)
  | inr (l, e) ↦
      let v' : Covers c now r h (some l) = rw e at v in
      rw (release_keeps c link i db {l = l} u e (λ q. d (sym q ∙ v'.0))) v'
]
