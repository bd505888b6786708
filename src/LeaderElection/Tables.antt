-- ===== src/LeaderElection/Tables.antt =====
-- What each statement of one instance leaves in the table `locks`.
use no8s_operator.Base.{
  ℕ, ◌≡◌, refl, ap, ◌∙◌, ◌≢◌, Bool, true, false, some, arith, ◌⊎◌, inl, inr, string_eq,
}
use no8s_operator.Base.Result.{Result, ok}
use no8s_operator.Db.Rows.{Lock, Database}
use no8s_operator.Db.Locks.{taken, lock_of, acquire_or_renew_lock, release_lock}
use no8s_operator.Db.Locks.Laws.{
  UniqueKeys, Takeable, acquire_or_renew_lock_iff, acquire_answers, lock_of-release_lock,
  acquire-UniqueKeys, release-UniqueKeys,
}
use no8s_operator.LeaderElection.{
  Config, Instance, Link, up, lost_request, lost_answer, over, ask, release,
}

over_cases :
    {b : Bool} {after : Database} (m : Database → Result Bool × Database) (db : Database)
    (link : Link)
    → m db ≡ (ok b, after)
    → ((over link m db).1 ≡ after) ⊎ ((over link m db).1 ≡ db)
over_cases m db up e = inl (ground arith)
over_cases m db lost_request e = inr refl
over_cases m db lost_answer e = inl (ground arith)

module _ (c : Config) (now : ℕ) (s : Instance) (db : Database) where
  abbrev mine : Lock
  mine = taken now c.lock_name s.holder_id c.lease_duration_seconds

  ask-acquire :
      (link : Link) {b : Bool}
      → acquire_or_renew_lock now c.lock_name s.holder_id c.lease_duration_seconds db
        ≡ (ok b, (acquire_or_renew_lock now c.lock_name s.holder_id c.lease_duration_seconds db).1)
      → ((ask c now link s db).1
          ≡ (acquire_or_renew_lock now c.lock_name s.holder_id c.lease_duration_seconds db).1)
        ⊎ ((ask c now link s db).1 ≡ db)
  unfolding ask
  ask-acquire link e =
      over_cases (acquire_or_renew_lock now c.lock_name s.holder_id c.lease_duration_seconds) db
        link e

  -- Either the lock is the instance's from now on, or the table is as it was.
  pub ask_cases :
      (link : Link)
      → (Takeable now s.holder_id (lock_of c.lock_name db)
          × (lock_of c.lock_name (ask c now link s db).1 ≡ some mine))
        ⊎ ((ask c now link s db).1 ≡ db)
  ask_cases link =
      let iff = acquire_or_renew_lock_iff now c.lock_name s.holder_id c.lease_duration_seconds db in
      elim (acquire_answers now c.lock_name s.holder_id c.lease_duration_seconds db) [
        | inl t ↦ elim (ask-acquire link {b = true} (ground arith)) [
          | inl e ↦ inl (iff.0.0 t, ap (lock_of c.lock_name) e ∙ iff.1 t)
          | inr e ↦ inr e
        ]
        | inr f ↦ elim (ask-acquire link {b = false} (ground arith)) [
          | inl e ↦ inr (e ∙ iff.2 f)
          | inr e ↦ inr e
        ]
      ]

  pub ask_keys : (link : Link) → UniqueKeys db.locks → UniqueKeys (ask c now link s db).1.locks
  unfolding ask
  ask_keys up u =
      ground (arith, acquire-UniqueKeys now c.lock_name s.holder_id c.lease_duration_seconds db u)
  ask_keys lost_request u = u
  ask_keys lost_answer u =
      acquire-UniqueKeys now c.lock_name s.holder_id c.lease_duration_seconds db u

module _ (c : Config) (link : Link) (s : Instance) (db : Database) where
  release_happens :
      (release c link s db ≡ (release_lock c.lock_name s.holder_id db).1)
      ⊎ (release c link s db ≡ db)
  unfolding release_lock
  release_happens = over_cases (release_lock c.lock_name s.holder_id) db link refl

  pub release_keys : UniqueKeys db.locks → UniqueKeys (release c link s db).locks
  release_keys u = elim release_happens [
    | inl e ↦ rw e (release-UniqueKeys c.lock_name s.holder_id db u)
    | inr e ↦ rw e u
  ]

  pub release_keeps :
      {l : Lock}
      → UniqueKeys db.locks
      → lock_of c.lock_name db ≡ some l
      → l.holder_id ≢ s.holder_id
      → lock_of c.lock_name (release c link s db) ≡ some l
  release_keeps {l} u e d = elim release_happens [
    | inl r ↦
        ap (lock_of c.lock_name) r
        ∙ ground (arith, lock_of-release_lock c.lock_name c.lock_name s.holder_id db u)
    | inr r ↦ ap (lock_of c.lock_name) r ∙ e
  ]
