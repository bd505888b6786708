-- ===== src/Migrations/Runs.antt =====
-- What a run of src/migrate.py has applied when it ends, and what the next run does.
use mathlib.Core.Path.{subst}
use mathlib.Core.List.{append-nil, append_assoc}
use no8s_operator.Base.{
  ℕ, String, Bool, true, false, ◌≡◌, ◌≢◌, ◌⊎◌, inl, inr, refl, sym, ap, ◌∙◌, arith, none, some,
  List, [], ◌∷◌, ◌++◌, map, string_eq, length, Option,
}
use no8s_operator.Base.Assoc.{Dict}
use no8s_operator.Base.Result.{Error, Result, ok, err, by_answer, unique_violation}
use no8s_operator.Migrations.{
  Entry, Migration, Server, recorded_rows, is_recorded, pending, as_row, ensure_migration_table,
  get_applied_versions, apply_migration, apply_all, run_todo, run_pending, run_discovered,
  run_migrations,
}

table_is :
    (o : Option (Dict String String)) (rows : Dict String String)
    → o ≡ some rows
    → o ≡ some (elim o [ none ↦ [] | some rs ↦ rs ])
table_is none rows h = absurd (ground arith)
table_is (some rs) rows h = refl

module _ {S : Type 0} (execute : String → S → Result S) where
  -- The schema that the files' statements build, in order.
  abbrev pub replay : List Migration → S → Result S
  replay [] s = ok s
  replay (m ∷ ms) s = elim m.content [
    | err e ↦ err e
    | ok sql ↦ elim (execute sql s) [ err e ↦ err e | ok s' ↦ replay ms s' ]
  ]

  Step : Migration → Server S → Result (Unit {0}) × Server S → Type 0
  Step m s x =
      ((e : Error) × (x ≡ (err e, s)))
      ⊎ ((t : Server S) × (x ≡ (ok tt, t))
          × (t.schema_migrations ≡ some (recorded_rows s ++ as_row m ∷ []))
          × (replay (m ∷ []) s.schema ≡ ok t.schema))

  apply_migration-Step : (m : Migration) (s : Server S) → Step m s (apply_migration execute m s)
  unfolding Step apply_migration
  apply_migration-Step m s = go m.content refl
    where
      taken : Bool
      taken = is_recorded (get_applied_versions s) m

      insert :
          (sql : String) (schema : S)
          → m.content ≡ ok sql
          → execute sql s.schema ≡ ok schema
          → (b : Bool) → taken ≡ b
          → Step m s (apply_migration execute m s)
      insert sql schema q x true b = inl (
        unique_violation "schema_migrations_version_key",
        rw (q, apply_migration) (rw (x, b) refl),
      )
      insert sql schema q x false b = inr (
        record s { schema = schema; schema_migrations = some (recorded_rows s ++ as_row m ∷ []) },
        rw (q, apply_migration) (rw (x, b) refl),
        refl,
        rw (q, replay) (rw x refl),
      )

      run :
          (sql : String)
          → m.content ≡ ok sql
          → (r : Result S) → execute sql s.schema ≡ r
          → Step m s (apply_migration execute m s)
      run sql q (err e) x = inl (e, rw (q, apply_migration) (rw x refl))
      run sql q (ok schema) x = insert sql schema q x taken refl

      go : (c : Result String) → m.content ≡ c → Step m s (apply_migration execute m s)
      go (err e) q = inl (e, rw (q, apply_migration) refl)
      go (ok sql) q = run sql q (execute sql s.schema) refl

  replay_cons :
      (m : Migration) (ms : List Migration) (a b : S)
      → replay (m ∷ []) a ≡ ok b
      → replay (m ∷ ms) a ≡ replay ms b
  replay_cons m ms a b = ground arith

  -- What `apply_all` leaves of the server `s`, when it is given the files `ms`.
  record Applied (ms : List Migration) (s : Server S) (x : Result (Unit {0}) × Server S)
      : Type 0 where
    completed : List Migration
    rest : List Migration
    split : ms ≡ completed ++ rest
    recorded : x.1.schema_migrations ≡ some (recorded_rows s ++ map as_row completed)
    replayed : replay completed s.schema ≡ ok x.1.schema
    answer : ((rest ≡ []) × (x.0 ≡ ok tt)) ⊎ ((rest ≢ []) × ((e : Error) × (x.0 ≡ err e)))

  apply_all-Applied :
      (ms : List Migration) (s : Server S)
      → s.schema_migrations ≡ some (recorded_rows s)
      → Applied ms s (apply_all execute ms s)
  unfolding apply_all Step
  apply_all-Applied [] s h = record {
    completed = [];
    rest = [];
    split = refl;
    recorded = rw append-nil h;
    replayed = refl;
    answer = inl (refl, refl);
  }
  apply_all-Applied (m ∷ ms) s h = elim (apply_migration-Step m s) [
    | inl (e, q) ↦
        subst (λ x. Applied (m ∷ ms) s (next x)) (sym q)
          record {
            completed = [];
            rest = m ∷ ms;
            split = refl;
            recorded = rw append-nil h;
            replayed = refl;
            answer = inr (λ p. absurd (ground arith), (e, refl));
          }
    | inr (t, q, added, done) ↦
        subst (λ x. Applied (m ∷ ms) s (next x)) (sym q)
          (let there : recorded_rows t ≡ recorded_rows s ++ as_row m ∷ [] =
              rw (added, recorded_rows) refl in
            let r : Applied ms t (apply_all execute ms t) =
              apply_all-Applied ms t (rw there added) in
            record {
              completed = m ∷ r.completed;
              rest = r.rest;
              split = ap (◌∷◌ m) r.split;
              recorded =
                  r.recorded
                  ∙ ap some (
                      ap (λ l. l ++ map as_row r.completed) there
                      ∙ append_assoc (recorded_rows s) (as_row m ∷ []) (map as_row r.completed));
              replayed = replay_cons m r.completed s.schema t.schema done ∙ r.replayed;
              answer = r.answer;
            })
  ]
    where
      next : Result (Unit {0}) × Server S → Result (Unit {0}) × Server S
      next = by_answer (λ _. apply_all execute ms)

  -- `run_pending` on what the table held before; the first migrations of the pending ones are done.
  pub record Ran (ms : List Migration) (s : Server S) (x : Result ℕ × Server S) : Type 0 where
    pub completed : List Migration
    pub rest : List Migration
    pub split : pending (get_applied_versions s) ms ≡ completed ++ rest
    pub recorded : recorded_rows x.1 ≡ recorded_rows s ++ map as_row completed
    pub replayed : replay completed s.schema ≡ ok x.1.schema
    pub answer :
        ((rest ≡ []) × (x.0 ≡ ok (length completed)))
        ⊎ ((rest ≢ []) × ((e : Error) × (x.0 ≡ err e)))

  run_pending-Ran : (ms : List Migration) (s : Server S) → Ran ms s (run_pending execute ms s)
  unfolding run_pending
  run_pending-Ran ms s = elim r.answer [
    | inl (all, q) ↦ record {
      completed = r.completed;
      rest = r.rest;
      split = r.split;
      recorded = rw (q, run_pending, run_todo) (rw (r.recorded, recorded_rows) refl);
      replayed = rw (q, run_pending, run_todo) r.replayed;
      answer = inl (
        all,
        rw (q, run_pending, run_todo)
            (ap ok (ap length (r.split ∙ ap (λ l. r.completed ++ l) all ∙ append-nil r.completed))),
      );
    }
    | inr (more, (e, q)) ↦ record {
      completed = r.completed;
      rest = r.rest;
      split = r.split;
      recorded = rw (q, run_pending, run_todo) (rw (r.recorded, recorded_rows) refl);
      replayed = rw (q, run_pending, run_todo) r.replayed;
      answer = inr (more, (e, rw (q, run_pending, run_todo) refl));
    }
  ]
    where
      s' : Server S
      s' = ensure_migration_table s

      todo : List Migration
      todo = pending (get_applied_versions s) ms

      r : Applied todo s' (apply_all execute todo s')
      r = apply_all-Applied todo s' refl

  pub run_pending_table :
      (ms : List Migration) (s : Server S)
      → (run_pending execute ms s).1.schema_migrations
        ≡ some (recorded_rows (run_pending execute ms s).1)
  unfolding run_pending
  run_pending_table ms s = elim r.answer [
    | inl (all, q) ↦ rw (q, run_pending, run_todo) (table_is _ _ r.recorded)
    | inr (more, (e, q)) ↦ rw (q, run_pending, run_todo) (table_is _ _ r.recorded)
  ]
    where
      s' : Server S
      s' = ensure_migration_table s

      r :
          Applied
            (pending (get_applied_versions s) ms)
            s'
            (apply_all execute (pending (get_applied_versions s) ms) s')
      r = apply_all-Applied (pending (get_applied_versions s) ms) s' refl

  pub run_discovered-Ran :
      (ms : List Migration) (s : Server S) → Ran ms s (run_discovered execute ms s)
  run_discovered-Ran [] s = record {
    completed = [];
    rest = [];
    split = refl;
    recorded = sym (append-nil _);
    replayed = refl;
    answer = inl (refl, refl);
  }
  run_discovered-Ran (m ∷ ms) s = record {
    completed = r.completed;
    rest = r.rest;
    split = r.split;
    recorded = r.recorded;
    replayed = r.replayed;
    answer = r.answer;
  }
    where
      r :
          Ran
            (m ∷ ms)
            (record s { locked = true })
            (run_pending execute (m ∷ ms) (record s { locked = true }))
      r = run_pending-Ran (m ∷ ms) (record s { locked = true })

module _ {S : Type 0} (execute : String → S → Result S) (is_decimal : ℕ → Bool)
    (dir : Option (List Entry)) (s : Server S) where
  abbrev pub run : Result ℕ × Server S
  run = run_migrations execute is_decimal dir s
