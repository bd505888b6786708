-- ===== src/Migrations/Again.antt =====
-- A second run of src/migrate.py, after one that returned.
use mathlib.Core.Path.{fun_ext, subst}
use mathlib.Core.List.{append-nil, map-append}
use no8s_operator.Base.{
  ℕ, String, Bool, true, false, ◌||◌, ◌≡◌, inl, inr, refl, sym, ap, ◌∙◌, arith, some, List, [], ◌∷◌,
  ◌++◌, map, string_eq, contains, Bool-cases, Option, All,
}
use no8s_operator.Base.Assoc.{keys}
use no8s_operator.Base.Result.{Result, ok, err}
use no8s_operator.Migrations.{
  Entry, Migration, Server, discover_migrations, recorded_rows, is_recorded, pending, as_row,
  ensure_migration_table, get_applied_versions, apply_all, run_todo, run_pending, run_discovered,
  run_migrations,
}
use no8s_operator.Migrations.Runs.{Ran, run_discovered-Ran, run, run_pending_table}

contains-append :
    (xs ys : List String) (a : String) → contains (xs ++ ys) a ≡ (contains xs a || contains ys a)
contains-append [] ys a = refl
contains-append (x ∷ xs) ys a = ground (arith, contains-append xs ys a)

abbrev AllRecorded : List String → List Migration → Type 0
AllRecorded v = All (λ m. is_recorded v m ≡ true)

AllRecorded-append :
    (v w : List String) (ms : List Migration) → AllRecorded w ms → AllRecorded (v ++ w) ms
AllRecorded-append v w [] h = tt
AllRecorded-append v w (m ∷ ms) h =
    (ground (arith, contains-append v w m.version, h.0), AllRecorded-append v w ms h.1)

AllRecorded-self : (ms : List Migration) → AllRecorded (keys (map as_row ms)) ms
AllRecorded-self [] = tt
AllRecorded-self (m ∷ ms) = (
  ground arith,
  AllRecorded-append (m.version ∷ []) (keys (map as_row ms)) ms (AllRecorded-self ms),
)

-- What is pending and then recorded, and what was recorded before, is all there is.
AllRecorded-pending :
    (v w : List String) (ms : List Migration)
    → AllRecorded (v ++ w) (pending v ms)
    → AllRecorded (v ++ w) ms
AllRecorded-pending v w [] h = tt
AllRecorded-pending v w (m ∷ ms) h = elim (Bool-cases (is_recorded v m)) [
  | inl old ↦
      (ground (arith, contains-append v w m.version), AllRecorded-pending v w ms (rw old at h))
  | inr new ↦
      (let g : AllRecorded (v ++ w) (m ∷ pending v ms) = rw new at h in
        (g.0, AllRecorded-pending v w ms g.1))
]

pending-none : (v : List String) (ms : List Migration) → AllRecorded v ms → pending v ms ≡ []
pending-none v [] h = refl
pending-none v (m ∷ ms) h = rw (h.0) (pending-none v ms h.1)

module _ {S : Type 0} (execute : String → S → Result S) where
  abbrev freed : Result ℕ × Server S → Result ℕ × Server S
  freed (r, t) = (r, record t { locked = false })

  -- With nothing pending a run changes nothing, once the table is there and the lock is free.
  idle :
      (ms : List Migration) (s : Server S)
      → s.locked ≡ false
      → s.schema_migrations ≡ some (recorded_rows s)
      → pending (get_applied_versions s) ms ≡ []
      → run_discovered execute ms s ≡ (ok 0, s)
  unfolding run_pending apply_all
  idle [] s l t p = refl
  idle (m ∷ ms) s l t p =
      ap
        (λ todo.
          freed (run_todo execute todo (ensure_migration_table (record s { locked = true }))))
        p
      ∙ (λ i. (ok 0, record s { locked = sym l i; schema_migrations = sym t i }))

  run_discovered_ready :
      (m : Migration) (ms : List Migration) (s : Server S)
      → let t = (run_discovered execute (m ∷ ms) s).1 in
        (t.locked ≡ false) × (t.schema_migrations ≡ some (recorded_rows t))
  run_discovered_ready m ms s =
      (refl, run_pending_table execute (m ∷ ms) (record s { locked = true }))

  nothing_pending :
      (ms : List Migration) (n : ℕ) (s : Server S) (x : Result ℕ × Server S)
      → Ran execute ms s x
      → x.0 ≡ ok n
      → pending (get_applied_versions x.1) ms ≡ []
  nothing_pending ms n s x r h = elim r.answer [
    | inr (more, (e, f)) ↦ absurd (ground arith)
    | inl (all, q) ↦
        let w : List String = keys (map as_row r.completed) in
        let done : pending (get_applied_versions s) ms ≡ r.completed =
          r.split ∙ ap (λ l. r.completed ++ l) all ∙ append-nil r.completed in
        let versions : get_applied_versions x.1 ≡ get_applied_versions s ++ w =
          ap keys r.recorded ∙ map-append _ (recorded_rows s) (map as_row r.completed) in
        let here : AllRecorded (get_applied_versions s ++ w) r.completed =
          AllRecorded-append (get_applied_versions s) w r.completed
            (AllRecorded-self r.completed) in
        rw versions
          (pending-none _ ms (AllRecorded-pending (get_applied_versions s) w ms (rw done here)))
  ]

  discovered_again :
      (ms : List Migration) (n : ℕ) (s : Server S)
      → (run_discovered execute ms s).0 ≡ ok n
      → run_discovered execute ms (run_discovered execute ms s).1
        ≡ (ok 0, (run_discovered execute ms s).1)
  discovered_again [] n s h = refl
  discovered_again (m ∷ ms) n s h =
      let t : Server S = (run_discovered execute (m ∷ ms) s).1 in
      let ready : (t.locked ≡ false) × (t.schema_migrations ≡ some (recorded_rows t)) =
        run_discovered_ready m ms s in
      idle (m ∷ ms) t ready.0 ready.1
        (nothing_pending (m ∷ ms) n s _ (run_discovered-Ran execute (m ∷ ms) s) h)

module _ {S : Type 0} (execute : String → S → Result S) (is_decimal : ℕ → Bool)
    (dir : Option (List Entry)) (s : Server S) where
  abbrev pub first : Result ℕ × Server S
  first = run execute is_decimal dir s

  -- The run after one that returned applies no migration: it returns zero and leaves the server as
  -- it is.
  pub second_run_applies_none :
      (n : ℕ) → first.0 ≡ ok n → run execute is_decimal dir first.1 ≡ (ok 0, first.1)
  unfolding run_migrations
  second_run_applies_none n = go (discover_migrations is_decimal dir) refl
    where
      go :
          (d : Result (List Migration))
          → discover_migrations is_decimal dir ≡ d
          → first.0 ≡ ok n
          → run execute is_decimal dir first.1 ≡ (ok 0, first.1)
      go (err e) q = rw (q, run_migrations) (λ h. absurd (ground arith))
      go (ok ms) q =
          let same : run_discovered execute ms ≡ run_migrations execute is_decimal dir =
            fun_ext (λ t. rw (q, run_migrations) refl) in
          subst (λ f. (f s).0 ≡ ok n → f (f s).1 ≡ (ok 0, (f s).1)) same
            (discovered_again execute ms n s)
