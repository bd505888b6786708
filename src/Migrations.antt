-- ===== src/Migrations.antt =====
-- src/migrate.py: which files of src/migrations are migrations, which of them a run applies, and what
-- is recorded in the table `schema_migrations`.
pub mod Runs
pub mod Again
mod Examples
use Prim.Native.Char.{code}
use no8s_operator.Base.{
  ℕ, String, Bool, true, false, not, ◌&&◌, ◌||◌, Option, none, some, List, [], ◌∷◌, ◌++◌, map, ◌==◌,
  if◌then◌else◌, nat_eq, string_eq, ltb, contains, filter, any, length,
}
use no8s_operator.Base.Assoc.{Dict, keys}
use no8s_operator.Base.Result.{
  Result, Action, ok, err, ◌>>◌, modify, external, unique_violation, value_error,
}
use no8s_operator.Base.Sort.{sort}

-- What `iterdir` yields; `content` is what `read_text` returns or raises.
pub record Entry : Type 0 where
  pub name : String
  pub is_file : Bool
  pub content : Result String

pub record Migration : Type 0 where
  pub version : String
  pub filename : String
  pub content : Result String

-- Names are compared character by character.
abbrev pub name_le : String → String → Bool
name_le String.[] t = true
name_le (String.◌∷◌ c s) String.[] = false
name_le (String.◌∷◌ c s) (String.◌∷◌ d t) =
    let rest = name_le s t in
    if ltb (code c) (code d) then true else if ltb (code d) (code c) then false else rest

abbrev pub entry_le : Entry → Entry → Bool
entry_le a b = name_le a.name b.name

-- `.+\.sql$`: the dot takes no line feed, and `$` also stands before a last one.
abbrev pub ends_in_sql : String → Bool
ends_in_sql String.[] = false
ends_in_sql (String.◌∷◌ c s) = not (code c == 10) && (s == ".sql" || s == ".sql\n" || ends_in_sql s)

-- The server: the schema that the migrations build, the rows (version, file name) of
-- `schema_migrations` once that table exists, and whether the advisory lock is held.
pub record Server (Schema : Type 0) : Type 0 where
  pub schema : Schema
  pub schema_migrations : Option (Dict String String)
  pub locked : Bool

-- `\d` is any decimal digit of Unicode, which comes with Python's tables.
module _ (is_decimal : ℕ → Bool) where
  -- `MIGRATION_PATTERN.match(name).group(1)`
  unfoldable pub version_of : String → Option String
  version_of (String.◌∷◌ a (String.◌∷◌ b (String.◌∷◌ c (String.◌∷◌ u rest)))) =
      if is_decimal (code a)
        && is_decimal (code b)
        && is_decimal (code c)
        && code u == 95
        && ends_in_sql rest
      then some (String.◌∷◌ a (String.◌∷◌ b (String.◌∷◌ c "")))
      else none
  version_of _ = none

  abbrev pub migration : Entry → List Migration
  migration e = elim (version_of e.name) [
    | none ↦ []
    | some v ↦
        if e.is_file
        then record { version = v; filename = e.name; content = e.content } ∷ []
        else []
  ]

  abbrev pub migrations : List Entry → List Migration
  migrations [] = []
  migrations (e ∷ es) = migration e ++ migrations es

  -- `none` is a directory that is not there.
  unfoldable pub discover_migrations : Option (List Entry) → Result (List Migration)
  discover_migrations none = err (external "Migrations directory not found")
  discover_migrations (some entries) = ok (migrations (sort entry_le entries))

abbrev pub recorded_rows : {S : Type 0} → Server S → Dict String String
recorded_rows s = elim s.schema_migrations [ none ↦ [] | some rows ↦ rows ]

abbrev pub is_recorded : List String → Migration → Bool
is_recorded applied m = contains applied m.version

abbrev pub pending : List String → List Migration → List Migration
pending applied = filter (λ m. not (is_recorded applied m))

abbrev pub as_row : Migration → String × String
as_row m = (m.version, m.filename)

-- `ensure_migration_table`
abbrev pub ensure_migration_table : {S : Type 0} → Server S → Server S
ensure_migration_table s = record s { schema_migrations = some (recorded_rows s) }

abbrev pub get_applied_versions : {S : Type 0} → Server S → List String
get_applied_versions s = keys (recorded_rows s)

module _ {S : Type 0} (execute : String → S → Result S) where
  -- One transaction: an error of either statement undoes both.
  unfoldable pub apply_migration : Migration → Action (Server S) (Unit {0})
  apply_migration m s = elim m.content [
    | err e ↦ (err e, s)
    | ok sql ↦ elim (execute sql s.schema) [
      | err e ↦ (err e, s)
      | ok schema ↦
          if is_recorded (get_applied_versions s) m
          then (err (unique_violation "schema_migrations_version_key"), s)
          else (
            ok tt,
            record s {
              schema = schema;
              schema_migrations = some (recorded_rows s ++ as_row m ∷ []);
            },
          )
    ]
  ]

  unfoldable pub apply_all : List Migration → Action (Server S) (Unit {0})
  apply_all [] s = (ok tt, s)
  apply_all (m ∷ ms) s = (apply_migration m >> apply_all ms) s

  abbrev pub run_todo : List Migration → Action (Server S) ℕ
  run_todo todo s =
      let (r, t) = apply_all todo s in
      elim r [ ok done ↦ (ok (length todo), t) | err e ↦ (err e, t) ]

  -- What the lock guards; the applied versions are read under it.
  unfoldable pub run_pending : List Migration → Action (Server S) ℕ
  run_pending ms s =
      let s' = ensure_migration_table s in run_todo (pending (get_applied_versions s') ms) s'

  -- `pg_advisory_lock`, and `finally: pg_advisory_unlock`.
  abbrev pub under_lock : {A : Type 0} → Action (Server S) A → Action (Server S) A
  under_lock body s =
      let (r, t) = body (record s { locked = true }) in (r, record t { locked = false })

  abbrev pub run_discovered : List Migration → Action (Server S) ℕ
  run_discovered [] s = (ok 0, s)
  run_discovered (m ∷ ms) s = under_lock (run_pending (m ∷ ms)) s

  unfoldable pub run_migrations : (ℕ → Bool) → Option (List Entry) → Action (Server S) ℕ
  run_migrations is_decimal dir s = elim (discover_migrations is_decimal dir) [
    | err e ↦ (err e, s)
    | ok ms ↦ run_discovered ms s
  ]
