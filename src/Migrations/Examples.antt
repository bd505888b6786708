-- ===== src/Migrations/Examples.antt =====
-- Runs of src/migrate.py on small directories; the schema is the list of executed statements.
use no8s_operator.Base.{
  ℕ, String, Bool, ◌≡◌, refl, true, false, ◌&&◌, Option, none, some, List, [], ◌∷◌, ◌++◌, leb,
  nat_eq, string_eq,
}
use no8s_operator.Base.Result.{Result, ok, err, unique_violation}
use no8s_operator.Base.Sort.{sort}
use no8s_operator.Migrations.{
  Entry, Migration, Server, version_of, discover_migrations, apply_migration, apply_all,
  run_pending, run_migrations,
}
use no8s_operator.Migrations.Runs.{run}
use no8s_operator.Migrations.Again.{first, second_run_applies_none}

abbrev ascii_digit : ℕ → Bool
ascii_digit c = leb 48 c && leb c 57

abbrev execute : String → List String → Result (List String)
execute sql schema = ok (schema ++ sql ∷ [])

abbrev file : String → String → Entry
file name sql = record { name = name; is_file = true; content = ok sql }

abbrev dir : Option (List Entry)
dir =
    some (
      file "002_nodes.sql" "nodes"
      ∷ file "notes.txt" "text"
      ∷ file "001_initial.sql" "initial"
      ∷ [])

abbrev server : Server (List String)
server = record { schema = []; schema_migrations = none; locked = false }

abbrev two : List Migration
two =
    record { version = "001"; filename = "001_initial.sql"; content = ok "initial" }
    ∷ record { version = "002"; filename = "002_nodes.sql"; content = ok "nodes" }
    ∷ []

run_test : run execute ascii_digit dir server ≡ (
  ok 2,
  record {
    schema = "initial" ∷ "nodes" ∷ [];
    schema_migrations = some (("001", "001_initial.sql") ∷ ("002", "002_nodes.sql") ∷ []);
    locked = false;
  },
)
unfolding run_migrations discover_migrations version_of sort run_pending apply_all apply_migration
    string_eq nat_eq
run_test = refl

returned_test : (first execute ascii_digit dir server).0 ≡ ok 2
unfolding run_migrations discover_migrations version_of sort run_pending apply_all apply_migration
    string_eq nat_eq
returned_test = refl

-- Of two files with one version the second fails in the first run.
twins_test :
    run execute ascii_digit (some (file "001_a.sql" "a" ∷ file "001_b.sql" "b" ∷ [])) server ≡ (
      err (unique_violation "schema_migrations_version_key"),
      record {
        schema = "a" ∷ [];
        schema_migrations = some (("001", "001_a.sql") ∷ []);
        locked = false;
      },
    )
unfolding run_migrations discover_migrations version_of sort run_pending apply_all apply_migration
    string_eq nat_eq
twins_test = refl

second_run_applies_none_example :
    run execute ascii_digit dir (first execute ascii_digit dir server).1
    ≡ (ok 0, (first execute ascii_digit dir server).1)
second_run_applies_none_example =
    second_run_applies_none execute ascii_digit dir server 2 returned_test
