-- ===== src/Api/Serving.antt =====
-- The requests of src/plugins/inputs/http/api.py on resources, whose checks and writes come apart, and
-- the methods of src/db.py by which an admin changes resource types, in any order.
use no8s_operator.Base.{
  ℕ, ◌≡◌, String, Bool, false, Option, none, some, List, ◌==◌, if◌then◌else◌, nat_eq, string_eq,
}
use no8s_operator.Base.Result.{Result, ok}
use no8s_operator.Json as Values
use no8s_operator.Json.{Fields}
use no8s_operator.Db.Rows.{Resource, ResourceType, Webhook, Database}
use no8s_operator.Db.ResourceTypes.{
  named_version, get_resource_type, create_resource_type, update_resource_type,
  delete_resource_type,
}
use no8s_operator.Admission.{AdmissionRequest}
use no8s_operator.Auth.{Claims}
use no8s_operator.Api.{HttpInputPlugin, World, check_update, write_update}
use no8s_operator.Api.Create.{ResourceCreate, check_create, write_create}
use no8s_operator.Api.Delete.{check_delete, write_delete}

-- A request whose checks have passed, with what they returned.
pub data Accepted : Type 0 where
  post : (resource : ResourceCreate) (spec : Fields) → Accepted
  put : (id : ℕ) (spec plugin_config : Option Fields) → Accepted
  delete : (id : ℕ) (resource : Resource) → Accepted

-- The requests that are accepted and have not written, by a number that each has.
pub record Serving : Type 0 where
  pub world : World
  pub accepted : ℕ → Option Accepted

abbrev pub set : ℕ → Option Accepted → (ℕ → Option Accepted) → ℕ → Option Accepted
set k a f j = if j == k then a else f j

abbrev pub accept : ℕ → Accepted → Serving → Serving
accept k a s = record s { accepted = set k (some a) s.accepted }

abbrev pub with_db : Database → Serving → Serving
with_db db s = record s { world = record s.world { db = db } }

-- An accepted POST of the type.
abbrev pub posts_type : ResourceType → Accepted → Bool
posts_type t (post resource spec) =
    named_version resource.resource_type_name resource.resource_type_version t
posts_type t (put i spec plugin_config) = false
posts_type t (delete i r) = false

-- No POST of the type with this id stands between its checks and its write.
abbrev pub NoPostOf : ℕ → Serving → Type 0
NoPostOf i s =
    (k : ℕ) (a : Accepted) (t : ResourceType)
    → s.accepted k ≡ some a
    → get_resource_type i s.world.db ≡ some t
    → posts_type t a ≡ false

module _ (plugin : HttpInputPlugin) (hash : Fields → String) where
  -- What follows the checks of the three handlers, with the time stamp of its event.
  unfoldable pub write : String → ℕ → Accepted → World → World
  write timestamp now (post resource spec) w =
      (write_create plugin hash timestamp now resource spec w).1
  write timestamp now (put i spec plugin_config) w =
      (write_update plugin hash timestamp now i spec plugin_config w).1
  write timestamp now (delete i r) w = (write_delete plugin timestamp now i r w).1

  abbrev pub written : ℕ → String → ℕ → Accepted → Serving → Serving
  written k timestamp now a s = record s {
    world = write timestamp now a s.world;
    accepted = set k none s.accepted;
  }

module _ (endpoint : Webhook → AdmissionRequest → Option Values.Value)
    (iter_errors : Fields → Fields → Result (List String)) (plugin : HttpInputPlugin)
    (hash : Fields → String) where
  -- The checks of a request pass, or its write comes, or a method on resource types runs. Requests that
  -- are refused change nothing and are no steps. The statements of `delete_resource_type` run
  -- together, and while no POST of the type stands between its checks and its write.
  pub data Step (s : Serving) : Serving → Type 0 where
    checks_post :
        (k : ℕ) (user : Claims) (resource : ResourceCreate) (spec : Fields)
        → check_create endpoint iter_errors plugin user resource s.world.registry s.world.db
          ≡ ok spec
        → Step s (accept k (post resource spec) s)
    checks_put :
        (k : ℕ) (user : Claims) (i : ℕ) (given spec plugin_config : Option Fields)
        → check_update endpoint iter_errors plugin user i given s.world.db ≡ ok spec
        → Step s (accept k (put i spec plugin_config) s)
    checks_delete :
        (k : ℕ) (user : Claims) (i : ℕ) (r : Resource)
        → check_delete endpoint iter_errors plugin user i s.world.db ≡ ok r
        → Step s (accept k (delete i r) s)
    writes :
        (k : ℕ) (timestamp : String) (now : ℕ) (a : Accepted)
        → s.accepted k ≡ some a
        → Step s (written plugin hash k timestamp now a s)
    creates_type :
        (now : ℕ) (name version : String) (schema : Fields) (description : Option String)
        (metadata : Option Fields)
        → Step s (
            with_db
              (create_resource_type now name version schema description metadata s.world.db).1
              s)
    updates_type :
        (i now : ℕ) (schema : Option Fields) (description status : Option String)
        (metadata : Option Fields)
        → Step s
            (with_db (update_resource_type now i schema description status metadata s.world.db).1 s)
    deletes_type : (i : ℕ) → NoPostOf i s → Step s (with_db (delete_resource_type i s.world.db).1 s)

  pub data Reach (s : Serving) : Serving → Type 0 where
    here : Reach s s
    next : {t u : Serving} → Reach s t → Step t u → Reach s u
