-- ===== src/Api/HandlerExamples.antt =====
-- The theorems on POST and DELETE of src/plugins/inputs/http/api.py, for a type that a reconciler claims.
use no8s_operator.Base.{
  String, ◌≡◌, ◌≢◌, refl, true, false, none, some, [], ◌∷◌, ◌++◌, arith, string_eq, nat_eq,
}
use no8s_operator.Base.Assoc.{lookup, has}
use no8s_operator.Base.Result.{Result, ok, err, http}
use no8s_operator.Base.Sort.{sort}
use no8s_operator.Json.{Fields, field, str, end}
use no8s_operator.Db.Rows.{status_eq, Database, Resource, ResourceType, empty}
use no8s_operator.Db.Resources.{get_resource, name_taken, create_resource, new_resource}
use no8s_operator.Db.ResourceTypes.{get_resource_type_by_name_version}
use no8s_operator.Db.Webhooks.{get_matching_webhooks}
use no8s_operator.Db.Invariant.{IsValid}
use no8s_operator.Admission.{run, run_mutating, run_validating}
use no8s_operator.Auth.{check_resource_permission}
use no8s_operator.Plugins.Registry.{
  Registry, empty_registry, has_reconciler_for_resource_type, get_reconciler_for_resource_type,
  get_reconciler_plugin,
}
use no8s_operator.Api.{HttpInputPlugin, World, validate_spec_against_schema}
use no8s_operator.Api.Create.{
  ResourceCreate, check_handler, build_finalizers, announce, write_create, check_create,
  post_resource,
}
use no8s_operator.Api.Delete.{write_delete, check_delete, delete_handler}
use no8s_operator.Api.Created.{inserted_row, posted, IsHandler, post_creates}
use no8s_operator.Api.Refusals.{posted_answer, deleted_answer, refused_post_and_delete}
use no8s_operator.Api.Deleted.{delete_of}
use no8s_operator.Db.ResourceTypes.{create_resource_type, delete_resource_type, get_resource_type}
use no8s_operator.Db.ResourceTypes.References.{References}
use no8s_operator.Api.Serving.{
  Serving, post, accept, with_db, written, write, NoPostOf, Reach, here, next, checks_post, writes,
  deletes_type,
}
use no8s_operator.Api.References.{Reach-References}
use no8s_operator.Api.Examples.{endpoint, no_errors, text, hash, ann, resource}

-- No callback is set.
abbrev quiet : HttpInputPlugin
quiet = record {
  db_manager = true;
  admission_chain = true;
  event_bus = true;
  on_resource_event = none;
}

abbrev registry : Registry
registry = record empty_registry {
  reconciler_plugins =
      ("db", record { name = "db"; resource_types = "Cluster" ∷ []; raises = none }) ∷ [];
  resource_type_to_reconciler = ("Cluster", "db") ∷ [];
}

abbrev cluster_type : ResourceType
cluster_type = record {
  id = 1;
  name = "Cluster";
  version = "v1";
  schema = end;
  description = none;
  status = "active";
  metadata = end;
  updated_at = 0;
}

abbrev world : World
world = record {
  db = record empty { resource_types = cluster_type ∷ [] };
  bus = record { queue_size = 256; subscribers = []; unsubscribed = [] };
  registry = registry;
}

abbrev wanted : Fields
wanted = field "size" (str "3") end

abbrev request : ResourceCreate
request = record {
  name = "db-1";
  resource_type_name = "Cluster";
  resource_type_version = "v1";
  action_plugin = none;
  spec = some wanted;
  plugin_config = none;
  metadata = none;
}

abbrev posted_row : Resource
posted_row = inserted_row hash 9 request wanted world.db ("db" ∷ [])

abbrev answer : Result Resource × World
answer = posted endpoint no_errors quiet text hash "t" 9 ann request world

post_test : answer.0 ≡ ok posted_row
unfolding post_resource check_create check_handler build_finalizers write_create announce
    create_resource new_resource get_resource check_resource_permission
    get_resource_type_by_name_version validate_spec_against_schema run run_mutating run_validating
    get_matching_webhooks sort has_reconciler_for_resource_type get_reconciler_for_resource_type
    get_reconciler_plugin lookup has nat_eq string_eq
post_test = refl

world-IsValid : IsValid world.db
world-IsValid = record { unique = tt; below = tt; rows = tt; refers = tt }

post_creates_example :
    (spec : Fields) × (f : String) × (check_create endpoint no_errors quiet ann request
        world.registry world.db
      ≡ ok spec)
    × (name_taken request.name world.db ≡ false)
    × (posted_row ≡ inserted_row hash 9 request spec world.db (f ∷ []))
    × (answer.1.db.resources ≡ world.db.resources ++ posted_row ∷ [])
    × IsHandler request registry f
post_creates_example =
    post_creates endpoint no_errors quiet text hash "t" 9 ann request world posted_row world-IsValid
      post_test

-- No reconciler claims the type.
abbrev unclaimed : World
unclaimed = record world { registry = empty_registry }

refused_delete_test :
    (deleted_answer endpoint no_errors quiet text hash "t" 9 ann unclaimed 5).0
    ≡ err (http 404 "Resource not found")
unfolding delete_handler check_delete get_resource nat_eq
refused_delete_test = refl

refused_post_test :
    (posted_answer endpoint no_errors quiet text hash "t" 9 ann unclaimed request).0
    ≡ err (http 400 "No reconciler plugin registered")
unfolding post_resource check_create check_handler check_resource_permission
    has_reconciler_for_resource_type lookup has string_eq
refused_post_test = refl

refused_post_and_delete_example :
    ((posted_answer endpoint no_errors quiet text hash "t" 9 ann unclaimed request).1 ≡ unclaimed)
    × ((deleted_answer endpoint no_errors quiet text hash "t" 9 ann unclaimed 5).1 ≡ unclaimed)
refused_post_and_delete_example =
    refused_post_and_delete endpoint no_errors quiet text hash "t" 9 ann unclaimed request 5 400 404
      "No reconciler plugin registered" "Resource not found" (λ e. ground arith) (λ e. ground arith)
      refused_post_test refused_delete_test

abbrev stored : World
stored = record world { db = record world.db { resources = resource ∷ []; next_resource_id = 2 } }

delete_test : (delete_of endpoint no_errors quiet text "t" 9 ann 1 stored).0 ≡ ok 1
unfolding delete_handler check_delete write_delete get_resource check_resource_permission run
    run_mutating run_validating get_matching_webhooks sort nat_eq string_eq
delete_test = refl

-- A type is created, and a POST of it passes its checks.
abbrev with_type : Serving
with_type =
    with_db (create_resource_type 1 "Cluster" "v1" end none none empty).1
      record { world = record world { db = empty }; accepted = λ k. none }

request_passes :
    check_create endpoint no_errors quiet ann request with_type.world.registry with_type.world.db
    ≡ ok wanted
unfolding create_resource_type check_create check_handler check_resource_permission
    get_resource_type_by_name_version validate_spec_against_schema run run_mutating run_validating
    get_matching_webhooks sort has_reconciler_for_resource_type lookup has string_eq
request_passes = refl

abbrev request_accepted : Serving
request_accepted = accept 1 (post request wanted) with_type

abbrev request_written : Serving
request_written = written quiet hash 1 "t" 2 (post request wanted) request_accepted

none_waits : NoPostOf 1 request_written
unfolding nat_eq
none_waits k a t e found = absurd (ground (arith, e))

abbrev type_tried : Serving
type_tried = with_db (delete_resource_type 1 request_written.world.db).1 request_written

requests_served : Reach endpoint no_errors quiet hash with_type type_tried
requests_served =
    next
      (next (next here (checks_post 1 ann request wanted request_passes))
        (writes 1 "t" 2 (post request wanted) (ground arith)))
      (deletes_type 1 none_waits)

-- The type stays, since a resource refers to it.
kept_test : type_tried.world.db.resource_types ≢ []
unfolding write create_resource_type delete_resource_type get_resource_type build_finalizers
    write_create announce create_resource new_resource get_resource has_reconciler_for_resource_type
    get_reconciler_for_resource_type get_reconciler_plugin lookup has nat_eq string_eq
kept_test = λ e. ground arith

-- Between the checks of the POST and its write it does not.
abbrev raced : Database
raced =
    (write quiet hash "t" 2 (post request wanted)
      (with_db (delete_resource_type 1 request_accepted.world.db).1 request_accepted).world).db

raced_test : (raced.resource_types ≡ []) × (raced.resources ≢ [])
unfolding write create_resource_type delete_resource_type get_resource_type build_finalizers
    write_create announce create_resource new_resource get_resource has_reconciler_for_resource_type
    get_reconciler_for_resource_type get_reconciler_plugin lookup has nat_eq string_eq
raced_test = (refl, λ e. ground arith)

one_type : References with_type.world.db
unfolding create_resource_type
one_type = record { ids = (refl, tt); below = (omega arith, tt); typed = tt }

Reach-References_example : References type_tried.world.db
Reach-References_example = Reach-References one_type (λ k. refl) requests_served
