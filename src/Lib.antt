-- ===== src/Lib.antt =====
-- A model of no8s-operator, an operator in the manner of Kubernetes: an API stores resources in
-- PostgreSQL, a controller reconciles each of them by an action plugin, webhooks check requests, a
-- bus streams events, and of several instances the one that holds a lock runs the controller.
--
-- Parts and files
--   Base, Json     Python's lists, dicts, comparisons and exceptions, and JSON values.
--   Db             src/db.py. Rows has the tables of src/migrations/001_initial_schema.sql as lists of
--                  rows; Resources, Finalizers, Conditions, Queue, Locks, Nodes, Webhooks, Roles, Users
--                  and ResourceTypes have the methods of DatabaseManager under their names. Calls has
--                  every method that writes resources or their history as a value, and Invariant what
--                  these keep.
--   LeaderElection src/leader_election.py: a round of the loop of `run`, `stop`, and (in Steps, Leases
--                  and Cluster) any number of instances on one database, await by await.
--   Plugins        src/plugins/base.py, src/plugins/actions/base.py, src/plugins/registry.py.
--   Controller     src/controller.py: `_execute_reconciliation` in Execution, `_reconcile_resource` in
--                  Reconcile, the loops in Passes, `_run_reconciler` in Loops; a reconciliation reads
--                  and writes the World.
--   Admission      src/admission.py: patches, one webhook, the chain.
--   Auth           src/auth.py: the claims of a token and the two permission checks.
--   LdapSync       src/ldap_sync.py: the search result and the synchronisation of the users.
--   Api            src/plugins/inputs/http/api.py: the handlers of POST (Create), PUT (Api itself) and
--                  DELETE (Delete), with src/validation.py, src/plugins/inputs/base.py and the
--                  callback of src/main.py. Serving has the requests that change resources and
--                  resource types as steps of one system, and References what these keep.
--   Management     src/management_api.py: the handlers of the router by their groups.
--   Requests       src/api_models.py: the validators of the requests.
--   ClusterStatus  src/cluster_status.py: health, nodes and the leader, and the format of ages.
--   Reconcilers    src/plugins/reconcilers/base.py: ReconcilerContext and the loop of BaseReconciler.
--   Migrations     src/migrate.py: which files run, and the table schema_migrations.
--   Events         src/events.py: the bus and the reading end of a subscription.
-- The API and the reconcilers reach resources only by the methods of src/db.py, so that a list of
-- calls is what they all do to the tables, in the order in which the database runs it. The leader
-- election decides which instance starts a controller; the controller selects rows by Db.Queue, calls
-- a plugin of the registry, and writes the outcome by Db; the bus carries RECONCILED events.
--
-- How the code is read
--   A method of the database is one transaction: an action on the tables that returns or raises. What
--   was written before a raise stays written. update_resource and set_condition read and then write in
--   two statements of the code, and delete_resource_type reads, counts and deletes in three; here
--   nothing comes between them. A foreign key from resources to their types does not exist.
--   The handlers of the API check and then write, and await the database and the webhooks in between.
--   As a function a handler runs at one go; Api.Serving takes its checks and its write as two steps
--   between which other requests run, and asks that no type is deleted between those of a POST.
--   A round and a stop of LeaderElection run at one go as functions; LeaderElection.Steps has their
--   awaits as single steps in any order, so that a stop may come while a round awaits an answer.
--   In a reconciliation the statements of the controller itself do not fail, and others write only
--   while a method of the plugin runs: an error of the database in the except clause and a write
--   between two statements of the controller are left out. The methods of the plugin may raise and
--   change the database at will.
--   The constructor of a reconciler may raise when its instance is made (`raises`); the classes of the
--   other plugins are functions that may.
--   NOW() is an argument, in microseconds. A draw of random() is an argument in ten-thousandths, and a
--   jitter factor is in hundredths. A SERIAL counter advances also where the insert then fails.
--   uuid4 and the digest of a spec are arguments. A plugin is a record of functions that may change the
--   database, since others write while it runs; an endpoint and the text of an exception are
--   functions too. A reconciliation has one time for all that it writes at its end.
--   A link to the database either works, loses the request or loses the answer (LeaderElection).
--   All loops of the code that end are structural recursion; the endless ones are given by their
--   rounds, and no fuel is needed.
--
-- Not modelled
--   Cancellation of tasks, the semaphore and the loops' sleeps; log output; the text of server-sent
--   events; the responses of src/api_models.py; the GitHub Actions plugin, a
--   client of the GitHub API; bcrypt, the signature of tokens and the LDAP protocol, which are
--   third-party. src/plugins/secrets/ only calls third-party packages; src/config.py and the rest of
--   src/main.py read the environment and start the parts.
pub mod Base
pub mod Json
pub mod Db
pub mod LeaderElection
pub mod Plugins
pub mod Controller
pub mod Admission
pub mod Events
pub mod Auth
pub mod LdapSync
pub mod Api
pub mod Migrations
pub mod ClusterStatus
pub mod Reconcilers
pub mod Management
pub mod Requests
