-- ===== src/Db/Nodes.antt =====
-- The methods of src/db.py on the table `cluster_nodes`.
use no8s_operator.Base.{
  ℕ, String, Bool, none, some, List, [], ◌∷◌, ◌++◌, ◌==◌, string_eq, leb, find, update_where,
  delete_where,
}
use no8s_operator.Base.Result.{Action, ok, modify}
use no8s_operator.Base.Sort.{sort}
use no8s_operator.Db.Rows.{Node, Database}

abbrev pub has_node_id : String → Node → Bool
has_node_id i n = n.node_id == i

-- The upsert keeps the host name, the process and the first registration of a known node.
unfoldable pub register_node : ℕ → String → String → String → ℕ → Action Database (Unit {0})
register_node now node_id hostname pid lease db = elim (find (has_node_id node_id) db.nodes) [
  | none ↦ (
    ok tt,
    record db {
      nodes =
          db.nodes
          ++ record {
            node_id = node_id;
            hostname = hostname;
            pid = pid;
            first_seen = now;
            last_heartbeat = now;
            lease_duration_seconds = lease;
          }
            ∷ [];
    },
  )
  | some known ↦ (
    ok tt,
    record db {
      nodes =
          update_where (has_node_id node_id)
            (λ n. record n { last_heartbeat = now; lease_duration_seconds = lease }) db.nodes;
    },
  )
]

unfoldable pub deregister_node : String → Action Database (Unit {0})
deregister_node node_id =
    modify (λ db. record db { nodes = delete_where (has_node_id node_id) db.nodes })

first_registered : Node → Node → Bool
first_registered a b = leb a.first_seen b.first_seen

unfoldable pub get_cluster_nodes : Database → List Node
unfolding first_registered
get_cluster_nodes db = sort first_registered db.nodes
