-- ===== src/ClusterStatus/Report.antt =====
-- What the answer of /api/v1/cluster/nodes says of the lock and of the nodes.
use mathlib.Core.Option.{some-injective}
use no8s_operator.Base.{
  ℕ, ◌<◌, ◌≡◌, ◌≢◌, ◌↔◌, inl, inr, sym, ap, ◌∙◌, arith, String, Bool, true, false, Option, none,
  some, List, [], ◌∷◌, map, option_eq, string_eq, ltb, Option-cases, All,
}
use no8s_operator.Base.Result.{ok, ok-injective, returned-and_then}
use no8s_operator.Db.Rows.{Lock, Node, Database}
use no8s_operator.Db.Locks.{lock_of, expires, acquire_or_renew_lock, get_leader_lock_info}
use no8s_operator.Db.Nodes.{get_cluster_nodes}
use no8s_operator.Auth.{Claims, require_admin}
use no8s_operator.LeaderElection.{Config, Instance}
use no8s_operator.ClusterStatus.{
  NodeInfo, ClusterNodesResponse, leader, leader_info, valid_holder, node_info, LeaderInfo,
  or_empty, query, cluster_nodes,
}

-- A lock row that has not run out.
abbrev pub HeldBy : ℕ → Option Lock → String → Type 0
HeldBy now none i = ⊥
HeldBy now (some l) i = (now < expires l) × (l.holder_id ≡ i)

holder_iff :
    (now : ℕ) (o : Option Lock) (i : String)
    → (some i ≡ valid_holder (elim o [ none ↦ none | some l ↦ some (leader_info now l) ]))
      ↔ HeldBy now o i
unfolding leader_info
holder_iff now none i = (λ e. absurd (ground arith), λ h. absurd h)
holder_iff now (some l) i = (λ e. ground arith, λ h. ground arith)

role_iff :
    (now : ℕ) (leader_id : Option String) (n : Node)
    → ((node_info now leader_id n).role ≡ leader) ↔ (some n.node_id ≡ leader_id)
unfolding node_info
role_iff now leader_id n = (λ e. ground arith, λ e. ground arith)

module _ (now : ℕ) (db : Database) (key : String) where
  holder : Option String
  holder = valid_holder (elim (lock_of key db) [ none ↦ none | some l ↦ some (leader_info now l) ])

  RoleIsRight : NodeInfo → Type 0
  RoleIsRight n = (n.role ≡ leader) ↔ HeldBy now (lock_of key db) n.node_id

  roles_are_right : (ns : List Node) → All RoleIsRight (map (node_info now holder) ns)
  unfolding RoleIsRight node_info holder
  roles_are_right [] = tt
  roles_are_right (n ∷ ns) =
      let (a, b) = role_iff now holder n in
      let (c, d) = holder_iff now (lock_of key db) n.node_id in
      ((λ e. c (a e), λ h. b (d h)), roles_are_right ns)

module _ (now : ℕ) (nodes_connected : Bool) (user : Claims) (c : Config) (s : Instance)
    (db : Database) (r : ClusterNodesResponse) where
  abbrev pub Answered : Type 0
  Answered = cluster_nodes now true nodes_connected user c s db ≡ ok r

  answered_with :
      Answered
      → (r.leader_lock
          ≡ elim (lock_of c.lock_name db) [ none ↦ none | some l ↦ some (leader_info now l) ])
        × (r.nodes
            ≡ map
                (node_info now (holder now db c.lock_name))
                (or_empty (query nodes_connected (get_cluster_nodes db))))
  unfolding cluster_nodes get_leader_lock_info holder
  answered_with h =
      let (a, p, q) = returned-and_then (require_admin user) _ r h in
      (ap (λ x. x.leader_lock) (sym (ok-injective q)), ap (λ x. x.nodes) (sym (ok-injective q)))

  -- When the query for the lock gets through, a node of the answer is reported as the leader exactly
  -- if the lock is held under its name and has not run out.
  pub reported_leader_iff :
      Answered
      → All (λ n. (n.role ≡ leader) ↔ HeldBy now (lock_of c.lock_name db) n.node_id) r.nodes
  unfolding RoleIsRight
  reported_leader_iff h =
      let (_, q) = answered_with h in
      rw q (
        roles_are_right now db c.lock_name
          (or_empty (query nodes_connected (get_cluster_nodes db))))

  -- While the answer shows the lock as valid, no instance but the holder that it names takes the lock
  -- at that instant: it is refused, and nothing is changed.
  pub valid_lock_is_refused :
      (l : LeaderInfo) (other : String) (lease : ℕ)
      → Answered
      → r.leader_lock ≡ some l
      → l.is_valid ≡ true
      → other ≢ l.holder_id
      → acquire_or_renew_lock now c.lock_name other lease db ≡ (ok false, db)
  unfolding leader_info acquire_or_renew_lock
  valid_lock_is_refused l other lease h e v d = elim (Option-cases (lock_of c.lock_name db)) [
    | inl free ↦
        let shown : r.leader_lock ≡ none = rw free at (answered_with h).0 in absurd (ground arith)
    | inr (k, found) ↦
        let shown : r.leader_lock ≡ some (leader_info now k) = rw found at (answered_with h).0 in
        let same : leader_info now k ≡ l = some-injective _ _ (sym shown ∙ e) in
        let late : ltb now (expires k) ≡ true = ap (λ x. x.is_valid) same ∙ v in
        let mine : k.holder_id ≡ l.holder_id = ap (λ x. x.holder_id) same in
        rw (found, acquire_or_renew_lock) (ground arith)
  ]
