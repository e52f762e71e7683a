-- ===== src/Multipoint/Nodes.antt =====
-- `breakdown_rule` of shared/L2MultipointPolicy.py: a tree between the endpoints, a VLAN for it, and a
-- rule for each of its nodes.
use atlanticwave_proto.Prelude.{
  String, Option, none, some, List, [], ◌∷◌, ◌++◌, ◌==◌, text_equality, if◌then◌else◌,
}
use atlanticwave_proto.Prelude.Lists.{contains, lookup}
use atlanticwave_proto.Prelude.Int.{ℤ, int_eq}
use atlanticwave_proto.Prelude.Action.{
  Action, Result, pure, lift, or_raise, key_error, attribute_error, network_x_error,
  user_policy_error, ◌>>=◌,
}
use atlanticwave_proto.Topology.Graph.{NetworkX}
use atlanticwave_proto.Topology.Manager.{Manager, node_at, edge_at}
use atlanticwave_proto.Topology.Resources.{
  Resource, vlan_tree, vlan_port, bandwidth_tree, bandwidth_port, get_switch_port_neighbor,
}
use atlanticwave_proto.Topology.Find.{find_vlan_on_tree}
use atlanticwave_proto.Topology.Steiner.{find_valid_steiner_tree}
use atlanticwave_proto.Rules.{LcRule, Breakdown}
use atlanticwave_proto.Tunnel.{TunnelEnd}
use atlanticwave_proto.Multipoint.{
  MultipointRule, L2MultipointPolicy, endpoint_lc_rule, flood_lc_rule,
}

-- `nodes`: the switches of the endpoints, each once
unfoldable pub distinct : List String → List TunnelEnd → List String
distinct nodes [] = nodes
distinct nodes (d ∷ endpoints) =
    distinct (if contains nodes d.switch then nodes else nodes ++ d.switch ∷ []) endpoints

-- the ports and VLANs of the endpoints at a node
abbrev pub ends_at : String → List TunnelEnd → List (ℤ × ℤ)
ends_at node [] = []
ends_at node (d ∷ endpoints) =
    let rest = ends_at node endpoints in if d.switch == node then (d.port, d.vlan) ∷ rest else rest

abbrev pub ports_of : List (ℤ × ℤ) → List ℤ
ports_of [] = []
ports_of ((port, vlan) ∷ rest) = port ∷ ports_of rest

-- the connected ports that are no endpoint ports
abbrev pub without_ends : List ℤ → List ℤ → List ℤ
without_ends endpoint_ports [] = []
without_ends endpoint_ports (p ∷ connected_ports) =
    let rest = without_ends endpoint_ports connected_ports in
    if contains endpoint_ports p then rest else p ∷ rest

-- what `breakdown_rule` builds up
pub record Build (N : NetworkX) : Type 0 where
  pub covered_nodes : List String
  pub built : List (Breakdown MultipointRule)
  pub held : List (Resource N)
  pub external : List (String × String × ℤ)

module _ (N : NetworkX) where
  abbrev pub location_of : String → Action (Manager N) (String × ℤ)
  location_of location = do
    v ← node_at N location
    shortname ← or_raise v.locationshortname key_error
    switch_id ← or_raise v.dpid key_error
    pure (shortname, switch_id)

  -- the ports of a node on the edges to these neighbours
  unfoldable pub connected_ports : String → List String → Action (Manager N) (List ℤ)
  connected_ports node [] = pure []
  connected_ports node (neighbor ∷ neighbors) = do
    let rest = connected_ports node neighbors
    e ← edge_at N node neighbor
    port ← or_raise (lookup node e.ports) key_error
    ports ← rest
    pure (port ∷ ports)

  abbrev pub ports_on_tree : N.Graph → String → Action (Manager N) (List ℤ)
  ports_on_tree tree node = do
    neighbors ← or_raise (N.neighbors tree node) network_x_error
    connected_ports node neighbors

  -- the node is covered, by one rule
  abbrev pub with_covered : String → String → LcRule MultipointRule → Build N → Build N
  with_covered node shortname r b = record b {
    covered_nodes = b.covered_nodes ++ node ∷ [];
    built = b.built ++ record { lc = shortname; rules = r ∷ [] } ∷ [];
  }

  -- the entry of `external_endpoints`, where the port has a neighbour
  abbrev pub external_of : TunnelEnd → Option String → List (String × String × ℤ)
  external_of end none = []
  external_of end (some neighbor) = (end.switch, neighbor, end.vlan) ∷ []

  -- the body of the loop over the endpoints
  unfoldable pub endpoint_node :
      L2MultipointPolicy N → ℤ → N.Graph → TunnelEnd → Build N → Action (Manager N) (Build N)
  endpoint_node policy intermediate_vlan tree end b = do
    (shortname, switch_id) ← location_of end.switch
    neighbor ← get_switch_port_neighbor N end.switch end.port
    let endpoint_ports_and_vlans = ends_at end.switch policy.endpoints
    connected ← ports_on_tree tree end.switch
    r ← lift (
        endpoint_lc_rule switch_id (without_ends (ports_of endpoint_ports_and_vlans) connected)
          endpoint_ports_and_vlans intermediate_vlan (some policy.bandwidth))
    pure (
        with_covered end.switch shortname r (record b {
          held =
              b.held
              ++ vlan_port end.switch end.port end.vlan
                ∷ bandwidth_port end.switch end.port policy.bandwidth
                ∷ [];
          external = b.external ++ external_of end neighbor;
        }))

  unfoldable pub endpoint_nodes :
      L2MultipointPolicy N → ℤ → N.Graph → List TunnelEnd → Build N → Action (Manager N) (Build N)
  endpoint_nodes policy intermediate_vlan tree [] b = pure b
  endpoint_nodes policy intermediate_vlan tree (end ∷ ends) b =
      let rest = endpoint_nodes policy intermediate_vlan tree ends in
      if contains b.covered_nodes end.switch
      then rest b
      else (do b' ← endpoint_node policy intermediate_vlan tree end b; rest b')

  -- the body of the loop over the interior nodes
  unfoldable pub interior_node : ℤ → N.Graph → String → Build N → Action (Manager N) (Build N)
  interior_node intermediate_vlan tree node b = do
    (shortname, switch_id) ← location_of node
    flooding_ports ← ports_on_tree tree node
    r ← lift (flood_lc_rule switch_id flooding_ports intermediate_vlan)
    pure (with_covered node shortname r b)

  unfoldable pub interior_nodes : ℤ → N.Graph → List String → Build N → Action (Manager N) (Build N)
  interior_nodes intermediate_vlan tree [] b = pure b
  interior_nodes intermediate_vlan tree (node ∷ nodes) b =
      let rest = interior_nodes intermediate_vlan tree nodes in
      if contains b.covered_nodes node
      then rest b
      else (do b' ← interior_node intermediate_vlan tree node b; rest b')

  -- no node yet, and the resources of the tree
  abbrev pub no_build : L2MultipointPolicy N → ℤ → N.Graph → Build N
  no_build policy intermediate_vlan tree = record {
    covered_nodes = [];
    built = [];
    held = vlan_tree tree intermediate_vlan ∷ bandwidth_tree tree policy.bandwidth ∷ [];
    external = [];
  }

  -- both loops
  unfoldable pub build_nodes : L2MultipointPolicy N → ℤ → N.Graph → Action (Manager N) (Build N)
  build_nodes policy intermediate_vlan tree = do
    b ←
        endpoint_nodes policy intermediate_vlan tree policy.endpoints
          (no_build policy intermediate_vlan tree)
    interior_nodes intermediate_vlan tree (N.nodes tree) b

  module _ (make_steiner_tree : N.Graph → List String → Result N.Graph)
      (remove_edge : N.Graph → String → String → N.Graph) where
    -- The policy as a return leaves it. Where there is no tree, `find_vlan_on_tree` reads an
    -- attribute of None.
    unfoldable pub breakdown_rule : L2MultipointPolicy N → Action (Manager N) (L2MultipointPolicy N)
    breakdown_rule policy = do
      found ←
          find_valid_steiner_tree N make_steiner_tree remove_edge (distinct [] policy.endpoints)
            (some policy.bandwidth)
      tree ← or_raise found attribute_error
      vlan ← or_raise (← find_vlan_on_tree N tree) user_policy_error
      b ← build_nodes policy vlan tree
      pure (record policy {
        tree = some tree;
        intermediate_vlan = some vlan;
        resources = b.held;
        external_endpoints = b.external;
        breakdown = some b.built;
      })
