-- ===== src/Multipoint/Tests.antt =====
-- A network between two of three switches, and the theorems about trees and multipoint networks at it.
use atlanticwave_proto.Prelude.{
  String, none, some, List, [], ◌∷◌, ◌≡◌, refl, Bool, ◌||◌, if◌then◌else◌, text_equality,
}
use atlanticwave_proto.Prelude.Lists.{contains}
use atlanticwave_proto.Prelude.Int.{ℤ, pos, ◌+ℤ◌, ◌-ℤ◌}
use atlanticwave_proto.Prelude.Action.{Result, ok, err, name_error}
use atlanticwave_proto.Topology.Graph.{NodeAttrs, EdgeAttrs, same_edge}
use atlanticwave_proto.Topology.Graph.Memory.{MemoryGraph, memory_graph}
use atlanticwave_proto.Topology.Manager.{Manager}
use atlanticwave_proto.Topology.Find.{
  find_vlan_on_tree, try_vlans_on_tree, used_on_points, used_on_edges, vlan_range,
}
use atlanticwave_proto.Topology.Available.{range_from}
use atlanticwave_proto.Topology.Resources.{
  vlan_tree, vlan_port, bandwidth_tree, bandwidth_port, find_neighbor, get_switch_port_neighbor,
}
use atlanticwave_proto.Topology.Steiner.{first_lacking, try_trees, find_valid_steiner_tree}
use atlanticwave_proto.Topology.Steiner.Enough.{IsFound, find_valid_steiner_tree-IsFound}
use atlanticwave_proto.Tunnel.{text}
use atlanticwave_proto.Rules.{Breakdown}
use atlanticwave_proto.Multipoint.{
  MultipointRule, endpoint_rule, flood_rule, L2MultipointPolicy, endpoint_lc_rule, flood_lc_rule,
  equals_policy,
}
use atlanticwave_proto.Multipoint.Nodes.{
  Build, connected_ports, endpoint_node, endpoint_nodes, interior_node, interior_nodes, build_nodes,
}
use atlanticwave_proto.Multipoint.Covers.{IsCover, switches, build_nodes-IsCover}

abbrev node : String → ℤ → NodeAttrs
node shortname dpid = record {
  kind = some "switch";
  vlans_in_use = some [];
  locationshortname = some shortname;
  dpid = some dpid;
}

abbrev link : ℤ → List (String × ℤ) → EdgeAttrs
link in_use ports = record {
  weight = pos 100;
  bw_in_use = in_use;
  vlans_in_use = [];
  available_vlans = "1-20";
  ports = ports;
}

abbrev tree_edges : List (String × String × EdgeAttrs)
tree_edges =
    ("a", "b", link (pos 0) (("a", pos 1) ∷ ("b", pos 2) ∷ []))
    ∷ ("b", "c", link (pos 0) (("b", pos 3) ∷ ("c", pos 4) ∷ []))
    ∷ []

abbrev with_edges : List (String × String × EdgeAttrs) → MemoryGraph
with_edges edge_list = record {
  node_list =
      ("a", node "atl" (pos 11)) ∷ ("b", node "jax" (pos 12)) ∷ ("c", node "mia" (pos 13)) ∷ [];
  edge_list = edge_list;
  paths = [];
}

abbrev tree : MemoryGraph
tree = with_edges tree_edges

-- the tree and a link without bandwidth
abbrev full_graph : MemoryGraph
full_graph = with_edges (("a", "c", link (pos 95) (("a", pos 6) ∷ ("c", pos 7) ∷ [])) ∷ tree_edges)

abbrev manager_of : MemoryGraph → Manager memory_graph
manager_of topo = record { topo = topo; cached_vlans = [] }

-- Here the whole graph is the tree.
abbrev whole_graph : MemoryGraph → List String → Result MemoryGraph
whole_graph topo nodes = ok topo

abbrev drop_edge :
    String → String → List (String × String × EdgeAttrs) → List (String × String × EdgeAttrs)
drop_edge a b [] = []
drop_edge a b ((c, d, e) ∷ edges) =
    let rest = drop_edge a b edges in if same_edge a b c d then rest else (c, d, e) ∷ rest

abbrev remove_edge : MemoryGraph → String → String → MemoryGraph
remove_edge topo a b = record topo { edge_list = drop_edge a b topo.edge_list }

tree_is_found :
    find_valid_steiner_tree memory_graph whole_graph remove_edge
      ("a" ∷ "c" ∷ [])
      (some (pos 10))
      (manager_of full_graph)
    ≡ (ok (some tree), manager_of tree)
unfolding find_valid_steiner_tree try_trees first_lacking find_vlan_on_tree try_vlans_on_tree
    used_on_points used_on_edges vlan_range range_from same_edge ◌+ℤ◌ ◌-ℤ◌
tree_is_found = refl

find_valid_steiner_tree-IsFound_example :
    IsFound memory_graph whole_graph remove_edge ("a" ∷ "c" ∷ []) (pos 10) full_graph tree tree
find_valid_steiner_tree-IsFound_example =
    find_valid_steiner_tree-IsFound memory_graph whole_graph remove_edge ("a" ∷ "c" ∷ []) (pos 10)
      tree (manager_of full_graph) (manager_of tree) tree_is_found

abbrev policy : L2MultipointPolicy memory_graph
policy = record {
  start_time = text "1985";
  stop_time = text "1986";
  endpoints =
      record { switch = "a"; port = pos 5; vlan = pos 286 }
      ∷ record { switch = "c"; port = pos 8; vlan = pos 1856 }
      ∷ record { switch = "a"; port = pos 9; vlan = pos 286 }
      ∷ [];
  bandwidth = pos 10;
  intermediate_vlan = none;
  tree = none;
  external_endpoints = [];
  breakdown = none;
  resources = [];
}

abbrev rule_at : String → ℤ → MultipointRule → Breakdown MultipointRule
rule_at shortname dpid body = record {
  lc = shortname;
  rules = record { switch_id = dpid; cookie = none; body = body } ∷ [];
}

abbrev built_nodes : Build memory_graph
built_nodes = record {
  covered_nodes = "a" ∷ "c" ∷ "b" ∷ [];
  built =
      rule_at "atl" (pos 11) (
        endpoint_rule (pos 1 ∷ []) ((pos 5, pos 286) ∷ (pos 9, pos 286) ∷ []) (pos 2)
          (some (pos 10)))
      ∷ rule_at "mia" (pos 13)
          (endpoint_rule (pos 4 ∷ []) ((pos 8, pos 1856) ∷ []) (pos 2) (some (pos 10)))
      ∷ rule_at "jax" (pos 12) (flood_rule (pos 2 ∷ pos 3 ∷ []) (pos 2))
      ∷ [];
  held =
      vlan_tree tree (pos 2)
      ∷ bandwidth_tree tree (pos 10)
      ∷ vlan_port "a" (pos 5) (pos 286)
      ∷ bandwidth_port "a" (pos 5) (pos 10)
      ∷ vlan_port "c" (pos 8) (pos 1856)
      ∷ bandwidth_port "c" (pos 8) (pos 10)
      ∷ [];
  external = [];
}

nodes_are_built :
    build_nodes memory_graph policy (pos 2) tree (manager_of tree)
    ≡ (ok built_nodes, manager_of tree)
unfolding build_nodes endpoint_nodes endpoint_node interior_nodes interior_node connected_ports
    get_switch_port_neighbor find_neighbor endpoint_lc_rule flood_lc_rule same_edge
nodes_are_built = refl

build_nodes-IsCover_example :
    IsCover built_nodes
    × ((n : String)
        → contains built_nodes.covered_nodes n
          ≡ (contains (switches policy.endpoints) n || contains (memory_graph.nodes tree) n))
build_nodes-IsCover_example =
    build_nodes-IsCover policy (pos 2) tree built_nodes (manager_of tree) (manager_of tree)
      nodes_are_built

-- A VLAN that `check_syntax` accepts makes the constructor of the rule raise.
high_vlan_test : endpoint_lc_rule (pos 11) [] ((pos 5, pos 4085) ∷ []) (pos 2) none ≡ err name_error
unfolding endpoint_lc_rule
high_vlan_test = refl

-- The endpoints do not count for the equality.
equals_policy_test : equals_policy policy (record policy { endpoints = [] }) ≡ Bool.true
unfolding equals_policy
equals_policy_test = refl
