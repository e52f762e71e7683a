-- ===== src/Topology/Tests.antt =====
-- A triangle of two switches and a host, and the theorems about the topology manager at it.
use atlanticwave_proto.Prelude.{
  String, none, some, List, [], ◌∷◌, arith, ◌≡◌, refl, ◌≢◌, ◌≤◌, ◌↔◌, Bool, true, false,
  if◌then◌else◌, ◌&&◌,
}
use atlanticwave_proto.Prelude.Lists.{All, contains}
use atlanticwave_proto.Prelude.Int.{pos, ◌≤ℤ◌, ◌+ℤ◌, ◌-ℤ◌, int_eq}
use atlanticwave_proto.Prelude.Text.{codes, split, int}
use atlanticwave_proto.Prelude.Action.{ok, err, topology_manager_error}
use atlanticwave_proto.Topology.Graph.{NodeAttrs, EdgeAttrs, NetworkX, same_edge}
use atlanticwave_proto.Topology.Graph.Memory.{MemoryGraph, memory_graph, memory_graph-IsLawful}
use atlanticwave_proto.Topology.Manager.{Manager}
use atlanticwave_proto.Topology.Loops.{
  check_edges, update_edges, check_nodes, update_nodes, times, Same, Frame,
}
use atlanticwave_proto.Topology.Bandwidth.{reserve_bw}
use atlanticwave_proto.Topology.Bandwidth.Laws.{
  HasRoom, charged, reserve_bw-iff-HasRoom, reserve_bw_effect,
}
use atlanticwave_proto.Topology.Bandwidth.Capacity.{IsWithin, WithinAt, reserve_bw-IsWithin}
use atlanticwave_proto.Topology.Vlans.{reserve_vlan}
use atlanticwave_proto.Topology.Vlans.Laws.{AllFree, reserve_vlan-iff-AllFree}
use atlanticwave_proto.Topology.Vlans.Exclusive.{reserve_vlan_exclusive, reserve_vlan_independent}
use atlanticwave_proto.Topology.Resources.{
  vlan_port, bandwidth_path, find_neighbor, get_switch_port_neighbor, reserve_resource,
  unreserve_resource, reserve_bw_on_path, reserve_vlan_on_path, reserve_vlan_on_port,
}
use atlanticwave_proto.Topology.Resources.Release.{
  reserve_resource_atomic, unreserve_resource-reserve_resource,
}
use atlanticwave_proto.Topology.Available.{
  available_vlans_of, parse_ranges, range_from, get_available_vlan_list, parse_available_vlans,
}
use atlanticwave_proto.Topology.Available.Ranges.{covered, within, available_vlans_of-covered}
use atlanticwave_proto.Topology.Available.Cache.{IsCached, get_available_vlan_list_lem}
use atlanticwave_proto.Topology.Find.{
  find_vlan_on_path, try_vlans_on_path, used_on_points, closed_on_edges, vlan_range,
}
use atlanticwave_proto.Topology.Find.Search.{
  IsUsable, find_vlan_on_path_sound, find_vlan_on_path_complete, find_vlan_on_path-reserve,
}

abbrev switch : NodeAttrs
switch = record {
  kind = some "switch";
  vlans_in_use = some (pos 7 ∷ []);
  locationshortname = some "atl";
  dpid = some (pos 1);
}

abbrev host : NodeAttrs
host = record { kind = some "dtn"; vlans_in_use = some []; locationshortname = none; dpid = none }

abbrev link : EdgeAttrs
link = record {
  weight = pos 100;
  bw_in_use = pos 30;
  vlans_in_use = pos 1 ∷ pos 9 ∷ [];
  available_vlans = "1-20,100";
  ports = ("a", pos 1) ∷ ("b", pos 2) ∷ ("h", pos 3) ∷ [];
}

abbrev graph : MemoryGraph
graph = record {
  node_list = ("a", switch) ∷ ("b", switch) ∷ ("h", host) ∷ [];
  edge_list = ("a", "b", link) ∷ ("b", "h", link) ∷ [];
  paths = ("a" ∷ "b" ∷ []) ∷ [];
}

abbrev manager : Manager memory_graph
manager = record { topo = graph; cached_vlans = [] }

abbrev pair : List (String × String)
pair = ("b", "a") ∷ []

reserve_bw_test : (reserve_bw memory_graph pair (pos 71) manager).0 ≡ err topology_manager_error
unfolding reserve_bw check_edges same_edge ◌+ℤ◌
reserve_bw_test = refl

reserves_vlan : (reserve_vlan memory_graph ("a" ∷ "b" ∷ []) pair (pos 2) manager).0 ≡ ok tt
unfolding reserve_vlan check_nodes check_edges update_nodes update_edges same_edge
reserves_vlan = refl

reserves : (reserve_bw memory_graph pair (pos 70) manager).0 ≡ ok tt
unfolding reserve_bw check_edges update_edges same_edge ◌+ℤ◌
reserves = refl

graph-IsWithin : IsWithin memory_graph manager
graph-IsWithin c d = edges (same_edge c d "a" "b") (same_edge c d "b" "h")
  where
    edges : (p q : Bool) → WithinAt (if p then some link else if q then some link else none)
    edges true q = omega arith
    edges false true = omega arith
    edges false false = tt

once : (c d : String) → times pair c d ≤ 1
once c d = ground arith

vlans_test : available_vlans_of "1-3,100" ≡ ok (pos 1 ∷ pos 2 ∷ pos 3 ∷ pos 100 ∷ [])
unfolding available_vlans_of parse_ranges range_from ◌+ℤ◌ ◌-ℤ◌ split int
vlans_test = refl

find_test : (find_vlan_on_path memory_graph ("a" ∷ "b" ∷ []) manager).0 ≡ ok (some (pos 2))
unfolding find_vlan_on_path try_vlans_on_path used_on_points closed_on_edges vlan_range
    get_available_vlan_list parse_available_vlans available_vlans_of parse_ranges range_from ◌+ℤ◌
    ◌-ℤ◌ split int same_edge
find_test = refl

abbrev N : NetworkX
N = memory_graph

reserve_bw-iff-HasRoom_example :
    ((reserve_bw N pair (pos 70) manager).0 ≡ ok tt)
    ↔ All (λ p. HasRoom (pos 70) (N.edge graph p.0 p.1)) pair
reserve_bw-iff-HasRoom_example =
    reserve_bw-iff-HasRoom N memory_graph-IsLawful pair (pos 70) manager

reserve_bw_effect_example :
    let m' = (reserve_bw N pair (pos 70) manager).1 in
    ((c d : String) → N.edge m'.topo c d ≡ charged (pos 70) (times pair c d) (N.edge graph c d))
    × ((n : String) → N.node m'.topo n ≡ N.node graph n)
    × Frame N m' manager
reserve_bw_effect_example = reserve_bw_effect N memory_graph-IsLawful pair (pos 70) manager reserves

reserve_bw-IsWithin_example : IsWithin N (reserve_bw N pair (pos 70) manager).1
reserve_bw-IsWithin_example =
    reserve_bw-IsWithin N memory_graph-IsLawful pair (pos 70) manager (omega arith) once
      graph-IsWithin

reserve_vlan-iff-AllFree_example :
    ((reserve_vlan N ("a" ∷ []) pair (pos 2) manager).0 ≡ ok tt)
    ↔ AllFree N memory_graph-IsLawful ("a" ∷ []) pair (pos 2) manager
reserve_vlan-iff-AllFree_example =
    reserve_vlan-iff-AllFree N memory_graph-IsLawful ("a" ∷ []) pair (pos 2) manager

reserve_vlan_exclusive_example :
    (reserve_vlan N []
      (("a", "b") ∷ [])
      (pos 2)
      (reserve_vlan N ("a" ∷ "b" ∷ []) pair (pos 2) manager).1).0
    ≢ ok tt
unfolding same_edge
reserve_vlan_exclusive_example =
    reserve_vlan_exclusive N memory_graph-IsLawful ("a" ∷ "b" ∷ []) pair (pos 2) manager []
      (("a", "b") ∷ []) "a" "b" reserves_vlan (omega arith) (omega arith)

reserve_vlan_independent_example :
    ((reserve_vlan N
        ("a" ∷ [])
        pair
        (pos 3)
        (reserve_vlan N ("a" ∷ "b" ∷ []) pair (pos 2) manager).1).0
      ≡ ok tt)
    ↔ ((reserve_vlan N ("a" ∷ []) pair (pos 3) manager).0 ≡ ok tt)
reserve_vlan_independent_example =
    reserve_vlan_independent N memory_graph-IsLawful ("a" ∷ "b" ∷ []) pair (pos 2) manager
      ("a" ∷ []) pair (pos 3) (λ e. cc) reserves_vlan

reserve_resource_atomic_example :
    (reserve_resource N (bandwidth_path ("a" ∷ "b" ∷ []) (pos 71)) manager).1 ≡ manager
unfolding reserve_resource reserve_bw_on_path reserve_bw check_edges same_edge ◌+ℤ◌
reserve_resource_atomic_example =
    reserve_resource_atomic N memory_graph-IsLawful manager
      (bandwidth_path ("a" ∷ "b" ∷ []) (pos 71)) topology_manager_error refl

port_reserves : (reserve_resource N (vlan_port "a" (pos 1) (pos 2)) manager).0 ≡ ok tt
unfolding reserve_resource reserve_vlan_on_port get_switch_port_neighbor find_neighbor reserve_vlan
    check_nodes check_edges update_nodes update_edges same_edge
port_reserves = refl

unreserve_resource-reserve_resource_example :
    let r = vlan_port "a" (pos 1) (pos 2) in
    let (answer, m') = unreserve_resource N r (reserve_resource N r manager).1 in
    (answer ≡ ok tt) × Same N m' manager
unreserve_resource-reserve_resource_example =
    unreserve_resource-reserve_resource N memory_graph-IsLawful manager
      (vlan_port "a" (pos 1) (pos 2)) tt graph-IsWithin port_reserves

available_vlans_of-covered_example :
    contains (pos 1 ∷ pos 2 ∷ pos 3 ∷ pos 100 ∷ []) (pos 50)
    ≡ (covered (split b',' (codes "1-3,100")) (pos 50) && within (pos 0) (pos 4095) (pos 50))
available_vlans_of-covered_example =
    available_vlans_of-covered "1-3,100" (pos 1 ∷ pos 2 ∷ pos 3 ∷ pos 100 ∷ []) (pos 50) vlans_test

get_available_vlan_list_lem_example :
    let (r, m') = get_available_vlan_list N "1-3,100" manager in
    (r ≡ available_vlans_of "1-3,100") × (m'.topo ≡ graph) × IsCached m'.cached_vlans
get_available_vlan_list_lem_example = get_available_vlan_list_lem N "1-3,100" manager tt

find_vlan_on_path_sound_example :
    (pos 1 ≤ℤ pos 2) × (pos 2 ≤ℤ pos 4088) × IsUsable N graph ("a" ∷ "b" ∷ []) (pos 2)
find_vlan_on_path_sound_example =
    find_vlan_on_path_sound N ("a" ∷ "b" ∷ []) manager tt (pos 2) find_test

find_vlan_on_path-reserve_example :
    (reserve_vlan_on_path N
      ("a" ∷ "b" ∷ [])
      (pos 2)
      (find_vlan_on_path N ("a" ∷ "b" ∷ []) manager).1).0
    ≡ ok tt
find_vlan_on_path-reserve_example =
    find_vlan_on_path-reserve N ("a" ∷ "b" ∷ []) manager tt (pos 2) memory_graph-IsLawful
      ((switch, refl, refl), ((switch, refl, refl), tt)) find_test

-- A link on which only the VLAN that is in use is allowed.
abbrev full : Manager memory_graph
full = record {
  topo = record {
    node_list = ("a", switch) ∷ ("b", switch) ∷ [];
    edge_list = ("a", "b", record link { available_vlans = "9" }) ∷ [];
    paths = [];
  };
  cached_vlans = [];
}

find_none : (find_vlan_on_path memory_graph ("a" ∷ "b" ∷ []) full).0 ≡ ok none
unfolding find_vlan_on_path try_vlans_on_path used_on_points closed_on_edges vlan_range
    get_available_vlan_list parse_available_vlans available_vlans_of parse_ranges range_from ◌+ℤ◌
    ◌-ℤ◌ split int same_edge
find_none = refl

find_vlan_on_path_complete_example : ¬ IsUsable N full.topo ("a" ∷ "b" ∷ []) (pos 9)
find_vlan_on_path_complete_example =
    find_vlan_on_path_complete N ("a" ∷ "b" ∷ []) full tt (pos 9) find_none (omega arith)
      (omega arith)
