-- ===== src/Topology/Vlans.antt =====
-- `reserve_vlan` and `unreserve_vlan` of sdxctlr/TopologyManager.py.
pub mod Laws
pub mod Exclusive
pub mod Restore
use atlanticwave_proto.Prelude.{
  String, Option, none, some, List, [], ◌∷◌, ◌++◌, Bool, if◌then◌else◌,
}
use atlanticwave_proto.Prelude.Lists.{contains, remove}
use atlanticwave_proto.Prelude.Int.{ℤ, int_eq}
use atlanticwave_proto.Prelude.Action.{
  Action, Result, ok, err, topology_manager_error, key_error, value_error, ◌>>=◌, ◌>>◌,
}
use atlanticwave_proto.Topology.Graph.{NodeAttrs, EdgeAttrs, NetworkX}
use atlanticwave_proto.Topology.Manager.{Manager}
use atlanticwave_proto.Topology.Loops.{check_nodes, check_edges, update_nodes, update_edges}

-- `xs.remove(vlan)`, with its `ValueError`
abbrev pub remove_vlan : ℤ → List ℤ → Result (List ℤ)
remove_vlan vlan xs = elim (remove xs vlan) [ none ↦ err value_error | some ys ↦ ok ys ]

abbrev pub raise_when : Bool → Result (Unit {0})
raise_when b = if b then err topology_manager_error else ok tt

-- the tests of `reserve_vlan`: the VLAN is not reserved yet
abbrev pub node_is_free : ℤ → NodeAttrs → Result (Unit {0})
node_is_free vlan v = elim v.vlans_in_use [
  | none ↦ err key_error
  | some xs ↦ raise_when (contains xs vlan)
]

abbrev pub edge_is_free : ℤ → EdgeAttrs → Result (Unit {0})
edge_is_free vlan e = raise_when (contains e.vlans_in_use vlan)

-- `['vlans_in_use'].append(vlan)`
abbrev pub append_to_node : ℤ → NodeAttrs → Result NodeAttrs
append_to_node vlan v = elim v.vlans_in_use [
  | none ↦ err key_error
  | some xs ↦ ok (record v { vlans_in_use = some (xs ++ vlan ∷ []) })
]

abbrev pub append_to_edge : ℤ → EdgeAttrs → Result EdgeAttrs
append_to_edge vlan e = ok (record e { vlans_in_use = e.vlans_in_use ++ vlan ∷ [] })

-- the tests of `unreserve_vlan`: the VLAN is reserved
abbrev pub node_is_reserved : ℤ → NodeAttrs → Result (Unit {0})
node_is_reserved vlan v = elim v.vlans_in_use [
  | none ↦ err key_error
  | some xs ↦ if contains xs vlan then ok tt else err topology_manager_error
]

abbrev pub edge_is_reserved : ℤ → EdgeAttrs → Result (Unit {0})
edge_is_reserved vlan e = if contains e.vlans_in_use vlan then ok tt else err topology_manager_error

-- `['vlans_in_use'].remove(vlan)`
abbrev pub remove_from_node : ℤ → NodeAttrs → Result NodeAttrs
remove_from_node vlan v = elim v.vlans_in_use [
  | none ↦ err key_error
  | some xs ↦ elim (remove_vlan vlan xs) [
    | err x ↦ err x
    | ok ys ↦ ok (record v { vlans_in_use = some ys })
  ]
]

abbrev pub remove_from_edge : ℤ → EdgeAttrs → Result EdgeAttrs
remove_from_edge vlan e = elim (remove_vlan vlan e.vlans_in_use) [
  | err x ↦ err x
  | ok ys ↦ ok (record e { vlans_in_use = ys })
]

module _ (N : NetworkX) where
  unfoldable pub reserve_vlan :
      List String → List (String × String) → ℤ → Action (Manager N) (Unit {0})
  reserve_vlan nodes node_pairs vlan = do
    check_nodes N (node_is_free vlan) nodes
    check_edges N (edge_is_free vlan) node_pairs
    update_nodes N (append_to_node vlan) nodes
    update_edges N (append_to_edge vlan) node_pairs

  unfoldable pub unreserve_vlan :
      List String → List (String × String) → ℤ → Action (Manager N) (Unit {0})
  unreserve_vlan nodes node_pairs vlan = do
    check_nodes N (node_is_reserved vlan) nodes
    check_edges N (edge_is_reserved vlan) node_pairs
    update_nodes N (remove_from_node vlan) nodes
    update_edges N (remove_from_edge vlan) node_pairs
