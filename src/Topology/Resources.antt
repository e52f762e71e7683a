-- ===== src/Topology/Resources.antt =====
-- The resources of shared/PathResource.py, and the functions of sdxctlr/TopologyManager.py that
-- reserve and release them on a path, on a tree and on a port.
pub mod Release
use atlanticwave_proto.Prelude.{
  String, Option, none, some, List, [], ◌∷◌, Bool, if◌then◌else◌, ◌==◌,
}
use atlanticwave_proto.Prelude.Lists.{lookup, pairs}
use atlanticwave_proto.Prelude.{text_equality}
use atlanticwave_proto.Prelude.Int.{ℤ, int_eq}
use atlanticwave_proto.Prelude.Action.{
  Action, pure, raise, gets, or_raise, key_error, topology_manager_type_error, ◌>>=◌, ◌>>◌,
}
use atlanticwave_proto.Topology.Graph.{NetworkX}
use atlanticwave_proto.Topology.Manager.{Manager, edge_at}
use atlanticwave_proto.Topology.Bandwidth.{reserve_bw, unreserve_bw}
use atlanticwave_proto.Topology.Vlans.{reserve_vlan, unreserve_vlan}

-- The subclasses of `PathResource`, and an instance of the parent class itself.
pub data Resource (N : NetworkX) : Type 0 where
  vlan_port : String → ℤ → ℤ → Resource N
  vlan_path : List String → ℤ → Resource N
  vlan_tree : N.Graph → ℤ → Resource N
  bandwidth_port : String → ℤ → ℤ → Resource N
  bandwidth_path : List String → ℤ → Resource N
  bandwidth_tree : N.Graph → ℤ → Resource N
  path_resource : String → Resource N

module _ (N : NetworkX) where
  unfoldable pub reserve_vlan_on_path : List String → ℤ → Action (Manager N) (Unit {0})
  reserve_vlan_on_path path vlan = reserve_vlan N path (pairs path) vlan

  unfoldable pub unreserve_vlan_on_path : List String → ℤ → Action (Manager N) (Unit {0})
  unreserve_vlan_on_path path vlan = unreserve_vlan N path (pairs path) vlan

  unfoldable pub reserve_bw_on_path : List String → ℤ → Action (Manager N) (Unit {0})
  reserve_bw_on_path path bw = reserve_bw N (pairs path) bw

  unfoldable pub unreserve_bw_on_path : List String → ℤ → Action (Manager N) (Unit {0})
  unreserve_bw_on_path path bw = unreserve_bw N (pairs path) bw

  unfoldable pub reserve_vlan_on_tree : N.Graph → ℤ → Action (Manager N) (Unit {0})
  reserve_vlan_on_tree tree vlan = reserve_vlan N (N.nodes tree) (N.edges tree) vlan

  unfoldable pub unreserve_vlan_on_tree : N.Graph → ℤ → Action (Manager N) (Unit {0})
  unreserve_vlan_on_tree tree vlan = unreserve_vlan N (N.nodes tree) (N.edges tree) vlan

  unfoldable pub reserve_bw_on_tree : N.Graph → ℤ → Action (Manager N) (Unit {0})
  reserve_bw_on_tree tree bw = reserve_bw N (N.edges tree) bw

  unfoldable pub unreserve_bw_on_tree : N.Graph → ℤ → Action (Manager N) (Unit {0})
  unreserve_bw_on_tree tree bw = unreserve_bw N (N.edges tree) bw

  -- the loop of `get_switch_port_neighbor` over the neighbours of the switch
  unfoldable pub find_neighbor : String → ℤ → List String → Action (Manager N) (Option String)
  find_neighbor switchname portnum [] = pure none
  find_neighbor switchname portnum (neighbor ∷ neighbors) = do
    e ← edge_at N switchname neighbor
    port ← or_raise (lookup switchname e.ports) key_error
    let rest = find_neighbor switchname portnum neighbors
    if port == portnum then pure (some neighbor) else rest

  unfoldable pub get_switch_port_neighbor : String → ℤ → Action (Manager N) (Option String)
  get_switch_port_neighbor switchname portnum = do
    neighbors ← or_raise (← gets (λ m. N.neighbors m.topo switchname)) key_error
    find_neighbor switchname portnum neighbors

  -- An operation on the link at a port; a port without a link is left alone.
  abbrev pub on_port :
      (List (String × String) → Action (Manager N) (Unit {0}))
      → String
      → ℤ
      → Action (Manager N) (Unit {0})
  on_port operation switchname portnum = do
    neighbor ← get_switch_port_neighbor switchname portnum
    elim neighbor [ none ↦ pure tt | some n ↦ operation ((switchname, n) ∷ []) ]

  unfoldable pub reserve_vlan_on_port : String → ℤ → ℤ → Action (Manager N) (Unit {0})
  reserve_vlan_on_port switchname portnum vlan =
      on_port (λ ps. reserve_vlan N [] ps vlan) switchname portnum

  unfoldable pub unreserve_vlan_on_port : String → ℤ → ℤ → Action (Manager N) (Unit {0})
  unreserve_vlan_on_port switchname portnum vlan =
      on_port (λ ps. unreserve_vlan N [] ps vlan) switchname portnum

  unfoldable pub reserve_bw_on_port : String → ℤ → ℤ → Action (Manager N) (Unit {0})
  reserve_bw_on_port switchname portnum bw = on_port (λ ps. reserve_bw N ps bw) switchname portnum

  unfoldable pub unreserve_bw_on_port : String → ℤ → ℤ → Action (Manager N) (Unit {0})
  unreserve_bw_on_port switchname portnum bw =
      on_port (λ ps. unreserve_bw N ps bw) switchname portnum

  unfoldable pub reserve_resource : Resource N → Action (Manager N) (Unit {0})
  reserve_resource (vlan_port switch port vlan) = reserve_vlan_on_port switch port vlan
  reserve_resource (vlan_path path vlan) = reserve_vlan_on_path path vlan
  reserve_resource (vlan_tree tree vlan) = reserve_vlan_on_tree tree vlan
  reserve_resource (bandwidth_port switch port bw) = reserve_bw_on_port switch port bw
  reserve_resource (bandwidth_path path bw) = reserve_bw_on_path path bw
  reserve_resource (bandwidth_tree tree bw) = reserve_bw_on_tree tree bw
  reserve_resource (path_resource name) = raise topology_manager_type_error

  unfoldable pub unreserve_resource : Resource N → Action (Manager N) (Unit {0})
  unreserve_resource (vlan_port switch port vlan) = unreserve_vlan_on_port switch port vlan
  unreserve_resource (vlan_path path vlan) = unreserve_vlan_on_path path vlan
  unreserve_resource (vlan_tree tree vlan) = unreserve_vlan_on_tree tree vlan
  unreserve_resource (bandwidth_port switch port bw) = unreserve_bw_on_port switch port bw
  unreserve_resource (bandwidth_path path bw) = unreserve_bw_on_path path bw
  unreserve_resource (bandwidth_tree tree bw) = unreserve_bw_on_tree tree bw
  unreserve_resource (path_resource name) = raise topology_manager_type_error
