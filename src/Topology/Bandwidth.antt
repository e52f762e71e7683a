-- ===== src/Topology/Bandwidth.antt =====
-- `reserve_bw` and `unreserve_bw` of sdxctlr/TopologyManager.py: a loop that checks every pair of
-- nodes, and then a loop that writes every pair.
pub mod Laws
pub mod Capacity
use atlanticwave_proto.Prelude.{String, List, if◌then◌else◌}
use atlanticwave_proto.Prelude.Int.{ℤ, ◌+ℤ◌, ◌-ℤ◌, ltb_ℤ}
use atlanticwave_proto.Prelude.Action.{Action, Result, ok, err, topology_manager_error, ◌>>=◌, ◌>>◌}
use atlanticwave_proto.Topology.Graph.{EdgeAttrs, NetworkX}
use atlanticwave_proto.Topology.Manager.{Manager}
use atlanticwave_proto.Topology.Loops.{check_edges, update_edges}

-- the test of `reserve_bw`: the reservation does not go over the edge's bandwidth
abbrev pub has_bw : ℤ → EdgeAttrs → Result (Unit {0})
has_bw bw e = if ltb_ℤ e.weight (e.bw_in_use +ℤ bw) then err topology_manager_error else ok tt

-- `edge['bw_in_use'] += bw`
abbrev pub add_bw : ℤ → EdgeAttrs → Result EdgeAttrs
add_bw bw e = ok (record e { bw_in_use = e.bw_in_use +ℤ bw })

-- the test of `unreserve_bw`: no more is removed than is in use
abbrev pub holds_bw : ℤ → EdgeAttrs → Result (Unit {0})
holds_bw bw e = if ltb_ℤ e.bw_in_use bw then err topology_manager_error else ok tt

-- `edge['bw_in_use'] -= bw`
abbrev pub subtract_bw : ℤ → EdgeAttrs → Result EdgeAttrs
subtract_bw bw e = ok (record e { bw_in_use = e.bw_in_use -ℤ bw })

module _ (N : NetworkX) where
  unfoldable pub reserve_bw : List (String × String) → ℤ → Action (Manager N) (Unit {0})
  reserve_bw node_pairs bw =
      check_edges N (has_bw bw) node_pairs >> update_edges N (add_bw bw) node_pairs

  unfoldable pub unreserve_bw : List (String × String) → ℤ → Action (Manager N) (Unit {0})
  unreserve_bw node_pairs bw =
      check_edges N (holds_bw bw) node_pairs >> update_edges N (subtract_bw bw) node_pairs
