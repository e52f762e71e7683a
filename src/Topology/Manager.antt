-- ===== src/Topology/Manager.antt =====
-- The state of `TopologyManager` (sdxctlr/TopologyManager.py) and the reads and writes of the
-- graph's attribute dictionaries. `topolock` is held over each operation, so each is one step.
use atlanticwave_proto.Prelude.{String, List}
use atlanticwave_proto.Prelude.Int.{ℤ}
use atlanticwave_proto.Prelude.Action.{Action, gets, or_raise, modify, key_error, ◌>>=◌}
use atlanticwave_proto.Topology.Graph.{NodeAttrs, EdgeAttrs, NetworkX}

-- `self.topo` and `self._cached_vlans`.
pub record Manager (N : NetworkX) : Type 0 where
  pub topo : N.Graph
  pub cached_vlans : List (String × List ℤ)

module _ (N : NetworkX) where
  -- `self.topo.node[n]`, with its `KeyError`
  abbrev pub node_at : String → Action (Manager N) NodeAttrs
  node_at n = do or_raise (← gets (λ m. N.node m.topo n)) key_error

  -- `self.topo.edge[a][b]`, with its `KeyError`
  abbrev pub edge_at : String → String → Action (Manager N) EdgeAttrs
  edge_at a b = do or_raise (← gets (λ m. N.edge m.topo a b)) key_error

  -- an assignment into the dictionary of the node `n`
  abbrev pub assign_node : String → NodeAttrs → Action (Manager N) (Unit {0})
  assign_node n v = modify (λ m. record m { topo = N.set_node m.topo n v })

  -- an assignment into the dictionary of the edge `a`-`b`
  abbrev pub assign_edge : String → String → EdgeAttrs → Action (Manager N) (Unit {0})
  assign_edge a b v = modify (λ m. record m { topo = N.set_edge m.topo a b v })
