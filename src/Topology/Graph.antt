-- ===== src/Topology/Graph.antt =====
-- The part of the networkx package that sdxctlr/TopologyManager.py calls, as an interface, and the
-- attribute dictionaries that the manager keeps in the graph (filled by `_import_topology`).
pub mod Laws
pub mod SameEdge
pub mod Memory
use atlanticwave_proto.Prelude.{String, Option, List, ◌≡◌, Bool, ◌&&◌, ◌||◌, ◌==◌, text_equality}
use atlanticwave_proto.Prelude.Int.{ℤ}

-- `topo.node[n]`. A field that `_import_topology` writes only for some nodes is an `Option`:
-- reading a missing one is a `KeyError`.
pub record NodeAttrs : Type 0 where
  pub kind : Option String
  pub vlans_in_use : Option (List ℤ)
  pub locationshortname : Option String
  pub dpid : Option ℤ

-- `topo.edge[a][b]`. `ports` holds the entries whose keys are node names: `edge[a][b][a]`.
pub record EdgeAttrs : Type 0 where
  pub weight : ℤ
  pub bw_in_use : ℤ
  pub vlans_in_use : List ℤ
  pub available_vlans : String
  pub ports : List (String × ℤ)

-- The operations on graphs. `node` and `edge` are `none` where networkx raises a `KeyError`, and
-- `all_shortest_paths` where it raises `NetworkXNoPath`. `set_node` and `set_edge` are an
-- assignment into the attribute dictionary of a node or an edge of the graph.
pub record NetworkX : Type 1 where
  pub Graph : Type 0
  pub nodes : Graph → List String
  pub edges : Graph → List (String × String)
  pub node : Graph → String → Option NodeAttrs
  pub edge : Graph → String → String → Option EdgeAttrs
  pub neighbors : Graph → String → Option (List String)
  pub set_node : Graph → String → NodeAttrs → Graph
  pub set_edge : Graph → String → String → EdgeAttrs → Graph
  pub all_shortest_paths : Graph → String → String → Option (List (List String))

-- Two pairs of ends name the same undirected edge.
unfoldable pub same_edge : String → String → String → String → Bool
same_edge a b c d = (a == c && b == d) || (a == d && b == c)
