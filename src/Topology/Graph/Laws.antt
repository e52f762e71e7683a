-- ===== src/Topology/Graph/Laws.antt =====
-- What sdxctlr/TopologyManager.py relies on in networkx: the graph is undirected, and an
-- assignment into one attribute dictionary changes that one alone.
use atlanticwave_proto.Prelude.{String, none, some, ◌≡◌, ◌≢◌, ◌==◌, text_equality, if◌then◌else◌}
use atlanticwave_proto.Topology.Graph.{NodeAttrs, EdgeAttrs, NetworkX, same_edge}

pub record IsLawful (N : NetworkX) : Type 0 where
  pub edge_comm : (g : N.Graph) (a b : String) → N.edge g a b ≡ N.edge g b a
  pub node-set_node :
      (g : N.Graph) (k : String) (v : NodeAttrs) (j : String)
      → N.node g k ≢ none
      → N.node (N.set_node g k v) j ≡ (if j == k then some v else N.node g j)
  pub edge-set_node :
      (g : N.Graph) (k : String) (v : NodeAttrs) (a b : String)
      → N.edge (N.set_node g k v) a b ≡ N.edge g a b
  pub edge-set_edge :
      (g : N.Graph) (a b : String) (v : EdgeAttrs) (c d : String)
      → N.edge g a b ≢ none
      → N.edge (N.set_edge g a b v) c d ≡ (if same_edge c d a b then some v else N.edge g c d)
  pub neighbors-set_node :
      (g : N.Graph) (k : String) (v : NodeAttrs) (n : String)
      → N.neighbors (N.set_node g k v) n ≡ N.neighbors g n
  pub neighbors-set_edge :
      (g : N.Graph) (a b : String) (v : EdgeAttrs) (n : String)
      → N.edge g a b ≢ none
      → N.neighbors (N.set_edge g a b v) n ≡ N.neighbors g n
  pub node-set_edge :
      (g : N.Graph) (a b : String) (v : EdgeAttrs) (k : String)
      → N.node (N.set_edge g a b v) k ≡ N.node g k
