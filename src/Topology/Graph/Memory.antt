-- ===== src/Topology/Graph/Memory.antt =====
-- A graph as two association lists, which meets the assumptions; the tests run on it.
use atlanticwave_proto.Prelude.{
  String, Option, none, some, List, [], ◌∷◌, map, ◌≡◌, refl, ◌≢◌, ap, Bool-cases, inl, inr, ◌==◌,
  text_equality, arith, if◌then◌else◌,
}
use atlanticwave_proto.Prelude.Lists.{lookup, insert, lookup-insert}
use atlanticwave_proto.Topology.Graph.{NodeAttrs, EdgeAttrs, NetworkX, same_edge}
use atlanticwave_proto.Topology.Graph.SameEdge.{
  same_edge_comm, same_edge_trans, same_edge_trans_right,
}
use atlanticwave_proto.Topology.Graph.Laws.{IsLawful}

pub record MemoryGraph : Type 0 where
  pub node_list : List (String × NodeAttrs)
  pub edge_list : List (String × String × EdgeAttrs)
  pub paths : List (List String)

abbrev find_edge : String → String → List (String × String × EdgeAttrs) → Option EdgeAttrs
find_edge c d [] = none
find_edge c d ((a, b, v) ∷ es) = if same_edge c d a b then some v else find_edge c d es

abbrev put_edge :
    String
    → String
    → EdgeAttrs
    → List (String × String × EdgeAttrs)
    → List (String × String × EdgeAttrs)
put_edge a b v [] = []
put_edge a b v ((c, d, w) ∷ es) =
    if same_edge a b c d then (c, d, v) ∷ es else (c, d, w) ∷ put_edge a b v es

abbrev edge_neighbors : String → List (String × String × EdgeAttrs) → List String
edge_neighbors n [] = []
edge_neighbors n ((a, b, _) ∷ es) =
    let rest = edge_neighbors n es in if n == a then b ∷ rest else if n == b then a ∷ rest else rest

abbrev pub memory_graph : NetworkX
memory_graph = record {
  Graph = MemoryGraph;
  nodes = λ g. map (λ p. p.0) g.node_list;
  edges = λ g. map (λ p. (p.0, p.1)) g.edge_list;
  node = λ g n. lookup n g.node_list;
  edge = λ g a b. find_edge a b g.edge_list;
  neighbors = λ g n. some (edge_neighbors n g.edge_list);
  set_node = λ g n v. record g { node_list = insert n v g.node_list };
  set_edge = λ g a b v. record g { edge_list = put_edge a b v g.edge_list };
  all_shortest_paths = λ g a b. some g.paths;
}

find_edge_comm :
    (a b : String) (es : List (String × String × EdgeAttrs)) → find_edge a b es ≡ find_edge b a es
find_edge_comm a b [] = refl
find_edge_comm a b ((c, d, w) ∷ es) = ground (arith, same_edge_comm a b c d, find_edge_comm a b es)

find_edge-put_edge :
    (a b : String) (v : EdgeAttrs) (c d : String) (es : List (String × String × EdgeAttrs))
    → find_edge a b es ≢ none
    → find_edge c d (put_edge a b v es) ≡ (if same_edge c d a b then some v else find_edge c d es)
find_edge-put_edge a b v c d [] h = absurd (h refl)
find_edge-put_edge a b v c d ((x, y, w) ∷ es) h = ground (
  arith,
  same_edge_trans c d a b x y,
  same_edge_trans_right a b x y c d,
  find_edge-put_edge a b v c d es,
)

edge_neighbors-put_edge :
    (a b : String) (v : EdgeAttrs) (n : String) (es : List (String × String × EdgeAttrs))
    → edge_neighbors n (put_edge a b v es) ≡ edge_neighbors n es
edge_neighbors-put_edge a b v n [] = refl
edge_neighbors-put_edge a b v n ((x, y, w) ∷ es) = elim (Bool-cases (same_edge a b x y)) [
  | inl same ↦ rw same
  | inr other ↦ rw other (rw (edge_neighbors-put_edge a b v n es))
]

pub memory_graph-IsLawful : IsLawful memory_graph
memory_graph-IsLawful = record {
  edge_comm = λ g a b. find_edge_comm a b g.edge_list;
  node-set_node = λ g k v j _. lookup-insert j k v g.node_list;
  edge-set_node = λ g k v a b. refl;
  edge-set_edge = λ g a b v c d h. find_edge-put_edge a b v c d g.edge_list h;
  neighbors-set_node = λ g k v n. refl;
  neighbors-set_edge = λ g a b v n h. ap some (edge_neighbors-put_edge a b v n g.edge_list);
  node-set_edge = λ g a b v k. refl;
}
