-- ===== src/Topology/Steiner.antt =====
-- `find_valid_steiner_tree` of sdxctlr/TopologyManager.py. The search for a tree, lib/SteinerTree.py,
-- is a parameter; it raises `NetworkXNoPath` where the nodes are not connected.
pub mod Enough
use atlanticwave_proto.Prelude.{
  ℕ, zero, suc, String, Option, none, some, List, [], ◌∷◌, Bool, if◌then◌else◌,
}
use atlanticwave_proto.Prelude.Int.{ℤ, ◌+ℤ◌, ltb_ℤ}
use atlanticwave_proto.Prelude.Action.{
  Action, Result, ok, err, pure, raise, gets, modify, network_x_no_path, ◌>>=◌, ◌>>◌,
}
use atlanticwave_proto.Topology.Graph.{NetworkX}
use atlanticwave_proto.Topology.Manager.{Manager, edge_at}
use atlanticwave_proto.Topology.Find.{find_vlan_on_tree}

-- `bw is not None and (bw_in_use + bw) > bw_available`
abbrev pub lacks_bw : Option ℤ → ℤ → ℤ → Bool
lacks_bw none in_use available = Bool.false
lacks_bw (some bw) in_use available = ltb_ℤ available (in_use +ℤ bw)

abbrev pub length : {A : Type 0} → List A → ℕ
length [] = zero
length (x ∷ xs) = suc (length xs)

module _ (N : NetworkX) (make_steiner_tree : N.Graph → List String → Result N.Graph)
    (remove_edge : N.Graph → String → String → N.Graph) where
  -- the loop over the edges of a tree: the first edge without enough bandwidth
  unfoldable pub first_lacking :
      Option ℤ → List (String × String) → Action (Manager N) (Option (String × String))
  first_lacking bw [] = pure none
  first_lacking bw ((node, nextnode) ∷ edges) = do
    let rest = first_lacking bw edges
    e ← edge_at N node nextnode
    if lacks_bw bw e.bw_in_use e.weight then pure (some (node, nextnode)) else rest

  -- What is done with an edge that lacks bandwidth: it is removed from the topology itself, and the
  -- loop goes on. Without one, the search for a VLAN has no effect on the answer.
  abbrev pub with_lacking :
      N.Graph
      → Action (Manager N) (Option N.Graph)
      → Option (String × String)
      → Action (Manager N) (Option N.Graph)
  with_lacking tree rest none = do selected_vlan ← find_vlan_on_tree N tree; pure (some tree)
  with_lacking tree rest (some (node, nextnode)) =
      modify (λ m. record m { topo = remove_edge m.topo node nextnode }) >> rest

  abbrev pub with_tree :
      Option ℤ
      → Action (Manager N) (Option N.Graph)
      → Result N.Graph
      → Action (Manager N) (Option N.Graph)
  with_tree bw rest (err network_x_no_path) = pure none
  with_tree bw rest (err x) = raise x
  with_tree bw rest (ok tree) = do
    lacking ← first_lacking bw (N.edges tree)
    with_lacking tree rest lacking

  -- the loop, with the value of `timeout`
  unfoldable pub try_trees : ℕ → List String → Option ℤ → Action (Manager N) (Option N.Graph)
  try_trees zero nodes bw = pure none
  try_trees (suc timeout) nodes bw = do
    let rest = try_trees timeout nodes bw
    made ← gets (λ m. make_steiner_tree m.topo nodes)
    with_tree bw rest made

  unfoldable pub find_valid_steiner_tree :
      List String → Option ℤ → Action (Manager N) (Option N.Graph)
  find_valid_steiner_tree nodes bw = do
    timeout ← gets (λ m. length (N.edges m.topo))
    try_trees timeout nodes bw
