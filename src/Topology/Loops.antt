-- ===== src/Topology/Loops.antt =====
-- The loops `for (node, nextnode) in node_pairs` and `for node in nodes` of
-- sdxctlr/TopologyManager.py, over a body that checks or rewrites one attribute dictionary.
pub mod Edges
pub mod Nodes
pub mod Guarded
pub mod Sweep
use atlanticwave_proto.Prelude.{String, ℕ, ◌≡◌, ◌∙◌, zero, suc, Option, none, some, List, [], ◌∷◌}
use atlanticwave_proto.Prelude.{◌==◌, text_equality, if◌then◌else◌}
use atlanticwave_proto.Prelude.Action.{Action, Result, ok, err, pure, lift, ◌>>=◌, ◌>>◌}
use atlanticwave_proto.Topology.Graph.{NodeAttrs, EdgeAttrs, NetworkX, same_edge}
use atlanticwave_proto.Topology.Manager.{Manager, node_at, edge_at, assign_node, assign_edge}

module _ (N : NetworkX) where
  unfoldable pub check_edges :
      (EdgeAttrs → Result (Unit {0})) → List (String × String) → Action (Manager N) (Unit {0})
  check_edges test [] = pure tt
  check_edges test ((node, nextnode) ∷ node_pairs) = do
    e ← edge_at N node nextnode
    lift (test e)
    check_edges test node_pairs

  unfoldable pub update_edges :
      (EdgeAttrs → Result EdgeAttrs) → List (String × String) → Action (Manager N) (Unit {0})
  update_edges body [] = pure tt
  update_edges body ((node, nextnode) ∷ node_pairs) = do
    e ← edge_at N node nextnode
    e' ← lift (body e)
    assign_edge N node nextnode e'
    update_edges body node_pairs

  unfoldable pub check_nodes :
      (NodeAttrs → Result (Unit {0})) → List String → Action (Manager N) (Unit {0})
  check_nodes test [] = pure tt
  check_nodes test (node ∷ nodes) = do v ← node_at N node; lift (test v); check_nodes test nodes

  unfoldable pub update_nodes :
      (NodeAttrs → Result NodeAttrs) → List String → Action (Manager N) (Unit {0})
  update_nodes body [] = pure tt
  update_nodes body (node ∷ nodes) = do
    v ← node_at N node
    v' ← lift (body v)
    assign_node N node v'
    update_nodes body nodes

-- How often an edge is named in a list of pairs, and a node in a list of nodes.
abbrev pub times : List (String × String) → String → String → ℕ
times [] c d = 0
times ((a, b) ∷ ps) c d = if same_edge c d a b then suc (times ps c d) else times ps c d

abbrev pub times_node : List String → String → ℕ
times_node [] n = 0
times_node (a ∷ as') n = if n == a then suc (times_node as' n) else times_node as' n

abbrev pub to_option {ℓ} : {A : Type ℓ} → Result A → Option A
to_option (ok a) = some a
to_option (err x) = none

-- A dictionary after `k` runs of the body; `none` is a missing one or a body that raised.
abbrev pub after {ℓ} : {A : Type ℓ} → (A → Result A) → ℕ → Option A → Option A
after body zero o = o
after body (suc k) none = none
after body (suc k) (some a) = after body k (to_option (body a))

-- What no loop touches: the cache and which nodes are neighbours.
abbrev pub Frame : (N : NetworkX) → Manager N → Manager N → Type 0
Frame N m' m =
    (m'.cached_vlans ≡ m.cached_vlans)
    × ((n : String) → N.neighbors m'.topo n ≡ N.neighbors m.topo n)

pub Frame-trans :
    (N : NetworkX) {m m' m'' : Manager N} → Frame N m'' m' → Frame N m' m → Frame N m'' m
Frame-trans N f g = (f.0 ∙ g.0, λ n. f.1 n ∙ g.1 n)

-- Two states that read alike: every node, every edge, the neighbours and the cache.
pub record Same (N : NetworkX) (m m' : Manager N) : Type 0 where
  pub nodes : (n : String) → N.node m.topo n ≡ N.node m'.topo n
  pub edges : (a b : String) → N.edge m.topo a b ≡ N.edge m'.topo a b
  pub frame : Frame N m m'
