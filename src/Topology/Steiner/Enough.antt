-- ===== src/Topology/Steiner/Enough.antt =====
-- The tree that `find_valid_steiner_tree` of sdxctlr/TopologyManager.py returns.
use atlanticwave_proto.Prelude.{
  ℕ, zero, suc, String, Option, none, some, List, [], ◌∷◌, ◌≡◌, ◌≢◌, refl, sym, ap, subst, ◌∙◌, inl,
  inr, arith, Bool-cases, Option-cases,
}
use atlanticwave_proto.Prelude.Lists.{All}
use atlanticwave_proto.Prelude.Int.{ℤ, ◌+ℤ◌, ◌≤ℤ◌, ltb_ℤ}
use atlanticwave_proto.Prelude.Action.{
  Action, Exception, Result, Result-cases, ok, err, pure, action_returns,
}
use atlanticwave_proto.Topology.Graph.{NetworkX, EdgeAttrs}
use atlanticwave_proto.Topology.Manager.{Manager}
use atlanticwave_proto.Topology.Find.{
  find_vlan_on_tree, try_vlans_on_tree, used_on_points, used_on_edges, vlan_range,
}
use atlanticwave_proto.Topology.Steiner.{
  first_lacking, with_lacking, with_tree, try_trees, find_valid_steiner_tree, length,
}

module _ (N : NetworkX) where
  -- a search that leaves the state as it is
  abbrev Reads : {A : Type 0} → Action (Manager N) A → Type 0
  Reads action = (m : Manager N) → (action m).1 ≡ m

  used_on_points-Reads : (vlan : ℤ) (points : List String) → Reads (used_on_points N vlan points)
  unfolding used_on_points
  used_on_points-Reads vlan [] m = refl
  used_on_points-Reads vlan (point ∷ points) m = ground (arith, used_on_points-Reads vlan points m)

  used_on_edges-Reads :
      (vlan : ℤ) (edges : List (String × String)) → Reads (used_on_edges N vlan edges)
  unfolding used_on_edges
  used_on_edges-Reads vlan [] m = refl
  used_on_edges-Reads vlan (p ∷ edges) m = ground (arith, used_on_edges-Reads vlan edges m)

  try_vlans_on_tree-Reads :
      (tree : N.Graph) (vlans : List ℤ) → Reads (try_vlans_on_tree N tree vlans)
  unfolding try_vlans_on_tree
  try_vlans_on_tree-Reads tree [] m = refl
  try_vlans_on_tree-Reads tree (vlan ∷ vlans) m = ground (
    arith,
    used_on_points-Reads vlan (N.nodes tree) m,
    used_on_edges-Reads vlan (N.edges tree) m,
    try_vlans_on_tree-Reads tree vlans m,
  )

  find_vlan_on_tree-Reads : (tree : N.Graph) → Reads (find_vlan_on_tree N tree)
  unfolding find_vlan_on_tree
  find_vlan_on_tree-Reads tree = try_vlans_on_tree-Reads tree vlan_range

  -- The edge is there, and has the bandwidth.
  abbrev pub HasBw : N.Graph → ℤ → String × String → Type 0
  HasBw topo bw p =
      (e : EdgeAttrs) × (N.edge topo p.0 p.1 ≡ some e) × (e.bw_in_use +ℤ bw ≤ℤ e.weight)

module _ (N : NetworkX) (make_steiner_tree : N.Graph → List String → Result N.Graph)
    (remove_edge : N.Graph → String → String → N.Graph) where
  first_lacking-Reads :
      (bw : Option ℤ) (edges : List (String × String))
      → Reads N (first_lacking N make_steiner_tree remove_edge bw edges)
  unfolding first_lacking
  first_lacking-Reads bw [] m = refl
  first_lacking-Reads bw (p ∷ edges) m = ground (arith, first_lacking-Reads bw edges m)

  first_lacking-none :
      (bw : ℤ) (edges : List (String × String)) (m : Manager N)
      → (first_lacking N make_steiner_tree remove_edge (some bw) edges m).0 ≡ ok none
      → All (HasBw N m.topo bw) edges
  unfolding first_lacking
  first_lacking-none bw [] m e = tt
  first_lacking-none bw (p ∷ edges) m e = elim (Option-cases (N.edge m.topo p.0 p.1)) [
    | inl missing ↦ ground (arith, e)
    | inr (a, there) ↦ elim (Bool-cases (ltb_ℤ a.weight (a.bw_in_use +ℤ bw))) [
      | inl lacks ↦ ground (arith, e)
      | inr enough ↦ ((a, there, ground arith), first_lacking-none bw edges m (ground (arith, e)))
    ]
  ]

  -- a topology without some edges
  abbrev pub without_edges : List (String × String) → N.Graph → N.Graph
  without_edges [] topo = topo
  without_edges ((a, b) ∷ edges) topo = without_edges edges (remove_edge topo a b)

  -- The tree is one of the topology that is left, every edge of it has the bandwidth there, and some
  -- edges are gone from the topology that was searched.
  abbrev pub IsFound : List String → ℤ → N.Graph → N.Graph → N.Graph → Type 0
  IsFound nodes bw before after tree =
      (make_steiner_tree after nodes ≡ ok tree)
      × All (HasBw N after bw) (N.edges tree)
      × ((removed : List (String × String)) × (after ≡ without_edges removed before))

  with_lacking-IsFound :
      (nodes : List String) (bw : ℤ) (made tree : N.Graph)
      (rest : Action (Manager N) (Option N.Graph)) (lacking : Option (String × String))
      (m m' : Manager N)
      → make_steiner_tree m.topo nodes ≡ ok made
      → (first_lacking N make_steiner_tree remove_edge (some bw) (N.edges made) m).0 ≡ ok lacking
      → ((n : Manager N) → rest n ≡ (ok (some tree), m') → IsFound nodes bw n.topo m'.topo tree)
      → with_lacking N make_steiner_tree remove_edge made rest lacking m ≡ (ok (some tree), m')
      → IsFound nodes bw m.topo m'.topo tree
  with_lacking-IsFound nodes bw made tree rest (some (a, b)) m m' h g later e =
      let (is_tree, enough, (removed, same)) =
        later (record m { topo = remove_edge m.topo a b }) e in
      (is_tree, enough, ((a, b) ∷ removed, same))
  with_lacking-IsFound nodes bw made tree rest none m m' h g later e =
      let (vlan, found, e1) =
        action_returns (find_vlan_on_tree N made) (λ vlan. pure (some made)) m (some tree) m' e in
      let same : m ≡ m' = sym (find_vlan_on_tree-Reads N made m) ∙ ap (λ r. r.1) e1 in
      let same_tree : made ≡ tree = cc in
      subst (λ t. IsFound nodes bw m.topo m'.topo t) same_tree
        (subst (λ (n : Manager N). IsFound nodes bw m.topo n.topo made) same
          (h, first_lacking-none bw (N.edges made) m g, ([], refl)))

  with_tree-raises :
      (bw : Option ℤ) (rest : Action (Manager N) (Option N.Graph)) (x : Exception) (tree : N.Graph)
      (m m' : Manager N)
      → with_tree N make_steiner_tree remove_edge bw rest (err x) m ≢ (ok (some tree), m')
  with_tree-raises bw rest x tree m m' e = ground (arith, e)

  try_trees-IsFound :
      (timeout : ℕ) (nodes : List String) (bw : ℤ) (tree : N.Graph) (m m' : Manager N)
      → try_trees N make_steiner_tree remove_edge timeout nodes (some bw) m ≡ (ok (some tree), m')
      → IsFound nodes bw m.topo m'.topo tree
  unfolding try_trees
  try_trees-IsFound zero nodes bw tree m m' e = ground (arith, e)
  try_trees-IsFound (suc timeout) nodes bw tree m m' e =
      let rest = try_trees N make_steiner_tree remove_edge timeout nodes (some bw) in
      elim (Result-cases (make_steiner_tree m.topo nodes)) [
        | inr (x, h) ↦ absurd (
            with_tree-raises (some bw) rest x tree m m' (
              subst
                (λ r.
                  with_tree N make_steiner_tree remove_edge (some bw) rest r m
                  ≡ (ok (some tree), m'))
                h e))
        | inl (made, h) ↦
            let made_e =
              subst
                (λ r.
                  with_tree N make_steiner_tree remove_edge (some bw) rest r m
                  ≡ (ok (some tree), m'))
                h e in
            let search = first_lacking N make_steiner_tree remove_edge (some bw) (N.edges made) in
            let (lacking, g, e1) =
              action_returns search (with_lacking N make_steiner_tree remove_edge made rest) m
                (some tree) m' made_e in
            with_lacking-IsFound nodes bw made tree rest lacking m m' h g
              (λ n later. try_trees-IsFound timeout nodes bw tree n m' later)
              (subst
                (λ n.
                  with_lacking N make_steiner_tree remove_edge made rest lacking n
                  ≡ (ok (some tree), m'))
                (first_lacking-Reads (some bw) (N.edges made) m) e1)
      ]

  -- A tree that is returned is a tree for the nodes in the topology that the search leaves, each edge
  -- of it has the bandwidth there, and the search has removed edges from the topology, if any.
  pub find_valid_steiner_tree-IsFound :
      (nodes : List String) (bw : ℤ) (tree : N.Graph) (m m' : Manager N)
      → find_valid_steiner_tree N make_steiner_tree remove_edge nodes (some bw) m
        ≡ (ok (some tree), m')
      → IsFound nodes bw m.topo m'.topo tree
  unfolding find_valid_steiner_tree
  find_valid_steiner_tree-IsFound nodes bw tree m m' e =
      try_trees-IsFound (length (N.edges m.topo)) nodes bw tree m m' e
