-- ===== src/Topology/Loops/Sweep.antt =====
-- Two checking loops, over nodes and over pairs of nodes, and then two writing loops:
-- `reserve_vlan` and `unreserve_vlan` of sdxctlr/TopologyManager.py have this shape.
use atlanticwave_proto.Prelude.{String, none, List, arith, ◌≡◌, ◌≢◌, ◌⊎◌, ◌↔◌, ◌∙◌, ap, inl, inr}
use atlanticwave_proto.Prelude.Lists.{All}
use atlanticwave_proto.Prelude.Action.{Action, Exception, Result, ok, err, ◌>>◌, checked-cases}
use atlanticwave_proto.Topology.Graph.{NodeAttrs, EdgeAttrs, NetworkX}
use atlanticwave_proto.Topology.Graph.Laws.{IsLawful}
use atlanticwave_proto.Topology.Manager.{Manager}
use atlanticwave_proto.Topology.Loops.{
  times, times_node, after, check_nodes, check_edges, update_nodes, update_edges, Frame,
  Frame-trans,
}
use atlanticwave_proto.Topology.Loops.Nodes
use atlanticwave_proto.Topology.Loops.Edges

module _ (N : NetworkX) (L : IsLawful N) (tn : NodeAttrs → Result (Unit {0}))
    (te : EdgeAttrs → Result (Unit {0})) (bn : NodeAttrs → Result NodeAttrs)
    (be : EdgeAttrs → Result EdgeAttrs) (ns : List String) (ps : List (String × String))
    (m : Manager N) where
  abbrev pub writes : Action (Manager N) (Unit {0})
  writes = update_nodes N bn ns >> update_edges N be ps

  abbrev pub sweep : Action (Manager N) (Unit {0})
  sweep = do check_nodes N tn ns; check_edges N te ps; update_nodes N bn ns; update_edges N be ps

  abbrev pub AllPass : Type 0
  AllPass = All (Nodes.Passes N tn m) ns × All (Edges.Passes N te m) ps

  -- The bodies do not raise at the dictionaries that are named.
  abbrev pub NodesComplete : Type 0
  NodesComplete =
      (n : String) → times_node ns n ≢ 0 → after bn (times_node ns n) (N.node m.topo n) ≢ none

  abbrev pub EdgesComplete : Type 0
  EdgesComplete =
      (c d : String) → times ps c d ≢ 0 → after be (times ps c d) (N.edge m.topo c d) ≢ none

  pub sweep-cases :
      ((x : Exception) × (sweep m ≡ (err x, m)) × ¬ AllPass) ⊎ AllPass × (sweep m ≡ writes m)
  sweep-cases =
      elim (checked-cases (check_nodes N tn ns) (check_edges N te ps >> writes) m
        (Nodes.check_nodes_same N tn ns m)) [
          | inl (x, raised, all) ↦ inl (x, all, λ h. cc (Nodes.Passes-check_nodes N tn ns m h.0))
          | inr (free, all) ↦
              elim (checked-cases (check_edges N te ps) writes m
                (Edges.check_edges_same N te ps m)) [
                  | inl (x, raised, all') ↦
                      inl (x, all ∙ all', λ h. cc (Edges.Passes-check_edges N te ps m h.1))
                  | inr (clear, all') ↦ inr (
                    (
                      Nodes.check_nodes-Passes N tn ns m free,
                      Edges.check_edges-Passes N te ps m clear,
                    ),
                    all ∙ all',
                  )
                ]
        ]

  middle : Manager N
  middle = (update_nodes N bn ns m).1

  middle_frame : (c d : String) → N.edge middle.topo c d ≡ N.edge m.topo c d
  unfolding middle
  middle_frame = Nodes.update_nodes_frame N L bn ns m

  middle-Frame : Frame N middle m
  unfolding middle
  middle-Frame = Nodes.update_nodes-Frame N L bn ns m

  writes_split : NodesComplete → writes m ≡ update_edges N be ps middle
  unfolding middle
  writes_split hn = let fine = Nodes.update_nodes_ok N L bn ns m hn in ground arith

  edges_complete : EdgesComplete → (update_edges N be ps middle).0 ≡ ok tt
  edges_complete he =
      Edges.update_edges_ok N L be ps middle (λ c d named. rw (middle_frame c d) (he c d named))

  middle_node :
      NodesComplete
      → (n : String) → N.node middle.topo n ≡ after bn (times_node ns n) (N.node m.topo n)
  unfolding middle
  middle_node hn = Nodes.update_nodes_effect N L bn ns m (Nodes.update_nodes_ok N L bn ns m hn)

  writes_ok : NodesComplete → EdgesComplete → (writes m).0 ≡ ok tt
  writes_ok hn he = ap (λ r. r.0) (writes_split hn) ∙ edges_complete he

  writes_effect :
      NodesComplete
      → EdgesComplete
      → ((n : String) → N.node (writes m).1.topo n ≡ after bn (times_node ns n) (N.node m.topo n))
        × ((c d : String)
            → N.edge (writes m).1.topo c d ≡ after be (times ps c d) (N.edge m.topo c d))
        × Frame N (writes m).1 m
  writes_effect hn he = rw (writes_split hn) (
    (λ n. Edges.update_edges_frame N L be ps middle n ∙ middle_node hn n),
    (λ c d.
        Edges.update_edges_effect N L be ps middle (edges_complete he) c d
        ∙ ap (after be (times ps c d)) (middle_frame c d)),
    Frame-trans N (Edges.update_edges-Frame N L be ps middle) middle-Frame,
  )

  module _ (complete : AllPass → NodesComplete × EdgesComplete) where
    pub sweep_atomic : (x : Exception) → (sweep m).0 ≡ err x → (sweep m).1 ≡ m
    sweep_atomic x h = elim sweep-cases [
      | inl (y, refused, _) ↦ ap (λ r. r.1) refused
      | inr (pass, all) ↦ let (hn, he) = complete pass in cc (all, writes_ok hn he)
    ]

    pub sweep-iff-AllPass : ((sweep m).0 ≡ ok tt) ↔ AllPass
    sweep-iff-AllPass = elim sweep-cases [
      | inl (y, refused, no_pass) ↦ (λ h. cc refused, λ h. absurd (no_pass h))
      | inr (pass, all) ↦
          let (hn, he) = complete pass in (λ h. pass, λ h. ap (λ r. r.0) all ∙ writes_ok hn he)
    ]

    pub sweep_effect :
        (sweep m).0 ≡ ok tt
        → ((n : String) → N.node (sweep m).1.topo n ≡ after bn (times_node ns n) (N.node m.topo n))
          × ((c d : String)
              → N.edge (sweep m).1.topo c d ≡ after be (times ps c d) (N.edge m.topo c d))
          × Frame N (sweep m).1 m
    sweep_effect h = elim sweep-cases [
      | inl (y, refused, _) ↦ absurd (cc refused)
      | inr (pass, all) ↦ let (hn, he) = complete pass in rw all (writes_effect hn he)
    ]
