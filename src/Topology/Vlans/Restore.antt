-- ===== src/Topology/Vlans/Restore.antt =====
-- A release of a VLAN undoes the reservation (`unreserve_vlan` of sdxctlr/TopologyManager.py).
use atlanticwave_proto.Prelude.{
  String, ℕ, Option, zero, suc, none, some, List, arith, ◌≡◌, ◌≢◌, refl, ◌∙◌, false, append-nil,
}
use atlanticwave_proto.Prelude.Lists.{All-map, contains, remove, replicate, remove-append_new}
use atlanticwave_proto.Prelude.Int.{ℤ, int_eq}
use atlanticwave_proto.Prelude.Action.{ok}
use atlanticwave_proto.Topology.Graph.{NodeAttrs, EdgeAttrs, NetworkX}
use atlanticwave_proto.Topology.Graph.Laws.{IsLawful}
use atlanticwave_proto.Topology.Manager.{Manager}
use atlanticwave_proto.Topology.Loops.{times, times_node, after, Same, Frame-trans}
use atlanticwave_proto.Topology.Loops.Edges
use atlanticwave_proto.Topology.Loops.Nodes
use atlanticwave_proto.Topology.Loops.Sweep.{
  AllPass, NodesComplete, EdgesComplete, sweep-iff-AllPass, sweep_effect,
}
use atlanticwave_proto.Topology.Vlans.{
  node_is_reserved, edge_is_reserved, remove_from_node, remove_from_edge, reserve_vlan,
  unreserve_vlan,
}
use atlanticwave_proto.Topology.Vlans.Laws.{
  appended, node_appended, node_appended_zero, edge_appended, FreeNode, FreeEdge, AllFree,
  reserve_vlan-iff-AllFree, reserve_vlan_effect,
}
use atlanticwave_proto.Topology.Vlans.Exclusive.{contains-appended_self}

remove-appended :
    (vlan : ℤ) (k : ℕ) (xs : List ℤ)
    → contains xs vlan ≡ false
    → remove (appended vlan (suc k) xs) vlan ≡ some (appended vlan k xs)
remove-appended vlan k xs free = remove-append_new xs (replicate k vlan) vlan free

-- `k` removals undo `k` appends.
after-remove_from_edge :
    (vlan : ℤ) (k : ℕ) (e : EdgeAttrs)
    → contains e.vlans_in_use vlan ≡ false
    → after (remove_from_edge vlan) k (edge_appended vlan k (some e)) ≡ some e
after-remove_from_edge vlan zero e free = rw append-nil
after-remove_from_edge vlan (suc k) e free =
    rw (remove-appended vlan k e.vlans_in_use free, remove_from_edge)
      (after-remove_from_edge vlan k e free)

after-remove_list :
    (vlan : ℤ) (k : ℕ) (v : NodeAttrs) (xs : List ℤ)
    → contains xs vlan ≡ false
    → after (remove_from_node vlan) k (some (record v { vlans_in_use = some (appended vlan k xs) }))
      ≡ some (record v { vlans_in_use = some xs })
after-remove_list vlan zero v xs free = rw append-nil
after-remove_list vlan (suc k) v xs free =
    rw (remove-appended vlan k xs free, remove_from_node) (after-remove_list vlan k v xs free)

edge_restored :
    (vlan : ℤ) (k : ℕ) (o : Option EdgeAttrs)
    → (k ≢ 0 → FreeEdge vlan o)
    → after (remove_from_edge vlan) k (edge_appended vlan k o) ≡ o
edge_restored vlan zero none h = refl
edge_restored vlan zero (some e) h = rw append-nil
edge_restored vlan (suc k) o h =
    let (e, there, free) = h (omega arith) in rw there (after-remove_from_edge vlan (suc k) e free)

node_restored :
    (vlan : ℤ) (k : ℕ) (o : Option NodeAttrs)
    → (k ≢ 0 → FreeNode vlan o)
    → after (remove_from_node vlan) k (node_appended vlan k o) ≡ o
node_restored vlan zero o h = node_appended_zero vlan o
node_restored vlan (suc k) o h =
    let (v, xs, there, list, free) = h (omega arith) in
    rw (there, list, after-remove_list vlan (suc k) v xs free)

-- After `k` appends the test of `unreserve_vlan` passes.
edge_passes :
    (vlan : ℤ) (k : ℕ) (o : Option EdgeAttrs)
    → k ≢ 0
    → FreeEdge vlan o
    → Edges.PassesAt (edge_is_reserved vlan) (edge_appended vlan k o)
edge_passes vlan k o named (e, there, free) = rw there (
  record e { vlans_in_use = appended vlan k e.vlans_in_use },
  refl,
  rw (contains-appended_self vlan k e.vlans_in_use named),
)

node_passes :
    (vlan : ℤ) (k : ℕ) (o : Option NodeAttrs)
    → k ≢ 0
    → FreeNode vlan o
    → Nodes.PassesAt (node_is_reserved vlan) (node_appended vlan k o)
node_passes vlan k o named (v, xs, there, list, free) =
    rw (there, list)
      (
        record v { vlans_in_use = some (appended vlan k xs) },
        refl,
        rw (contains-appended_self vlan k xs named),
      )

module _ (N : NetworkX) (L : IsLawful N) (ns : List String) (ps : List (String × String)) (vlan : ℤ)
    (m : Manager N) (fine : (reserve_vlan N ns ps vlan m).0 ≡ ok tt) where
  reserved : Manager N
  reserved = (reserve_vlan N ns ps vlan m).1

  free : AllFree N L ns ps vlan m
  free = (reserve_vlan-iff-AllFree N L ns ps vlan m).0 fine

  free_node : (n : String) → times_node ns n ≢ 0 → FreeNode vlan (N.node m.topo n)
  free_node = Nodes.named_node N (FreeNode vlan) m.topo ns free.0

  free_edge : (c d : String) → times ps c d ≢ 0 → FreeEdge vlan (N.edge m.topo c d)
  free_edge = Edges.named_edge N L (FreeEdge vlan) m.topo ps free.1

  node_at_reserved :
      (n : String) → N.node reserved.topo n ≡ node_appended vlan (times_node ns n) (N.node m.topo n)
  unfolding reserved
  node_at_reserved = (reserve_vlan_effect N L ns ps vlan m fine).0

  edge_at_reserved :
      (c d : String)
      → N.edge reserved.topo c d ≡ edge_appended vlan (times ps c d) (N.edge m.topo c d)
  unfolding reserved
  edge_at_reserved = (reserve_vlan_effect N L ns ps vlan m fine).1

  node_back :
      (n : String)
      → after (remove_from_node vlan) (times_node ns n) (N.node reserved.topo n) ≡ N.node m.topo n
  node_back n =
      rw (node_at_reserved n) (node_restored vlan (times_node ns n) (N.node m.topo n) (free_node n))

  edge_back :
      (c d : String)
      → after (remove_from_edge vlan) (times ps c d) (N.edge reserved.topo c d) ≡ N.edge m.topo c d
  edge_back c d =
      rw (edge_at_reserved c d)
        (edge_restored vlan (times ps c d) (N.edge m.topo c d) (free_edge c d))

  node_pass :
      (n : String)
      → times_node ns n ≢ 0
      → Nodes.PassesAt (node_is_reserved vlan) (N.node reserved.topo n)
  node_pass n named = rw (node_at_reserved n) (node_passes vlan _ _ named (free_node n named))

  edge_pass :
      (p : String × String)
      → times ps p.0 p.1 ≢ 0
      → Edges.PassesAt (edge_is_reserved vlan) (N.edge reserved.topo p.0 p.1)
  edge_pass (c, d) named =
      rw (edge_at_reserved c d) (edge_passes vlan _ _ named (free_edge c d named))

  passes :
      AllPass N L
        (node_is_reserved vlan)
        (edge_is_reserved vlan)
        (remove_from_node vlan)
        (remove_from_edge vlan)
        ns
        ps
        reserved
  passes = (All-map node_pass ns (Nodes.All-named ns), All-map edge_pass ps (Edges.All-named ps))

  completes :
      NodesComplete N L
        (node_is_reserved vlan)
        (edge_is_reserved vlan)
        (remove_from_node vlan)
        (remove_from_edge vlan)
        ns
        ps
        reserved
      × EdgesComplete N L
          (node_is_reserved vlan)
          (edge_is_reserved vlan)
          (remove_from_node vlan)
          (remove_from_edge vlan)
          ns
          ps
          reserved
  completes = (
    (λ n named. let (v, xs, there, list, r) = free_node n named in rw (node_back n) (λ gone. cc)),
    (λ c d named. let (e, there, r) = free_edge c d named in rw (edge_back c d) (λ gone. cc)),
  )

  -- A release right after a successful reservation of a VLAN succeeds, and every node and every
  -- edge reads as before the reservation.
  pub unreserve_vlan-reserve_vlan :
      let (r, m') = unreserve_vlan N ns ps vlan (reserve_vlan N ns ps vlan m).1 in
      (r ≡ ok tt) × Same N m' m
  unfolding unreserve_vlan reserved
  unreserve_vlan-reserve_vlan =
      let again = (sweep-iff-AllPass N L _ _ _ _ ns ps reserved (λ h. completes)).1 passes in
      let (nodes, edges, frame) = sweep_effect N L _ _ _ _ ns ps reserved (λ h. completes) again in
      (
        again,
        record {
          nodes = λ n. nodes n ∙ node_back n;
          edges = λ c d. edges c d ∙ edge_back c d;
          frame = Frame-trans N frame (reserve_vlan_effect N L ns ps vlan m fine).2;
        },
      )
