-- ===== src/Topology/Vlans/Laws.antt =====
-- `reserve_vlan` (sdxctlr/TopologyManager.py): when it succeeds and what it does.
use atlanticwave_proto.Prelude.{
  String, ℕ, Option, zero, suc, none, some, List, [], ◌∷◌, ◌++◌, arith, ◌≡◌, ◌≢◌, ◌↔◌, refl, ◌∙◌,
  sym, ap, inl, inr, Option-cases, false, append_assoc, append-nil,
}
use atlanticwave_proto.Prelude.Lists.{All, All-map, contains, replicate}
use atlanticwave_proto.Prelude.Int.{ℤ, int_eq}
use atlanticwave_proto.Prelude.Action.{Exception, ok, err}
use atlanticwave_proto.Topology.Graph.{NodeAttrs, EdgeAttrs, NetworkX}
use atlanticwave_proto.Topology.Graph.Laws.{IsLawful}
use atlanticwave_proto.Topology.Manager.{Manager}
use atlanticwave_proto.Topology.Loops.{times, times_node, after, Frame}
use atlanticwave_proto.Topology.Loops.Edges.{named_edge}
use atlanticwave_proto.Topology.Loops.Nodes.{named_node}
use atlanticwave_proto.Topology.Loops.Sweep.{
  AllPass, NodesComplete, EdgesComplete, sweep_atomic, sweep-iff-AllPass, sweep_effect,
}
use atlanticwave_proto.Topology.Vlans.{
  node_is_free, edge_is_free, append_to_node, append_to_edge, reserve_vlan,
}

-- A list to which the VLAN was appended `k` times.
abbrev pub appended : ℤ → ℕ → List ℤ → List ℤ
appended vlan k xs = xs ++ replicate k vlan

abbrev pub map_vlans : (List ℤ → List ℤ) → Option (List ℤ) → Option (List ℤ)
map_vlans f none = none
map_vlans f (some xs) = some (f xs)

abbrev pub node_appended : ℤ → ℕ → Option NodeAttrs → Option NodeAttrs
node_appended vlan k none = none
node_appended vlan k (some v) =
    some (record v { vlans_in_use = map_vlans (appended vlan k) v.vlans_in_use })

abbrev pub edge_appended : ℤ → ℕ → Option EdgeAttrs → Option EdgeAttrs
edge_appended vlan k none = none
edge_appended vlan k (some e) = some (record e { vlans_in_use = appended vlan k e.vlans_in_use })

-- There is a node with a list of VLANs, and the VLAN is not in it. So for an edge.
abbrev pub FreeNode : ℤ → Option NodeAttrs → Type 0
FreeNode vlan o =
    (v : NodeAttrs) × (xs : List ℤ) × (o ≡ some v)
    × (v.vlans_in_use ≡ some xs)
    × (contains xs vlan ≡ false)

abbrev pub FreeEdge : ℤ → Option EdgeAttrs → Type 0
FreeEdge vlan o = (e : EdgeAttrs) × (o ≡ some e) × (contains e.vlans_in_use vlan ≡ false)

appended_more :
    (vlan : ℤ) (k : ℕ) (xs : List ℤ) → appended vlan k (xs ++ vlan ∷ []) ≡ appended vlan (suc k) xs
appended_more vlan k xs = append_assoc xs (vlan ∷ []) (replicate k vlan)

after-append_to_edge :
    (vlan : ℤ) (k : ℕ) (o : Option EdgeAttrs)
    → after (append_to_edge vlan) k o ≡ edge_appended vlan k o
after-append_to_edge vlan zero none = refl
after-append_to_edge vlan (suc k) none = refl
after-append_to_edge vlan zero (some e) = rw append-nil
after-append_to_edge vlan (suc k) (some e) =
    after-append_to_edge vlan k _ ∙ rw (appended_more vlan k e.vlans_in_use)

map_vlans_zero : (vlan : ℤ) (o : Option (List ℤ)) → map_vlans (appended vlan 0) o ≡ o
map_vlans_zero vlan none = refl
map_vlans_zero vlan (some xs) = rw append-nil

pub node_appended_zero : (vlan : ℤ) (o : Option NodeAttrs) → node_appended vlan 0 o ≡ o
node_appended_zero vlan none = refl
node_appended_zero vlan (some v) =
    ap (λ o. some (record v { vlans_in_use = o })) (map_vlans_zero vlan v.vlans_in_use)

-- Where a node has the list, each turn of the loop appends to it.
after-append_to_node :
    (vlan : ℤ) (k : ℕ) (v : NodeAttrs) (xs : List ℤ)
    → v.vlans_in_use ≡ some xs
    → after (append_to_node vlan) k (some v) ≡ node_appended vlan k (some v)
after-append_to_node vlan zero v xs h = sym (node_appended_zero vlan (some v))
after-append_to_node vlan (suc k) v xs h =
    let step : append_to_node vlan v ≡ ok (record v { vlans_in_use = some (xs ++ vlan ∷ []) }) =
      ground arith in
    rw step (
      after-append_to_node vlan k _ (xs ++ vlan ∷ []) refl
      ∙ ap (λ o. some (record v { vlans_in_use = o }))
          (ap some (appended_more vlan k xs) ∙ ap (map_vlans (appended vlan (suc k))) (sym h)))

-- Where every node is free, the loop over the nodes ends and appends the VLAN.
node_after_free :
    (vlan : ℤ) (k : ℕ) (o : Option NodeAttrs)
    → (k ≢ 0 → FreeNode vlan o)
    → after (append_to_node vlan) k o ≡ node_appended vlan k o
node_after_free vlan zero o h = sym (node_appended_zero vlan o)
node_after_free vlan (suc k) o h =
    let (v, xs, there, list, free) = h (omega arith) in
    rw there (after-append_to_node vlan (suc k) v xs list)

-- An item that is there stays there.
node_appended-ne-none :
    (vlan : ℤ) (k : ℕ) (o : Option NodeAttrs) → o ≢ none → node_appended vlan k o ≢ none
node_appended-ne-none vlan k none h = h
node_appended-ne-none vlan k (some v) h = λ e. cc

edge_appended-ne-none :
    (vlan : ℤ) (k : ℕ) (o : Option EdgeAttrs) → o ≢ none → edge_appended vlan k o ≢ none
edge_appended-ne-none vlan k none h = h
edge_appended-ne-none vlan k (some e) h = λ p. cc

node_is_free-ok :
    (vlan : ℤ) (v : NodeAttrs)
    → node_is_free vlan v ≡ ok tt
    → (xs : List ℤ) × (v.vlans_in_use ≡ some xs) × (contains xs vlan ≡ false)
node_is_free-ok vlan v h = elim (Option-cases v.vlans_in_use) [
  | inl missing ↦ absurd (ground arith)
  | inr (xs, list) ↦ (xs, list, ground arith)
]

module _ (N : NetworkX) (L : IsLawful N) (ns : List String) (ps : List (String × String)) (vlan : ℤ)
    (m : Manager N) where
  -- The VLAN is free at every node and every pair.
  abbrev pub AllFree : Type 0
  AllFree =
      All (λ n. FreeNode vlan (N.node m.topo n)) ns
      × All (λ p. FreeEdge vlan (N.edge m.topo p.0 p.1)) ps

  abbrev Passing : Type 0
  Passing =
      AllPass N L (node_is_free vlan) (edge_is_free vlan) (append_to_node vlan)
        (append_to_edge vlan) ns ps m

  passing-AllFree : Passing → AllFree
  passing-AllFree (hn, he) = (
    All-map
        (λ n (v, there, t).
          let (xs, list, free) = node_is_free-ok vlan v t in (v, xs, there, list, free))
        ns hn,
    All-map (λ p (e, there, t). (e, there, ground arith)) ps he,
  )

  AllFree-passing : AllFree → Passing
  AllFree-passing (hn, he) = (
    All-map (λ n (v, xs, there, list, free). (v, there, ground arith)) ns hn,
    All-map (λ p (e, there, free). (e, there, ground arith)) ps he,
  )

  free_at : AllFree → (n : String) → times_node ns n ≢ 0 → FreeNode vlan (N.node m.topo n)
  free_at h = named_node N (FreeNode vlan) m.topo ns h.0

  -- Where the VLAN is free everywhere the writing loops end.
  complete :
      AllFree
      → NodesComplete N L
          (node_is_free vlan)
          (edge_is_free vlan)
          (append_to_node vlan)
          (append_to_edge vlan)
          ns
          ps
          m
        × EdgesComplete N L
            (node_is_free vlan)
            (edge_is_free vlan)
            (append_to_node vlan)
            (append_to_edge vlan)
            ns
            ps
            m
  complete h = (
    (λ n named.
        let (v, xs, there, list, free) = free_at h n named in
        rw (node_after_free vlan (times_node ns n) (N.node m.topo n) (free_at h n))
          (node_appended-ne-none vlan (times_node ns n) _ (λ gone. cc there))),
    (λ c d named.
        let (e, there, free) = named_edge N L (FreeEdge vlan) m.topo ps h.1 c d named in
        rw (after-append_to_edge vlan (times ps c d))
          (edge_appended-ne-none vlan (times ps c d) _ (λ gone. cc there))),
  )

  -- A VLAN reservation that raises leaves the whole manager as it was.
  pub reserve_vlan_atomic :
      (x : Exception)
      → (reserve_vlan N ns ps vlan m).0 ≡ err x
      → (reserve_vlan N ns ps vlan m).1 ≡ m
  unfolding reserve_vlan
  reserve_vlan_atomic = sweep_atomic N L _ _ _ _ ns ps m (λ h. complete (passing-AllFree h))

  -- It succeeds exactly when the VLAN is free at every node and on every edge of the request.
  pub reserve_vlan-iff-AllFree : ((reserve_vlan N ns ps vlan m).0 ≡ ok tt) ↔ AllFree
  unfolding reserve_vlan
  reserve_vlan-iff-AllFree =
      let passes = sweep-iff-AllPass N L _ _ _ _ ns ps m (λ h. complete (passing-AllFree h)) in
      (λ h. passing-AllFree (passes.0 h), λ h. passes.1 (AllFree-passing h))

  -- It appends the VLAN at each node and edge as often as the request names it, and changes
  -- nothing else.
  pub reserve_vlan_effect :
      (reserve_vlan N ns ps vlan m).0 ≡ ok tt
      → let m' = (reserve_vlan N ns ps vlan m).1 in
        ((n : String) → N.node m'.topo n ≡ node_appended vlan (times_node ns n) (N.node m.topo n))
        × ((c d : String)
            → N.edge m'.topo c d ≡ edge_appended vlan (times ps c d) (N.edge m.topo c d))
        × Frame N m' m
  unfolding reserve_vlan
  reserve_vlan_effect fine =
      let all = (reserve_vlan-iff-AllFree).0 fine in
      let (nodes, edges, frame) =
        sweep_effect N L _ _ _ _ ns ps m (λ h. complete (passing-AllFree h)) fine in
      (
        (λ n. nodes n ∙ node_after_free vlan (times_node ns n) _ (free_at all n)),
        (λ c d. edges c d ∙ after-append_to_edge vlan (times ps c d) _),
        frame,
      )
