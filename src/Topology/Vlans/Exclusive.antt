-- ===== src/Topology/Vlans/Exclusive.antt =====
-- A reserved VLAN cannot be reserved again where it is in use, and reservations of different VLANs
-- do not disturb one another (`reserve_vlan` of sdxctlr/TopologyManager.py).
use atlanticwave_proto.Prelude.{
  String, ℕ, Option, none, some, List, arith, ◌≡◌, ◌≢◌, ◌↔◌, refl, Option-cases, inl, inr, true,
}
use atlanticwave_proto.Prelude.Lists.{
  All-map, contains, replicate, contains-append, contains-replicate_self, contains-replicate_ne,
}
use atlanticwave_proto.Prelude.Int.{ℤ, int_eq}
use atlanticwave_proto.Prelude.Action.{ok}
use atlanticwave_proto.Topology.Graph.{NodeAttrs, EdgeAttrs, NetworkX}
use atlanticwave_proto.Topology.Graph.Laws.{IsLawful}
use atlanticwave_proto.Topology.Manager.{Manager}
use atlanticwave_proto.Topology.Loops.{times, times_node}
use atlanticwave_proto.Topology.Loops.Edges.{named_edge}
use atlanticwave_proto.Topology.Vlans.{reserve_vlan}
use atlanticwave_proto.Topology.Vlans.Laws.{
  appended, node_appended, edge_appended, FreeNode, FreeEdge, reserve_vlan-iff-AllFree,
  reserve_vlan_effect,
}

pub contains-appended_self :
    (vlan : ℤ) (k : ℕ) (xs : List ℤ) → k ≢ 0 → contains (appended vlan k xs) vlan ≡ true
contains-appended_self vlan k xs h =
    rw (contains-append xs (replicate k vlan) vlan, contains-replicate_self k vlan h) (ground arith)

contains-appended_ne :
    (vlan w : ℤ) (k : ℕ) (xs : List ℤ) → w ≢ vlan → contains (appended vlan k xs) w ≡ contains xs w
contains-appended_ne vlan w k xs h =
    rw (contains-append xs (replicate k vlan) w, contains-replicate_ne k vlan w h) (ground arith)

not-FreeEdge-appended :
    (vlan : ℤ) (k : ℕ) (o : Option EdgeAttrs) → k ≢ 0 → ¬ FreeEdge vlan (edge_appended vlan k o)
not-FreeEdge-appended vlan k none h (e, there, free) = cc
not-FreeEdge-appended vlan k (some e') h (e, there, free) =
    ground (arith, contains-appended_self vlan k e'.vlans_in_use h)

FreeEdge-appended_ne :
    (vlan w : ℤ) (k : ℕ) (o : Option EdgeAttrs)
    → w ≢ vlan
    → FreeEdge w (edge_appended vlan k o) ↔ FreeEdge w o
FreeEdge-appended_ne vlan w k none h =
    (λ (e, there, free). absurd (cc), λ (e, there, free). absurd (cc))
FreeEdge-appended_ne vlan w k (some v) h =
    let same = contains-appended_ne vlan w k v.vlans_in_use h in
    (λ (e, there, free). (v, refl, ground arith), λ (e, there, free). (_, refl, ground arith))

FreeNode-appended_ne :
    (vlan w : ℤ) (k : ℕ) (o : Option NodeAttrs)
    → w ≢ vlan
    → FreeNode w (node_appended vlan k o) ↔ FreeNode w o
FreeNode-appended_ne vlan w k none h =
    (λ (v, xs, there, list, free). absurd (cc), λ (v, xs, there, list, free). absurd (cc))
FreeNode-appended_ne vlan w k (some v) h = elim (Option-cases v.vlans_in_use) [
  | inl missing ↦ (
    λ (v', xs', there, list, free). absurd (ground arith),
    λ (v', xs', there, list, free). absurd (ground arith),
  )
  | inr (xs, list) ↦
      let same = contains-appended_ne vlan w k xs h in
      (
        λ (v', xs', there, list', free). (v, xs, refl, list, ground arith),
        λ (v', xs', there, list', free). (_, appended vlan k xs, refl, ground arith, ground arith),
      )
]

module _ (N : NetworkX) (L : IsLawful N) (ns : List String) (ps : List (String × String)) (vlan : ℤ)
    (m : Manager N) where
  -- Once a VLAN is reserved along some pairs, no request for the same VLAN that names one of those
  -- edges succeeds.
  pub reserve_vlan_exclusive :
      (ms : List String) (qs : List (String × String)) (c d : String)
      → (reserve_vlan N ns ps vlan m).0 ≡ ok tt
      → times ps c d ≢ 0
      → times qs c d ≢ 0
      → (reserve_vlan N ms qs vlan (reserve_vlan N ns ps vlan m).1).0 ≢ ok tt
  reserve_vlan_exclusive ms qs c d fine named again second =
      let m1 = (reserve_vlan N ns ps vlan m).1 in
      let free =
        named_edge N L (FreeEdge vlan) m1.topo qs
          ((reserve_vlan-iff-AllFree N L ms qs vlan m1).0 second).1 c d again in
      not-FreeEdge-appended vlan (times ps c d) (N.edge m.topo c d) named
        (rw ((reserve_vlan_effect N L ns ps vlan m fine).1 c d) at free)

  node_same :
      (w : ℤ)
      → w ≢ vlan
      → (reserve_vlan N ns ps vlan m).0 ≡ ok tt
      → (n : String)
      → FreeNode w (N.node (reserve_vlan N ns ps vlan m).1.topo n) ↔ FreeNode w (N.node m.topo n)
  node_same w other fine n =
      rw ((reserve_vlan_effect N L ns ps vlan m fine).0 n)
        (FreeNode-appended_ne vlan w (times_node ns n) _ other)

  edge_same :
      (w : ℤ)
      → w ≢ vlan
      → (reserve_vlan N ns ps vlan m).0 ≡ ok tt
      → (c d : String)
      → FreeEdge w (N.edge (reserve_vlan N ns ps vlan m).1.topo c d)
        ↔ FreeEdge w (N.edge m.topo c d)
  edge_same w other fine c d =
      rw ((reserve_vlan_effect N L ns ps vlan m fine).1 c d)
        (FreeEdge-appended_ne vlan w (times ps c d) _ other)

  -- A reservation of one VLAN makes no difference to whether another VLAN can be reserved.
  pub reserve_vlan_independent :
      (ms : List String) (qs : List (String × String)) (w : ℤ)
      → w ≢ vlan
      → (reserve_vlan N ns ps vlan m).0 ≡ ok tt
      → ((reserve_vlan N ms qs w (reserve_vlan N ns ps vlan m).1).0 ≡ ok tt)
        ↔ ((reserve_vlan N ms qs w m).0 ≡ ok tt)
  reserve_vlan_independent ms qs w other fine =
      let m1 = (reserve_vlan N ns ps vlan m).1 in
      let before = reserve_vlan-iff-AllFree N L ms qs w m in
      let later = reserve_vlan-iff-AllFree N L ms qs w m1 in
      (
        (λ h.
            let (hn, he) = later.0 h in
            before.1 (
              All-map (λ n. (node_same w other fine n).0) ms hn,
              All-map (λ p. (edge_same w other fine p.0 p.1).0) qs he,
            )),
        (λ h.
            let (hn, he) = before.0 h in
            later.1 (
              All-map (λ n. (node_same w other fine n).1) ms hn,
              All-map (λ p. (edge_same w other fine p.0 p.1).1) qs he,
            )),
      )
