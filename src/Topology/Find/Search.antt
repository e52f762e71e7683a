-- ===== src/Topology/Find/Search.antt =====
-- `find_vlan_on_path` (sdxctlr/TopologyManager.py) is sound and complete, and what it finds can be
-- reserved.
use text.Mathlib.TextEquality.{eq_iff}
use atlanticwave_proto.Prelude.{
  String, Option, none, some, List, [], ◌∷◌, arith, ◌≡◌, refl, ◌∙◌, sym, subst, true, false,
  Bool-cases, inl, inr, not, ◌&&◌,
}
use atlanticwave_proto.Prelude.Lists.{All, All-map, contains, pairs}
use atlanticwave_proto.Prelude.Int.{
  ℤ, pos, ◌-ℤ◌, ◌≤ℤ◌, ltb_ℤ, int_eq, eqb_ℤ, pos_part, eqb_ℤ_iff, +ℤ_parts, -ℤ_parts,
}
use atlanticwave_proto.Prelude.Action.{Exception, Result, ok, err, Result-cases}
use atlanticwave_proto.Topology.Graph.{NodeAttrs, NetworkX}
use atlanticwave_proto.Topology.Graph.Laws.{IsLawful}
use atlanticwave_proto.Topology.Manager.{Manager}
use atlanticwave_proto.Topology.Available.Cache.{IsCached}
use atlanticwave_proto.Topology.Available.Ranges.{contains-range_from}
use atlanticwave_proto.Topology.Resources.{reserve_vlan_on_path}
use atlanticwave_proto.Topology.Vlans.Laws.{FreeNode, FreeEdge, reserve_vlan-iff-AllFree}
use atlanticwave_proto.Topology.Find.{
  vlan_range, used_on_points, closed_on_edges, try_vlans_on_path, find_vlan_on_path,
}
use atlanticwave_proto.Topology.Find.Points.{
  FreePoint, OpenEdge, used_on_points_same, used_on_points-false, used_on_points-true, Reads,
  closed_on_edges_lem,
}

-- The VLAN is free at every point of the path, and free and allowed on every edge of it.
abbrev pub IsUsable : (N : NetworkX) → N.Graph → List String → ℤ → Type 0
IsUsable N g path vlan =
    All (λ n. FreePoint vlan (N.node g n)) path
    × All (λ p. OpenEdge vlan (N.edge g p.0 p.1)) (pairs path)

-- There is a node, and it is a switch.
abbrev pub IsSwitch : Option NodeAttrs → Type 0
IsSwitch o = (v : NodeAttrs) × (o ≡ some v) × (v.kind ≡ some "switch")

FreePoint-FreeNode :
    (vlan : ℤ) (o : Option NodeAttrs) → IsSwitch o → FreePoint vlan o → FreeNode vlan o
FreePoint-FreeNode vlan o (v', there', switch) (v, kind, there, typed, inl other) =
    absurd (ground (arith, eq_iff kind "switch"))
FreePoint-FreeNode vlan o (v', there', switch) (v, kind, there, typed, inr (xs, list, free)) =
    (v, xs, there, list, free)

-- `range(1, 4089)` holds the VLANs from 1 to 4088.
contains-vlan_range :
    (v : ℤ) → contains vlan_range v ≡ (not (ltb_ℤ v (pos 1)) && ltb_ℤ v (pos 4089))
unfolding vlan_range
contains-vlan_range v =
    contains-range_from _ (pos 1) v
    ∙ ground
        (arith, -ℤ_parts (pos 4089) (pos 1), +ℤ_parts (pos 1) (pos (pos_part (pos 4089 -ℤ pos 1))))

module _ (N : NetworkX) (g : N.Graph) (path : List String) where
  -- What a search over some candidates answers.
  abbrev Finds : List ℤ → Result (Option ℤ) × Manager N → Type 0
  Finds vlans (r, m') =
      Reads N g m'
      × ((v : ℤ) → r ≡ ok (some v) → (contains vlans v ≡ true) × IsUsable N g path v)
      × ((v : ℤ) → r ≡ ok none → contains vlans v ≡ true → ¬ IsUsable N g path v)

  Finds-err :
      (vlans : List ℤ) (x : Exception) (m : Manager N) → Reads N g m → Finds vlans (err x, m)
  Finds-err vlans x m h = (h, λ v e. absurd (cc), λ v e. absurd (cc))

  Finds-skip :
      (vlan : ℤ) (vlans : List ℤ) (r : Result (Option ℤ) × Manager N)
      → ¬ IsUsable N g path vlan
      → Finds vlans r
      → Finds (vlan ∷ vlans) r
  Finds-skip vlan vlans r unusable (h, hit, miss) = (
    h,
    λ v e. let (among, usable) = hit v e in (ground arith, usable),
    λ v e among usable. elim (Bool-cases (eqb_ℤ v vlan)) [
      | inl same ↦ unusable (subst (IsUsable N g path) ((eqb_ℤ_iff v vlan).0 same) usable)
      | inr other ↦ miss v e (ground arith) usable
    ],
  )

  Finds-hit :
      (vlan : ℤ) (vlans : List ℤ) (m : Manager N)
      → Reads N g m
      → IsUsable N g path vlan
      → Finds (vlan ∷ vlans) (ok (some vlan), m)
  Finds-hit vlan vlans m h usable = (
    h,
    λ v e.
        let same : vlan ≡ v = cc in
        (ground (arith, eqb_ℤ_iff v vlan), subst (IsUsable N g path) same usable),
    λ v e. absurd (cc),
  )

  module _ (vlan : ℤ) (m : Manager N) (h : Reads N g m) where
    points_free :
        (used_on_points N vlan path m).0 ≡ ok false → All (λ n. FreePoint vlan (N.node g n)) path
    points_free e =
        subst (λ t. All (λ n. FreePoint vlan (N.node t n)) path) h.0
          (used_on_points-false N vlan path m e)

    points_used : (used_on_points N vlan path m).0 ≡ ok true → ¬ IsUsable N g path vlan
    points_used e usable =
        used_on_points-true N vlan path m e
          (subst (λ t. All (λ n. FreePoint vlan (N.node t n)) path) (sym h.0) usable.0)

  try_vlans_on_path_lem :
      (vlans : List ℤ) (m : Manager N)
      → Reads N g m
      → Finds vlans (try_vlans_on_path N path vlans m)
  unfolding try_vlans_on_path
  try_vlans_on_path_lem [] m h = (h, λ v e. absurd (cc), λ v e c. absurd (cc))
  try_vlans_on_path_lem (vlan ∷ vlans) m h =
      let still = used_on_points_same N vlan path m in
      let next = closed_on_edges_lem N vlan g (pairs path) m h in
      let m1 = (closed_on_edges N vlan (pairs path) m).1 in
      let whole = try_vlans_on_path N path (vlan ∷ vlans) m in
      elim (Result-cases (used_on_points N vlan path m).0) [
        | inr (x, bad) ↦
            let same : whole ≡ (err x, m) = ground arith in rw same (Finds-err (vlan ∷ vlans) x m h)
        | inl (true, used) ↦
            let same : whole ≡ try_vlans_on_path N path vlans m = ground arith in
            rw same (
              Finds-skip vlan vlans _ (points_used vlan m h used) (try_vlans_on_path_lem vlans m h))
        | inl (false, unused) ↦ elim (Result-cases (closed_on_edges N vlan (pairs path) m).0) [
          | inr (x, bad) ↦
              let same : whole ≡ (err x, m1) = ground arith in
              rw same (Finds-err (vlan ∷ vlans) x m1 next.0)
          | inl (true, closed) ↦
              let same : whole ≡ try_vlans_on_path N path vlans m1 = ground arith in
              rw same (
                Finds-skip vlan vlans _ (λ usable. next.2 closed usable.1)
                  (try_vlans_on_path_lem vlans m1 next.0))
          | inl (false, open_) ↦
              let same : whole ≡ (ok (some vlan), m1) = ground arith in
              rw same (Finds-hit vlan vlans m1 next.0 (points_free vlan m h unused, next.1 open_))
        ]
      ]

module _ (N : NetworkX) (path : List String) (m : Manager N) (c : IsCached m.cached_vlans) where
  found : Finds N m.topo path vlan_range (find_vlan_on_path N path m)
  unfolding find_vlan_on_path
  found = try_vlans_on_path_lem N m.topo path vlan_range m (refl, c)

  -- From a valid cache, a search for a VLAN leaves the topology as it is and the cache valid, also
  -- if it raises.
  pub find_vlan_on_path_same :
      let m' = (find_vlan_on_path N path m).1 in (m'.topo ≡ m.topo) × IsCached m'.cached_vlans
  find_vlan_on_path_same = found.0

  -- A VLAN that the search returns lies between 1 and 4088, is in use on no switch of the path,
  -- and on every edge of the path it is not in use and allowed.
  pub find_vlan_on_path_sound :
      (v : ℤ)
      → (find_vlan_on_path N path m).0 ≡ ok (some v)
      → (pos 1 ≤ℤ v) × (v ≤ℤ pos 4088) × IsUsable N m.topo path v
  find_vlan_on_path_sound v e =
      let (among, usable) = found.1 v e in
      let range = contains-vlan_range v in (ground arith, ground arith, usable)

  -- Where the search returns no VLAN, no VLAN between 1 and 4088 could be used on the path.
  pub find_vlan_on_path_complete :
      (v : ℤ)
      → (find_vlan_on_path N path m).0 ≡ ok none
      → pos 1 ≤ℤ v
      → v ≤ℤ pos 4088
      → ¬ IsUsable N m.topo path v
  find_vlan_on_path_complete v e low high =
      let range = contains-vlan_range v in found.2 v e (ground arith)

  -- Where every point of the path is a switch, a VLAN that the search returns can be reserved on the
  -- path in the state that the search leaves.
  pub find_vlan_on_path-reserve :
      (v : ℤ)
      → IsLawful N
      → All (λ n. IsSwitch (N.node m.topo n)) path
      → (find_vlan_on_path N path m).0 ≡ ok (some v)
      → (reserve_vlan_on_path N path v (find_vlan_on_path N path m).1).0 ≡ ok tt
  unfolding reserve_vlan_on_path
  find_vlan_on_path-reserve v L switches e =
      let m' = (find_vlan_on_path N path m).1 in
      let (points, edges) = (found.1 v e).1 in
      (reserve_vlan-iff-AllFree N L path (pairs path) v m').1 (
        subst (λ t. All (λ n. FreeNode v (N.node t n)) path) (sym found.0.0)
            (switches_free v path switches points),
        subst (λ t. All (λ p. FreeEdge v (N.edge t p.0 p.1)) (pairs path)) (sym found.0.0)
            (All-map (λ p (e', l, there, free, parsed, r). (e', there, free)) (pairs path) edges),
      )
    where
      switches_free :
          (v : ℤ) (ns : List String)
          → All (λ n. IsSwitch (N.node m.topo n)) ns
          → All (λ n. FreePoint v (N.node m.topo n)) ns
          → All (λ n. FreeNode v (N.node m.topo n)) ns
      switches_free v [] s f = tt
      switches_free v (n ∷ ns) s f =
          (FreePoint-FreeNode v (N.node m.topo n) s.0 f.0, switches_free v ns s.1 f.1)
