-- ===== src/Topology/Resources/Release.antt =====
-- Reserving a resource is atomic, and releasing it restores the topology (`reserve_resource`,
-- `unreserve_resource` of sdxctlr/TopologyManager.py).
use atlanticwave_proto.Prelude.{
  String, ℕ, Option, none, some, List, [], ◌∷◌, arith, ◌≡◌, refl, ◌∙◌, ap, ◌⊎◌, Option-cases, inl,
  inr,
}
use mathlib.Core.Option
use atlanticwave_proto.Prelude.Int.{ℤ, pos, ◌≤ℤ◌}
use atlanticwave_proto.Prelude.Action.{Action, Exception, Result, ok, err}
use atlanticwave_proto.Topology.Graph.{EdgeAttrs, NetworkX}
use atlanticwave_proto.Topology.Graph.Laws.{IsLawful}
use atlanticwave_proto.Topology.Manager.{Manager}
use atlanticwave_proto.Topology.Loops.{times, Same}
use atlanticwave_proto.Topology.Bandwidth.{reserve_bw, unreserve_bw}
use atlanticwave_proto.Topology.Bandwidth.Laws.{charged, reserve_bw_atomic, reserve_bw_effect}
use atlanticwave_proto.Topology.Bandwidth.Capacity.{IsWithin, unreserve_bw-reserve_bw}
use atlanticwave_proto.Topology.Vlans.{reserve_vlan, unreserve_vlan}
use atlanticwave_proto.Topology.Vlans.Laws.{edge_appended, reserve_vlan_atomic, reserve_vlan_effect}
use atlanticwave_proto.Topology.Vlans.Restore.{unreserve_vlan-reserve_vlan}
use atlanticwave_proto.Topology.Resources.{
  Resource, vlan_port, vlan_path, vlan_tree, bandwidth_port, bandwidth_path, bandwidth_tree,
  path_resource, find_neighbor, get_switch_port_neighbor, on_port, reserve_resource,
  unreserve_resource, reserve_vlan_on_port, reserve_vlan_on_path, reserve_vlan_on_tree,
  reserve_bw_on_port, reserve_bw_on_path, reserve_bw_on_tree, unreserve_vlan_on_port,
  unreserve_vlan_on_path, unreserve_vlan_on_tree, unreserve_bw_on_port, unreserve_bw_on_path,
  unreserve_bw_on_tree,
}

-- What a resource asks for. A bandwidth must not be negative.
abbrev pub Amount : (N : NetworkX) → Resource N → Type 0
Amount N (bandwidth_port switch port bw) = pos 0 ≤ℤ bw
Amount N (bandwidth_path path bw) = pos 0 ≤ℤ bw
Amount N (bandwidth_tree tree bw) = pos 0 ≤ℤ bw
Amount N _ = Unit

module _ (N : NetworkX) where
  find_neighbor_same :
      (s : String) (p : ℤ) (ns : List String) (m : Manager N) → (find_neighbor N s p ns m).1 ≡ m
  unfolding find_neighbor
  find_neighbor_same s p [] m = refl
  find_neighbor_same s p (n ∷ ns) m = ground (arith, find_neighbor_same s p ns m)

  -- Looking up a port changes nothing.
  pub get_switch_port_neighbor_same :
      (s : String) (p : ℤ) (m : Manager N) → (get_switch_port_neighbor N s p m).1 ≡ m
  unfolding get_switch_port_neighbor
  get_switch_port_neighbor_same s p m = elim (Option-cases (N.neighbors m.topo s)) [
    | inl missing ↦ ground arith
    | inr (ns, there) ↦ ground (arith, find_neighbor_same s p ns m)
  ]

  -- The ports on an edge are the same in two states.
  abbrev SamePorts : Manager N → Manager N → Type 0
  SamePorts m' m =
      (a b : String)
      → Option.map (λ (e : EdgeAttrs). e.ports) (N.edge m'.topo a b)
        ≡ Option.map (λ (e : EdgeAttrs). e.ports) (N.edge m.topo a b)

  find_neighbor_cong :
      (s : String) (p : ℤ) (ns : List String) (m m' : Manager N)
      → SamePorts m' m
      → (find_neighbor N s p ns m').0 ≡ (find_neighbor N s p ns m).0
  unfolding find_neighbor
  find_neighbor_cong s p [] m m' h = refl
  find_neighbor_cong s p (n ∷ ns) m m' h = ground (arith, h s n, find_neighbor_cong s p ns m m' h)

  abbrev SameLinks : Manager N → Manager N → Type 0
  SameLinks m' m = SamePorts m' m × ((n : String) → N.neighbors m'.topo n ≡ N.neighbors m.topo n)

  get_switch_port_neighbor_cong :
      (s : String) (p : ℤ) (m m' : Manager N)
      → SameLinks m' m
      → (get_switch_port_neighbor N s p m').0 ≡ (get_switch_port_neighbor N s p m).0
  unfolding get_switch_port_neighbor
  get_switch_port_neighbor_cong s p m m' (ports, links) =
      elim (Option-cases (N.neighbors m.topo s)) [
        | inl missing ↦ ground (arith, links s)
        | inr (ns, there) ↦ ground (arith, links s, find_neighbor_cong s p ns m m' ports)
      ]

  -- How a call at a port ends, by what stands at the port.
  on_port-err :
      (op : List (String × String) → Action (Manager N) (Unit {0})) (s : String) (p : ℤ)
      (m : Manager N) (x : Exception)
      → (get_switch_port_neighbor N s p m).0 ≡ err x
      → on_port N op s p m ≡ (err x, m)
  on_port-err op s p m x h = ground (arith, get_switch_port_neighbor_same s p m)

  on_port-none :
      (op : List (String × String) → Action (Manager N) (Unit {0})) (s : String) (p : ℤ)
      (m : Manager N)
      → (get_switch_port_neighbor N s p m).0 ≡ ok none
      → on_port N op s p m ≡ (ok tt, m)
  on_port-none op s p m h = ground (arith, get_switch_port_neighbor_same s p m)

  on_port-some :
      (op : List (String × String) → Action (Manager N) (Unit {0})) (s : String) (p : ℤ)
      (m : Manager N) (n : String)
      → (get_switch_port_neighbor N s p m).0 ≡ ok (some n)
      → on_port N op s p m ≡ op ((s, n) ∷ []) m
  on_port-some op s p m n h = ground (arith, get_switch_port_neighbor_same s p m)

  Neighbor-cases :
      (r : Result (Option String))
      → ((x : Exception) × (r ≡ err x)) ⊎ ((r ≡ ok none) ⊎ ((n : String) × (r ≡ ok (some n))))
  Neighbor-cases (err x) = inl (x, refl)
  Neighbor-cases (ok none) = inr (inl refl)
  Neighbor-cases (ok (some n)) = inr (inr (n, refl))

  module _ (op : List (String × String) → Action (Manager N) (Unit {0})) (s : String) (p : ℤ)
      (m : Manager N) where
    on_port_atomic :
        ((ps : List (String × String)) (x : Exception) → (op ps m).0 ≡ err x → (op ps m).1 ≡ m)
        → (x : Exception) → (on_port N op s p m).0 ≡ err x
        → (on_port N op s p m).1 ≡ m
    on_port_atomic atomic x h = elim (Neighbor-cases (get_switch_port_neighbor N s p m).0) [
      | inl (y, e) ↦ ap (λ r. r.1) (on_port-err op s p m y e)
      | inr (inl e) ↦ ap (λ r. r.1) (on_port-none op s p m e)
      | inr (inr (n, e)) ↦
          let same = on_port-some op s p m n e in
          ap (λ r. r.1) same ∙ atomic ((s, n) ∷ []) x (rw same at h)
    ]

  Same-refl : (m : Manager N) → Same N m m
  Same-refl m = record { nodes = λ n. refl; edges = λ a b. refl; frame = (refl, λ n. refl) }

  module _ (op po : List (String × String) → Action (Manager N) (Unit {0})) (s : String) (p : ℤ)
      (m : Manager N) where
    on_port_restore :
        ((ps : List (String × String))
          → (op ps m).0 ≡ ok tt
          → ((po ps (op ps m).1).0 ≡ ok tt) × Same N (po ps (op ps m).1).1 m)
        → ((ps : List (String × String)) → (op ps m).0 ≡ ok tt → SameLinks (op ps m).1 m)
        → (on_port N op s p m).0 ≡ ok tt
        → ((on_port N po s p (on_port N op s p m).1).0 ≡ ok tt)
          × Same N (on_port N po s p (on_port N op s p m).1).1 m
    on_port_restore undo links h = elim (Neighbor-cases (get_switch_port_neighbor N s p m).0) [
      | inl (y, e) ↦ absurd (cc (on_port-err op s p m y e))
      | inr (inl e) ↦
          rw (on_port-none op s p m e) (rw (on_port-none po s p m e) (refl, Same-refl m))
      | inr (inr (n, e)) ↦
          let first = on_port-some op s p m n e in
          let fine = rw first at h in
          let m' = (op ((s, n) ∷ []) m).1 in
          let again = get_switch_port_neighbor_cong s p m m' (links ((s, n) ∷ []) fine) ∙ e in
          rw first (rw (on_port-some po s p m' n again) (undo ((s, n) ∷ []) fine))
    ]

charged_ports :
    (bw : ℤ) (k : ℕ) (o : Option EdgeAttrs)
    → Option.map (λ (e : EdgeAttrs). e.ports) (charged bw k o)
      ≡ Option.map (λ (e : EdgeAttrs). e.ports) o
charged_ports bw k none = refl
charged_ports bw k (some e) = refl

appended_ports :
    (vlan : ℤ) (k : ℕ) (o : Option EdgeAttrs)
    → Option.map (λ (e : EdgeAttrs). e.ports) (edge_appended vlan k o)
      ≡ Option.map (λ (e : EdgeAttrs). e.ports) o
appended_ports vlan k none = refl
appended_ports vlan k (some e) = refl

module _ (N : NetworkX) (L : IsLawful N) (m : Manager N) where
  bw_links :
      (bw : ℤ) (ps : List (String × String))
      → (reserve_bw N ps bw m).0 ≡ ok tt
      → SameLinks N (reserve_bw N ps bw m).1 m
  bw_links bw ps fine =
      let (edges, nodes, frame) = reserve_bw_effect N L ps bw m fine in
      ((λ a b. rw (edges a b) (charged_ports bw (times ps a b) (N.edge m.topo a b))), frame.1)

  vlan_links :
      (vlan : ℤ) (ps : List (String × String))
      → (reserve_vlan N [] ps vlan m).0 ≡ ok tt
      → SameLinks N (reserve_vlan N [] ps vlan m).1 m
  vlan_links vlan ps fine =
      let (nodes, edges, frame) = reserve_vlan_effect N L [] ps vlan m fine in
      ((λ a b. rw (edges a b) (appended_ports vlan (times ps a b) (N.edge m.topo a b))), frame.1)

  -- Reserving any resource is all or nothing: if it raises, the manager is as it was.
  pub reserve_resource_atomic :
      (r : Resource N) (x : Exception)
      → (reserve_resource N r m).0 ≡ err x
      → (reserve_resource N r m).1 ≡ m
  unfolding reserve_resource reserve_vlan_on_port reserve_vlan_on_path reserve_vlan_on_tree
      reserve_bw_on_port reserve_bw_on_path reserve_bw_on_tree
  reserve_resource_atomic (vlan_port s p vlan) =
      on_port_atomic N (λ ps. reserve_vlan N [] ps vlan) s p m
        (λ ps. reserve_vlan_atomic N L [] ps vlan m)
  reserve_resource_atomic (vlan_path path vlan) = reserve_vlan_atomic N L _ _ vlan m
  reserve_resource_atomic (vlan_tree tree vlan) = reserve_vlan_atomic N L _ _ vlan m
  reserve_resource_atomic (bandwidth_port s p bw) =
      on_port_atomic N (λ ps. reserve_bw N ps bw) s p m (λ ps. reserve_bw_atomic N L ps bw m)
  reserve_resource_atomic (bandwidth_path path bw) = reserve_bw_atomic N L _ bw m
  reserve_resource_atomic (bandwidth_tree tree bw) = reserve_bw_atomic N L _ bw m
  reserve_resource_atomic (path_resource name) = λ x h. refl

  -- From a state in which no edge is oversubscribed, a resource that was reserved can be released
  -- at once, and the release restores every node, every edge, the neighbours and the cache. A
  -- bandwidth must not be negative.
  pub unreserve_resource-reserve_resource :
      (r : Resource N)
      → Amount N r
      → IsWithin N m
      → (reserve_resource N r m).0 ≡ ok tt
      → let (answer, m') = unreserve_resource N r (reserve_resource N r m).1 in
        (answer ≡ ok tt) × Same N m' m
  unfolding reserve_resource reserve_vlan_on_port reserve_vlan_on_path reserve_vlan_on_tree
      reserve_bw_on_port reserve_bw_on_path reserve_bw_on_tree unreserve_resource
      unreserve_vlan_on_port unreserve_vlan_on_path unreserve_vlan_on_tree unreserve_bw_on_port
      unreserve_bw_on_path unreserve_bw_on_tree
  unreserve_resource-reserve_resource (vlan_port s p vlan) a w fine =
      on_port_restore N (λ ps. reserve_vlan N [] ps vlan) (λ ps. unreserve_vlan N [] ps vlan) s p m
        (λ ps. unreserve_vlan-reserve_vlan N L [] ps vlan m) (vlan_links vlan) fine
  unreserve_resource-reserve_resource (vlan_path path vlan) a w fine =
      unreserve_vlan-reserve_vlan N L _ _ vlan m fine
  unreserve_resource-reserve_resource (vlan_tree tree vlan) a w fine =
      unreserve_vlan-reserve_vlan N L _ _ vlan m fine
  unreserve_resource-reserve_resource (bandwidth_port s p bw) a w fine =
      on_port_restore N (λ ps. reserve_bw N ps bw) (λ ps. unreserve_bw N ps bw) s p m
        (λ ps. unreserve_bw-reserve_bw N L ps bw m a w) (bw_links bw) fine
  unreserve_resource-reserve_resource (bandwidth_path path bw) a w fine =
      unreserve_bw-reserve_bw N L _ bw m a w fine
  unreserve_resource-reserve_resource (bandwidth_tree tree bw) a w fine =
      unreserve_bw-reserve_bw N L _ bw m a w fine
  unreserve_resource-reserve_resource (path_resource name) a w fine = absurd (cc)
