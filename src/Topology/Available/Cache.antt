-- ===== src/Topology/Available/Cache.antt =====
-- The cache of `get_available_vlan_list` (sdxctlr/TopologyManager.py) changes no answer.
use text.Mathlib.TextEquality.{eq_iff}
use atlanticwave_proto.Prelude.{
  String, [], ◌∷◌, some, List, arith, ◌≡◌, refl, sym, ◌==◌, text_equality, Option-cases, inl, inr,
  Bool-cases,
}
use atlanticwave_proto.Prelude.Lists.{All, lookup, insert, lookup-insert, contains}
use atlanticwave_proto.Prelude.Int.{ℤ, int_eq}
use atlanticwave_proto.Prelude.Action.{ok, err, Result-cases}
use atlanticwave_proto.Topology.Graph.{NetworkX}
use atlanticwave_proto.Topology.Manager.{Manager}
use atlanticwave_proto.Topology.Available.{
  available_vlans_of, parse_available_vlans, get_available_vlan_list, check_vlan_available,
}

-- Every cached list is what its text parses to.
abbrev pub IsCached : List (String × List ℤ) → Type 0
IsCached = All (λ (s, l). available_vlans_of s ≡ ok l)

lookup-IsCached :
    (s : String) (l : List ℤ) (cache : List (String × List ℤ))
    → IsCached cache
    → lookup s cache ≡ some l
    → available_vlans_of s ≡ ok l
lookup-IsCached s l [] c hit = absurd (cc)
lookup-IsCached s l ((t, k) ∷ cache) c hit =
    ground (arith, eq_iff s t, lookup-IsCached s l cache c.1)

insert-IsCached :
    (s : String) (l : List ℤ) (cache : List (String × List ℤ))
    → available_vlans_of s ≡ ok l
    → IsCached cache
    → IsCached (insert s l cache)
insert-IsCached s l [] h c = (h, tt)
insert-IsCached s l ((t, k) ∷ cache) h c = elim (Bool-cases (s == t)) [
  | inl same ↦ rw same (h, c.1)
  | inr other ↦ rw other (c.0, insert-IsCached s l cache h c.1)
]

module _ (N : NetworkX) (s : String) (m : Manager N) (c : IsCached m.cached_vlans) where
  -- From a cache that holds only what its texts parse to, the answer is what the text parses to,
  -- the topology is untouched, and the cache stays so.
  pub get_available_vlan_list_lem :
      let (r, m') = get_available_vlan_list N s m in
      (r ≡ available_vlans_of s) × (m'.topo ≡ m.topo) × IsCached m'.cached_vlans
  unfolding get_available_vlan_list parse_available_vlans
  get_available_vlan_list_lem = elim (Option-cases (lookup s m.cached_vlans)) [
    | inr (l, hit) ↦
        let same : get_available_vlan_list N s m ≡ (ok l, m) = ground arith in
        rw same (sym (lookup-IsCached s l m.cached_vlans c hit), refl, c)
    | inl miss ↦ elim (Result-cases (available_vlans_of s)) [
      | inr (x, bad) ↦
          let same : get_available_vlan_list N s m ≡ (err x, m) = ground arith in
          rw same (sym bad, refl, c)
      | inl (l, good) ↦
          let cache = insert s l m.cached_vlans in
          let found = lookup-insert s s l m.cached_vlans in
          let same : get_available_vlan_list N s m ≡ (ok l, record m { cached_vlans = cache }) =
            ground (arith, eq_iff s s) in
          rw same (sym good, refl, insert-IsCached s l m.cached_vlans good c)
    ]
  ]

  -- `check_vlan_available` answers whether the VLAN is in the parsed list, and raises what the
  -- parse raises.
  pub check_vlan_available_lem :
      (vlan : ℤ) (l : List ℤ)
      → available_vlans_of s ≡ ok l
      → (check_vlan_available N s vlan m).0 ≡ ok (contains l vlan)
  unfolding check_vlan_available
  check_vlan_available_lem vlan l good = ground (arith, get_available_vlan_list_lem)
