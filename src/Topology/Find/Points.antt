-- ===== src/Topology/Find/Points.antt =====
-- What the inner loops of `find_vlan_on_path` (sdxctlr/TopologyManager.py) answer.
use atlanticwave_proto.Prelude.{
  String, Option, some, List, [], ◌∷◌, arith, ◌≡◌, ◌⊎◌, refl, ◌∙◌, ap, sym, Bool, true, false, ◌==◌,
  text_equality, Option-cases, Bool-cases, inl, inr,
}
use atlanticwave_proto.Prelude.Lists.{All, contains}
use atlanticwave_proto.Prelude.Int.{ℤ, int_eq}
use atlanticwave_proto.Prelude.Action.{Exception, Result, ok, err, key_error, Result-cases}
use atlanticwave_proto.Topology.Graph.{NodeAttrs, EdgeAttrs, NetworkX}
use atlanticwave_proto.Topology.Manager.{Manager}
use atlanticwave_proto.Topology.Available.{available_vlans_of, get_available_vlan_list}
use atlanticwave_proto.Topology.Available.Cache.{IsCached, get_available_vlan_list_lem}
use atlanticwave_proto.Topology.Find.{used_on_points, closed_on_edges}

-- There is a node with a type, and it is no switch or the VLAN is not in use on it.
abbrev pub FreePoint : ℤ → Option NodeAttrs → Type 0
FreePoint vlan o =
    (v : NodeAttrs) × (kind : String) × (o ≡ some v)
    × (v.kind ≡ some kind)
    × (((kind == "switch") ≡ false)
        ⊎ ((xs : List ℤ) × (v.vlans_in_use ≡ some xs) × (contains xs vlan ≡ false)))

-- There is an edge on which the VLAN is not in use and is allowed.
abbrev pub OpenEdge : ℤ → Option EdgeAttrs → Type 0
OpenEdge vlan o =
    (e : EdgeAttrs) × (l : List ℤ) × (o ≡ some e)
    × (contains e.vlans_in_use vlan ≡ false)
    × (available_vlans_of e.available_vlans ≡ ok l)
    × (contains l vlan ≡ true)

-- The state has the graph `g` and a valid cache.
abbrev pub Reads : (N : NetworkX) → N.Graph → Manager N → Type 0
Reads N g m = (m.topo ≡ g) × IsCached m.cached_vlans

module _ (N : NetworkX) (vlan : ℤ) where
  pub used_on_points_same : (ns : List String) (m : Manager N) → (used_on_points N vlan ns m).1 ≡ m
  unfolding used_on_points
  used_on_points_same [] m = refl
  used_on_points_same (n ∷ ns) m = ground (arith, used_on_points_same ns m)

  pub used_on_points-false :
      (ns : List String) (m : Manager N)
      → (used_on_points N vlan ns m).0 ≡ ok false
      → All (λ n. FreePoint vlan (N.node m.topo n)) ns
  unfolding used_on_points
  used_on_points-false [] m h = tt
  used_on_points-false (n ∷ ns) m h = elim (Option-cases (N.node m.topo n)) [
    | inl missing ↦ absurd (ground arith)
    | inr (v, there) ↦ elim (Option-cases v.kind) [
      | inl untyped ↦ absurd (ground arith)
      | inr (kind, typed) ↦ elim (Bool-cases (kind == "switch")) [
        | inr other ↦ ((v, kind, there, typed, inl other), used_on_points-false ns m (ground arith))
        | inl switch ↦ elim (Option-cases v.vlans_in_use) [
          | inl unlisted ↦ absurd (ground arith)
          | inr (xs, list) ↦ (
            (v, kind, there, typed, inr (xs, list, ground arith)),
            used_on_points-false ns m (ground arith),
          )
        ]
      ]
    ]
  ]

  pub used_on_points-true :
      (ns : List String) (m : Manager N)
      → (used_on_points N vlan ns m).0 ≡ ok true
      → ¬ All (λ n. FreePoint vlan (N.node m.topo n)) ns
  unfolding used_on_points
  used_on_points-true [] m h all = absurd (cc)
  used_on_points-true (n ∷ ns) m h ((v, kind, there, typed, inl other), all) =
      used_on_points-true ns m (ground arith) all
  used_on_points-true (n ∷ ns) m h ((v, kind, there, typed, inr (xs, list, free)), all) =
      used_on_points-true ns m (ground arith) all

  module _ (g : N.Graph) where
    abbrev Open : String × String → Type 0
    Open p = OpenEdge vlan (N.edge g p.0 p.1)

    -- A loop that asks whether `P` fails, and keeps the graph and a valid cache.
    abbrev pub Answers : Type 0 → Result Bool × Manager N → Type 0
    Answers P (r, m') = Reads N g m' × (r ≡ ok false → P) × (r ≡ ok true → ¬ P)

    Answers-err : {P : Type 0} (x : Exception) (m : Manager N) → Reads N g m → Answers P (err x, m)
    Answers-err x m h = (h, λ e. absurd (cc), λ e. absurd (cc))

    Answers-true : {P : Type 0} (m : Manager N) → Reads N g m → ¬ P → Answers P (ok true, m)
    Answers-true m h fails = (h, λ e. absurd (cc), λ e. fails)

    Answers-more :
        {P Q : Type 0} (r : Result Bool × Manager N) → P → Answers Q r → Answers (P × Q) r
    Answers-more r p (h, yes_case, no_case) = (h, λ e. (p, yes_case e), λ e (p', q). no_case e q)

    pub closed_on_edges_lem :
        (ps : List (String × String)) (m : Manager N)
        → Reads N g m
        → Answers (All Open ps) (closed_on_edges N vlan ps m)
    unfolding closed_on_edges
    closed_on_edges_lem [] m h = (h, λ e. tt, λ e. absurd (cc))
    closed_on_edges_lem ((a, b) ∷ ps) m h = elim (Option-cases (N.edge m.topo a b)) [
      | inl missing ↦
          let same : closed_on_edges N vlan ((a, b) ∷ ps) m ≡ (err key_error, m) = ground arith in
          rw same (Answers-err key_error m h)
      | inr (e, there) ↦
          let at_g : N.edge g a b ≡ some e = ap (λ t. N.edge t a b) (sym h.0) ∙ there in
          elim (Bool-cases (contains e.vlans_in_use vlan)) [
            | inl used ↦
                let same : closed_on_edges N vlan ((a, b) ∷ ps) m ≡ (ok true, m) = ground arith in
                rw same (
                  Answers-true m h
                    (λ all. let (e', l, there', free, good', r) = all.0 in absurd (ground arith)))
            | inr unused ↦
                let (answer, topo, cached) =
                  get_available_vlan_list_lem N e.available_vlans m h.1 in
                let m1 = (get_available_vlan_list N e.available_vlans m).1 in
                let h1 : Reads N g m1 = (topo ∙ h.0, cached) in
                elim (Result-cases (available_vlans_of e.available_vlans)) [
                  | inr (x, bad) ↦
                      let same : closed_on_edges N vlan ((a, b) ∷ ps) m ≡ (err x, m1) =
                        ground arith in
                      rw same (Answers-err x m1 h1)
                  | inl (l, good) ↦ elim (Bool-cases (contains l vlan)) [
                    | inr forbidden ↦
                        let same : closed_on_edges N vlan ((a, b) ∷ ps) m ≡ (ok true, m1) =
                          ground arith in
                        rw same (
                          Answers-true m1 h1 (λ all.
                            let (e', l', there', free, good', r) = all.0 in absurd (ground arith)))
                    | inl allowed ↦
                        let same : closed_on_edges N vlan ((a, b) ∷ ps) m
                            ≡ closed_on_edges N vlan ps m1 =
                          ground arith in
                        rw same (
                          Answers-more (closed_on_edges N vlan ps m1)
                            (e, l, at_g, unused, good, allowed) (closed_on_edges_lem ps m1 h1))
                  ]
                ]
          ]
    ]
