-- ===== src/Multipoint/Sends.antt =====
-- The rule that each node gets for a learned destination from `switch_change_callback` of
-- shared/L2MultipointPolicy.py.
use atlanticwave_proto.Prelude.{
  String, none, some, List, [], ◌∷◌, ◌≡◌, ◌≢◌, sym, ap, subst, ◌∙◌, ◌⊎◌, inl, inr, arith, Bool,
  true, Bool-cases, ◌==◌, text_equality, if◌then◌else◌,
}
use atlanticwave_proto.Prelude.Lists.{contains}
use atlanticwave_proto.Prelude.Int.{ℤ, pos}
use atlanticwave_proto.Prelude.Action.{Result, ok, lc_rule_type_error}
use atlanticwave_proto.Prelude.Outcome.{get_or, get_or_ok, bind_returns, ok-injective}
use atlanticwave_proto.Topology.Graph.{NetworkX}
use atlanticwave_proto.Rules.{LcRule, Breakdown}
use atlanticwave_proto.Tunnel.Path.{location_of, port_at}
use atlanticwave_proto.Tunnel.Delivery.{IsDpid}
use atlanticwave_proto.Multipoint.{
  MultipointRule, learned_rule, L2MultipointPolicy, learned_lc_rule, beyond,
}
use atlanticwave_proto.Multipoint.Learned.{
  Change, outbound_vlan, second, with_learned, learned_here, learned_there, learned_rules,
}

-- The rules of a switch send frames for an address, in a VLAN, out of a port in a VLAN.
abbrev pub Sends : List (LcRule MultipointRule) → ℤ → MultipointRule → Type 0
Sends [] switch_id body = ⊥
Sends (r ∷ rs) switch_id body =
    ((r.switch_id ≡ switch_id) × (r.body ≡ body)) ⊎ Sends rs switch_id body

abbrev pub SendsIn : List (Breakdown MultipointRule) → ℤ → MultipointRule → Type 0
SendsIn [] switch_id body = ⊥
SendsIn (bd ∷ bds) switch_id body = Sends bd.rules switch_id body ⊎ SendsIn bds switch_id body

pub some-injective : {A : Type 0} (a b : A) → some a ≡ some b → a ≡ b
some-injective a b e = cc

learned_shape :
    (switch_id : ℤ) (address : String) (outport vlan out_vlan : ℤ) (r : LcRule MultipointRule)
    → learned_lc_rule switch_id address outport vlan out_vlan ≡ ok r
    → r ≡ record {
      switch_id = switch_id;
      cookie = none;
      body = learned_rule address outport vlan out_vlan;
    }
unfolding learned_lc_rule
learned_shape switch_id address outport vlan out_vlan r e =
    elim (Bool-cases (beyond (pos 4095) vlan)) [
      | inl h ↦ ground (arith, e)
      | inr h ↦ elim (Bool-cases (beyond (pos 4095) out_vlan)) [
        | inl h' ↦ ground (arith, e)
        | inr h' ↦ cc
      ]
    ]

module _ (N : NetworkX) (shortest_path : N.Graph → String → String → Result (List String))
    (topology : N.Graph) where
  with_learned-Sends :
      (shortname : String) (switch_id : ℤ) (address : String) (outport vlan out_vlan : ℤ)
      (bd : Breakdown MultipointRule)
      → with_learned N shortest_path topology shortname switch_id address outport
          (some vlan)
          out_vlan
        ≡ ok bd
      → Sends bd.rules switch_id (learned_rule address outport vlan out_vlan)
  with_learned-Sends shortname switch_id address outport vlan out_vlan bd e =
      let (r, made, e1) =
        bind_returns (learned_lc_rule switch_id address outport vlan out_vlan) _ bd e in
      let shape = learned_shape switch_id address outport vlan out_vlan r made in
      subst
        (λ (b : Breakdown MultipointRule).
          Sends b.rules switch_id (learned_rule address outport vlan out_vlan))
        (ok-injective (record { lc = shortname; rules = r ∷ [] }) bd e1)
        (inl (
          ap (λ (q : LcRule MultipointRule). q.switch_id) shape,
          ap (λ (q : LcRule MultipointRule). q.body) shape,
        ))

  module _ (policy : L2MultipointPolicy N) (tree : N.Graph) (change : Change) (vlan : ℤ)
      (has_vlan : policy.intermediate_vlan ≡ some vlan) where
    -- The rule of a node: out of the destination's port, or toward the next node of the path.
    unfoldable pub NodeSends : List (Breakdown MultipointRule) → String → Type 0
    NodeSends bds node =
        (switch_id : ℤ) × IsDpid N topology node switch_id
        × (((node ≡ change.dstswitch)
              × ((out_vlan : ℤ) × (outbound_vlan change.dstswitch policy.endpoints ≡ ok out_vlan)
                  × SendsIn bds switch_id
                      (learned_rule change.dstaddress change.dstport vlan out_vlan)))
            ⊎ ((node ≢ change.dstswitch)
                × (path : List String) × (next_node : String) × (outport : ℤ) × (shortest_path tree
                      node change.dstswitch
                    ≡ ok path)
                × (second path ≡ ok next_node)
                × (port_at N tree node next_node node ≡ ok outport)
                × SendsIn bds switch_id (learned_rule change.dstaddress outport vlan vlan)))

    learned_here-sends :
        (node : String) (bd : Breakdown MultipointRule) (bds : List (Breakdown MultipointRule))
        → learned_here N shortest_path topology policy change node ≡ ok bd
        → node ≡ change.dstswitch
        → NodeSends (bd ∷ bds) node
    unfolding NodeSends
    learned_here-sends node bd bds e here =
        let (at, found, e1) = bind_returns (location_of N topology node) _ bd e in
        let (out_vlan, out, e2) =
          bind_returns (outbound_vlan change.dstswitch policy.endpoints) _ bd e1 in
        let e3 =
          subst
            (λ v.
              with_learned N shortest_path topology at.0 at.1 change.dstaddress change.dstport v
                out_vlan
              ≡ ok bd)
            has_vlan e2 in
        (
          at.1,
          (at.0, found),
          inl (
            here,
            (
              out_vlan,
              out,
              inl (
                  with_learned-Sends at.0 at.1 change.dstaddress change.dstport vlan out_vlan bd
                    e3),
            ),
          ),
        )

    learned_there-sends :
        (node : String) (bd : Breakdown MultipointRule) (bds : List (Breakdown MultipointRule))
        → learned_there N shortest_path topology policy tree change node ≡ ok bd
        → node ≢ change.dstswitch
        → NodeSends (bd ∷ bds) node
    unfolding NodeSends
    learned_there-sends node bd bds e other =
        let (at, found, e1) = bind_returns (location_of N topology node) _ bd e in
        let (path, is_path, e2) = bind_returns (shortest_path tree node change.dstswitch) _ bd e1 in
        let (next_node, is_next, e3) = bind_returns (second path) _ bd e2 in
        let (outport, is_port, e4) = bind_returns (port_at N tree node next_node node) _ bd e3 in
        let (v, is_vlan, e5) =
          bind_returns (get_or policy.intermediate_vlan lc_rule_type_error) _ bd e4 in
        let same : v ≡ vlan =
          some-injective v vlan
            (sym (get_or_ok policy.intermediate_vlan lc_rule_type_error v is_vlan) ∙ has_vlan) in
        let e6 =
          subst
            (λ w.
              with_learned N shortest_path topology at.0 at.1 change.dstaddress outport
                policy.intermediate_vlan w
              ≡ ok bd)
            same e5 in
        let e7 =
          subst
            (λ w.
              with_learned N shortest_path topology at.0 at.1 change.dstaddress outport w vlan
              ≡ ok bd)
            has_vlan e6 in
        (
          at.1,
          (at.0, found),
          inr (
            other,
            path,
            next_node,
            outport,
            is_path,
            is_next,
            is_port,
            inl (with_learned-Sends at.0 at.1 change.dstaddress outport vlan vlan bd e7),
          ),
        )

    more-sends :
        (node : String) (bd : Breakdown MultipointRule) (bds : List (Breakdown MultipointRule))
        → NodeSends bds node
        → NodeSends (bd ∷ bds) node
    unfolding NodeSends
    more-sends node bd bds (switch_id, dpid, inl (here, (out_vlan, out, sends))) =
        (switch_id, dpid, inl (here, (out_vlan, out, inr sends)))
    more-sends node bd bds (switch_id, dpid, inr (other, path, y, port, p, q, r, sends)) =
        (switch_id, dpid, inr (other, path, y, port, p, q, r, inr sends))

    first-sends :
        (node : String) (bd : Breakdown MultipointRule) (bds : List (Breakdown MultipointRule))
        → (if node == change.dstswitch
            then learned_here N shortest_path topology policy change node
            else learned_there N shortest_path topology policy tree change node)
          ≡ ok bd
        → NodeSends (bd ∷ bds) node
    first-sends node bd bds e =
        let chosen = (λ (c : Bool).
          (if c
            then learned_here N shortest_path topology policy change node
            else learned_there N shortest_path topology policy tree change node)
          ≡ ok bd) in
        elim (Bool-cases (node == change.dstswitch)) [
          | inl here ↦
              learned_here-sends node bd bds (subst chosen here e)
                ((text_equality.equals_iff node change.dstswitch).0 here)
          | inr there ↦ learned_there-sends node bd bds (subst chosen there e) (λ same.
              ground (arith, there, (text_equality.equals_iff node change.dstswitch).1 same))
        ]

    -- Every node of the list gets its rule.
    pub learned_rules-sends :
        (nodes : List String) (bds : List (Breakdown MultipointRule)) (node : String)
        → learned_rules N shortest_path topology policy tree change nodes ≡ ok bds
        → contains nodes node ≡ true
        → NodeSends bds node
    unfolding learned_rules
    learned_rules-sends [] bds node e there = ground (arith, there)
    learned_rules-sends (x ∷ nodes) bds node e there =
        let (bd, made, e1) =
          bind_returns
            (if x == change.dstswitch
              then learned_here N shortest_path topology policy change x
              else learned_there N shortest_path topology policy tree change x)
            _ bds e in
        let (rest, others, e2) =
          bind_returns (learned_rules N shortest_path topology policy tree change nodes) _ bds e1 in
        subst (λ b. NodeSends b node) (ok-injective (bd ∷ rest) bds e2)
          (elim (Bool-cases (node == x)) [
            | inl same ↦
                subst (NodeSends (bd ∷ rest)) (sym ((text_equality.equals_iff node x).0 same))
                  (first-sends x bd rest made)
            | inr other ↦
                more-sends node bd rest
                  (learned_rules-sends nodes rest node others (ground (arith, there, other)))
          ])
