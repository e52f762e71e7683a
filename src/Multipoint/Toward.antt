-- ===== src/Multipoint/Toward.antt =====
-- Where the rules for a learned destination, `switch_change_callback` of
-- shared/L2MultipointPolicy.py, bring a frame for it.
use atlanticwave_proto.Prelude.{
  ℕ, zero, suc, ◌<◌, String, some, List, [], ◌∷◌, ◌≡◌, ◌≢◌, sym, ap, subst, ◌∙◌, inl, inr, arith,
  true, Bool-cases, ◌==◌, text_equality, if◌then◌else◌,
}
use atlanticwave_proto.Prelude.Lists.{contains}
use atlanticwave_proto.Prelude.Int.{ℤ}
use atlanticwave_proto.Prelude.Action.{Result, ok, key_error, attribute_error}
use atlanticwave_proto.Prelude.Outcome.{get_or, get_or_ok, bind_returns, ok-injective}
use atlanticwave_proto.Topology.Graph.{NodeAttrs, NetworkX}
use atlanticwave_proto.Rules.{Breakdown}
use atlanticwave_proto.Tunnel.{TunnelEnd}
use atlanticwave_proto.Tunnel.Path.{port_at}
use atlanticwave_proto.Tunnel.Delivery.{IsDpid}
use atlanticwave_proto.Multipoint.{MultipointRule, learned_rule, L2MultipointPolicy}
use atlanticwave_proto.Multipoint.Learned.{
  Change, outbound_vlan, second, switches_of, learned_rules, switch_change_callback,
}
use atlanticwave_proto.Multipoint.Sends.{SendsIn, NodeSends, learned_rules-sends, some-injective}

module _ (N : NetworkX) (topology tree : N.Graph) (bds : List (Breakdown MultipointRule))
    (address : String) (vlan : ℤ) where
  -- A frame for the address that is at a switch, in the VLAN of the tree, leaves at an end. Between
  -- two switches it crosses an edge of the tree.
  pub data Arrives : String → TunnelEnd → Type 0 where
    leaves :
        (node : String) (switch_id outport out_vlan : ℤ)
        → IsDpid N topology node switch_id
        → SendsIn bds switch_id (learned_rule address outport vlan out_vlan)
        → Arrives node (record { switch = node; port = outport; vlan = out_vlan })
    crosses :
        (node next_node : String) (switch_id outport : ℤ) (end : TunnelEnd)
        → IsDpid N topology node switch_id
        → SendsIn bds switch_id (learned_rule address outport vlan vlan)
        → port_at N tree node next_node node ≡ ok outport
        → Arrives next_node end
        → Arrives node end

module _ (N : NetworkX) (shortest_path : N.Graph → String → String → Result (List String))
    (topology : N.Graph) where
  module _ (policy : L2MultipointPolicy N) (tree : N.Graph) (change : Change) (vlan : ℤ)
      (has_vlan : policy.intermediate_vlan ≡ some vlan) where
    -- the end at which frames for the learned address leave, in a VLAN
    abbrev destination : ℤ → TunnelEnd
    destination out_vlan = record {
      switch = change.dstswitch;
      port = change.dstport;
      vlan = out_vlan;
    }

    -- From a node the frame leaves at the learned port, in the VLAN of an endpoint of its switch.
    abbrev pub Reaches : List (Breakdown MultipointRule) → String → Type 0
    Reaches bds node =
        (out_vlan : ℤ) × (outbound_vlan change.dstswitch policy.endpoints ≡ ok out_vlan)
        × Arrives N topology tree bds change.dstaddress vlan node (destination out_vlan)

    node-Reaches :
        (rank : String → ℕ) (bds : List (Breakdown MultipointRule))
        → ((node : String) (path : List String)
            → contains (N.nodes tree) node ≡ true
            → node ≢ change.dstswitch
            → shortest_path tree node change.dstswitch ≡ ok path
            → (y : String) × (second path ≡ ok y)
              × (contains (N.nodes tree) y ≡ true)
              × (rank y < rank node))
        → ((node : String)
            → contains (N.nodes tree) node ≡ true
            → NodeSends N shortest_path topology policy tree change vlan has_vlan bds node)
        → (k : ℕ) (node : String) → rank node < k
        → contains (N.nodes tree) node ≡ true
        → Reaches bds node
    unfolding NodeSends
    node-Reaches rank bds nearer sends zero node bound there = ground (arith, bound)
    node-Reaches rank bds nearer sends (suc k) node bound there =
        let (switch_id, dpid, how) = sends node there in
        elim how [
          | inl (here, (out_vlan, out, sent)) ↦ (
            out_vlan,
            out,
            subst
                (λ n.
                  Arrives N topology tree bds change.dstaddress vlan node
                    (record { switch = n; port = change.dstport; vlan = out_vlan }))
                here (leaves node switch_id change.dstport out_vlan dpid sent),
          )
          | inr (other, path, next_node, outport, is_path, is_next, is_port, sent) ↦
              let (y, is_y, on_tree, less) = nearer node path there other is_path in
              let same : y ≡ next_node = ok-injective y next_node (sym is_y ∙ is_next) in
              let (out_vlan, out, arrives) =
                node-Reaches rank bds nearer sends k y (omega arith) on_tree in
              (
                out_vlan,
                out,
                crosses node next_node switch_id outport (destination out_vlan) dpid sent is_port (
                    subst
                      (λ n.
                        Arrives N topology tree bds change.dstaddress vlan n (destination out_vlan))
                      same arrives),
              )
        ]

  switches_of-all :
      (names : List String) (switches : List String) (node : String)
      → switches_of N shortest_path topology names ≡ ok switches
      → ((n : String)
          → contains names n ≡ true
          → (v : NodeAttrs) × (N.node topology n ≡ some v) × (v.kind ≡ some "switch"))
      → contains names node ≡ true
      → contains switches node ≡ true
  unfolding switches_of
  switches_of-all [] switches node e kinds there = ground (arith, there)
  switches_of-all (x ∷ names) switches node e kinds there =
      let (v, at_v, e1) = bind_returns (get_or (N.node topology x) key_error) _ switches e in
      let (kind, at_kind, e2) = bind_returns (get_or v.kind key_error) _ switches e1 in
      let (rest, others, e3) =
        bind_returns (switches_of N shortest_path topology names) _ switches e2 in
      let shape = ok-injective (if kind == "switch" then x ∷ rest else rest) switches e3 in
      subst (λ s. contains s node ≡ true) shape
        (elim (Bool-cases (node == x)) [
          | inl same ↦
              let (w, at_w, is_switch) = kinds x (ground (arith, text_equality.equals_iff x x)) in
              let same_node : v ≡ w =
                some-injective v w (sym (get_or_ok (N.node topology x) key_error v at_v) ∙ at_w) in
              let same_kind : kind ≡ "switch" = some-injective kind "switch" (
                sym (get_or_ok v.kind key_error kind at_kind)
                ∙ ap (λ (u : NodeAttrs). u.kind) same_node
                ∙ is_switch) in
              ground (arith, (text_equality.equals_iff kind "switch").1 same_kind, same)
          | inr other ↦
              let later =
                switches_of-all names rest node others (λ n h. kinds n (ground (arith, h)))
                  (ground (arith, there, other)) in
              ground (arith, later)
        ])

  -- Where every node of the policy's tree is a switch and each shortest path to the destination leads
  -- to a node of the tree that is nearer, when the callback returns, its rules bring a frame for the
  -- learned address, in the VLAN of the tree, from any node of the tree to the learned port, in the
  -- VLAN of an endpoint of its switch.
  pub switch_change_callback-Reaches :
      (policy : L2MultipointPolicy N) (tree : N.Graph) (change : Change) (vlan : ℤ)
      (has_vlan : policy.intermediate_vlan ≡ some vlan) (rank : String → ℕ)
      (bds : List (Breakdown MultipointRule)) (node : String)
      → policy.tree ≡ some tree
      → ((n : String)
          → contains (N.nodes tree) n ≡ true
          → (v : NodeAttrs) × (N.node topology n ≡ some v) × (v.kind ≡ some "switch"))
      → ((n : String) (path : List String)
          → contains (N.nodes tree) n ≡ true
          → n ≢ change.dstswitch
          → shortest_path tree n change.dstswitch ≡ ok path
          → (y : String) × (second path ≡ ok y)
            × (contains (N.nodes tree) y ≡ true)
            × (rank y < rank n))
      → switch_change_callback N shortest_path topology policy change ≡ ok bds
      → contains (N.nodes tree) node ≡ true
      → Reaches policy tree change vlan has_vlan bds node
  unfolding switch_change_callback
  switch_change_callback-Reaches policy tree change vlan has_vlan rank bds node has_tree kinds
        nearer e there =
      let (t, found, e1) = bind_returns (get_or policy.tree attribute_error) _ bds e in
      let same : t ≡ tree =
        some-injective t tree (sym (get_or_ok policy.tree attribute_error t found) ∙ has_tree) in
      let (switches, all, e2) =
        bind_returns (switches_of N shortest_path topology (N.nodes t)) _ bds e1 in
      let all' =
        subst (λ g. switches_of N shortest_path topology (N.nodes g) ≡ ok switches) same all in
      let made =
        subst (λ g. learned_rules N shortest_path topology policy g change switches ≡ ok bds) same
          e2 in
      node-Reaches policy tree change vlan has_vlan rank bds nearer
        (λ n on_tree.
          learned_rules-sends N shortest_path topology policy tree change vlan has_vlan switches bds
            n made (switches_of-all (N.nodes tree) switches n all' kinds on_tree))
        (suc (rank node)) node (omega arith) there
