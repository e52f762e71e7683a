-- ===== src/Tunnel/Carries.antt =====
-- The rules that shared/L2TunnelPolicy.py makes for a path carry a tunnel's frames along it.
use atlanticwave_proto.Prelude.{
  String, some, List, [], ◌∷◌, ◌≡◌, refl, sym, subst, ◌∙◌, inl, inr, arith, true, Bool-cases, ◌==◌,
  text_equality, if◌then◌else◌,
}
use atlanticwave_proto.Prelude.Int.{ℤ}
use atlanticwave_proto.Prelude.Action.{ok, err, name_error}
use atlanticwave_proto.Prelude.Outcome.{bind_returns, ok-injective}
use atlanticwave_proto.Topology.Graph.{NetworkX}
use atlanticwave_proto.Topology.Graph.Laws.{IsLawful}
use atlanticwave_proto.Rules.{Breakdown}
use atlanticwave_proto.Tunnel.{VlanTunnel, TunnelEnd, vlan_tunnel_lc_rule}
use atlanticwave_proto.Tunnel.Path.{
  before_last, with_rule, location_of, port_at, only_rule, single_rule, end_rule, middle_rule,
  middle_rules, path_rules,
}
use atlanticwave_proto.Tunnel.Delivery.{Hop, Serves, Makes, IsDpid, Delivered, leaves, crosses}
use atlanticwave_proto.Tunnel.Serves.{hop, rule-Serves}

-- the last of some nodes
abbrev pub LastIs : String → List String → String → Type 0
LastIs x [] last = x ≡ last
LastIs x (y ∷ nodes) last = LastIs y nodes last

-- The path begins and ends at these switches.
abbrev pub Joins : String → String → List String → Type 0
Joins src dst [] = ⊥
Joins src dst (x ∷ nodes) = (x ≡ src) × LastIs x nodes dst

module _ (N : NetworkX) (topology : N.Graph) where
  end_rule-Serves :
      (vlan bandwidth : ℤ) (end : TunnelEnd) (path : String) (bd : Breakdown VlanTunnel)
      → end_rule N topology vlan bandwidth end path ≡ ok bd
      → (switch_id : ℤ) × (outport : ℤ) × IsDpid N topology end.switch switch_id
        × (port_at N topology end.switch path end.switch ≡ ok outport)
        × Serves bd.rules (hop switch_id end.port end.vlan outport vlan)
        × Serves bd.rules (hop switch_id outport vlan end.port end.vlan)
  unfolding end_rule
  end_rule-Serves vlan bandwidth end path bd e =
      let (at, found, e1) = bind_returns (location_of N topology end.switch) _ bd e in
      let (outport, port, e2) =
        bind_returns (port_at N topology end.switch path end.switch) _ bd e1 in
      let (r, made, e3) =
        bind_returns (vlan_tunnel_lc_rule at.1 end.port outport end.vlan vlan true (some bandwidth))
          _ bd e2 in
      let serves =
        rule-Serves at.1 end.port outport end.vlan vlan (some bandwidth) r at.0 bd made e3 in
      (at.1, outport, (at.0, found), port, serves.0, serves.1)

  middle_rule-Serves :
      (vlan bandwidth : ℤ) (prevnode node nextnode : String) (bd : Breakdown VlanTunnel)
      → middle_rule N topology vlan bandwidth prevnode node nextnode ≡ ok bd
      → (switch_id : ℤ) × (inport : ℤ) × (outport : ℤ) × IsDpid N topology node switch_id
        × (port_at N topology prevnode node node ≡ ok inport)
        × (port_at N topology node nextnode node ≡ ok outport)
        × Serves bd.rules (hop switch_id inport vlan outport vlan)
  unfolding middle_rule
  middle_rule-Serves vlan bandwidth prevnode node nextnode bd e =
      let (at, found, e1) = bind_returns (location_of N topology node) _ bd e in
      let (inport, port_in, e2) = bind_returns (port_at N topology prevnode node node) _ bd e1 in
      let (outport, port_out, e3) = bind_returns (port_at N topology node nextnode node) _ bd e2 in
      let (r, made, e4) =
        bind_returns (vlan_tunnel_lc_rule at.1 inport outport vlan vlan true (some bandwidth)) _ bd
          e3 in
      (
        at.1,
        inport,
        outport,
        (at.0, found),
        port_in,
        port_out,
        (rule-Serves at.1 inport outport vlan vlan (some bandwidth) r at.0 bd made e4).0,
      )

  port_comm : (a b c : String) → IsLawful N → port_at N topology a b c ≡ port_at N topology b a c
  port_comm a b c L = rw (L.edge_comm topology a b)

  module _ (L : IsLawful N) (vlan bandwidth : ℤ) (dst : TunnelEnd)
      (bds : List (Breakdown VlanTunnel)) (dst_bd : Breakdown VlanTunnel)
      (use_dst : (h : Hop) → Serves dst_bd.rules h → Makes bds h) where
    -- From a node that is not the first one the frame gets to the end, by the port from the node before.
    rest_carries :
        (prevnode node : String) (nodes : List String) (dstpath : String)
        (middle : List (Breakdown VlanTunnel))
        → LastIs node nodes dst.switch
        → before_last prevnode (node ∷ nodes) ≡ ok dstpath
        → end_rule N topology vlan bandwidth dst dstpath ≡ ok dst_bd
        → middle_rules N topology vlan bandwidth (prevnode ∷ node ∷ nodes) ≡ ok middle
        → ((h : Hop) → Makes middle h → Makes bds h)
        → (inport : ℤ) × (port_at N topology prevnode node node ≡ ok inport)
          × Delivered N topology bds node inport vlan dst
    unfolding middle_rules
    rest_carries prevnode node [] dstpath middle last before made mid use_mid =
        let same = ok-injective prevnode dstpath before in
        let (switch_id, outport, dpid, port, there, back) =
          end_rule-Serves vlan bandwidth dst dstpath dst_bd made in
        (
          outport,
          subst (λ n. port_at N topology prevnode n n ≡ ok outport) (sym last)
              (port_comm prevnode dst.switch dst.switch L
                ∙ subst (λ p. port_at N topology dst.switch p dst.switch ≡ ok outport) (sym same)
                    port),
          subst (λ n. Delivered N topology bds n outport vlan dst) (sym last)
              (leaves dst.switch (hop switch_id outport vlan dst.port dst.vlan) dpid
                (use_dst (hop switch_id outport vlan dst.port dst.vlan) back)),
        )
    rest_carries prevnode node (nextnode ∷ nodes) dstpath middle last before made mid use_mid =
        let (bd, mid_bd, e1) =
          bind_returns (middle_rule N topology vlan bandwidth prevnode node nextnode) _ middle
            mid in
        let (rest, mid_rest, e2) =
          bind_returns (middle_rules N topology vlan bandwidth (node ∷ nextnode ∷ nodes)) _ middle
            e1 in
        let (switch_id, inport, outport, dpid, port_in, port_out, there) =
          middle_rule-Serves vlan bandwidth prevnode node nextnode bd mid_bd in
        let serve =
          subst (λ m. (h : Hop) → Makes m h → Makes bds h)
            (sym (ok-injective (bd ∷ rest) middle e2)) use_mid in
        let (port, port_next, delivered) =
          rest_carries node nextnode nodes dstpath rest last before made mid_rest
            (λ h m. serve h (inr m)) in
        (
          inport,
          port_in,
          crosses node nextnode (hop switch_id inport vlan outport vlan) port dst dpid
              (serve (hop switch_id inport vlan outport vlan) (inl there)) port_out port_next
              delivered,
        )

  single_carries :
      (src dst : TunnelEnd) (bandwidth : ℤ) (bds : List (Breakdown VlanTunnel))
      → single_rule N topology src dst bandwidth ≡ ok bds
      → Delivered N topology bds src.switch src.port src.vlan dst
  unfolding single_rule
  single_carries src dst bandwidth bds e = elim (Bool-cases (src.switch == dst.switch)) [
    | inr other ↦ ground (arith, e)
    | inl same ↦
        let chain =
          subst
            (λ b. (if b then only_rule N topology src dst bandwidth else err name_error) ≡ ok bds)
            same e in
        let (at, found, e1) = bind_returns (location_of N topology src.switch) _ bds chain in
        let (r, made, e2) =
          bind_returns
            (vlan_tunnel_lc_rule at.1 src.port dst.port src.vlan dst.vlan true (some bandwidth)) _
            bds e1 in
        let served =
          (rule-Serves at.1 src.port dst.port src.vlan dst.vlan (some bandwidth) r at.0
            (with_rule at.0 r) made refl).0 in
        let makes =
          subst (λ m. Makes m (hop at.1 src.port src.vlan dst.port dst.vlan))
            (ok-injective (with_rule at.0 r ∷ []) bds e2) (inl served) in
        subst
          (λ n.
            Delivered N topology bds src.switch src.port src.vlan
              (record { switch = n; port = dst.port; vlan = dst.vlan }))
          ((text_equality.equals_iff src.switch dst.switch).0 same)
          (leaves src.switch (hop at.1 src.port src.vlan dst.port dst.vlan) (at.0, found) makes)
  ]

  -- The rules that are made for a path from the one end's switch to the other end's switch deliver a
  -- frame that enters at the one end, in the VLAN of that end, at the other end in its VLAN.
  pub path_rules-Delivered :
      IsLawful N
      → (src dst : TunnelEnd) (vlan bandwidth : ℤ) (path : List String)
      → Joins src.switch dst.switch path
      → (bds : List (Breakdown VlanTunnel))
      → path_rules N topology src dst vlan bandwidth path ≡ ok bds
      → Delivered N topology bds src.switch src.port src.vlan dst
  unfolding path_rules
  path_rules-Delivered L src dst vlan bandwidth [] joins bds e = absurd joins
  path_rules-Delivered L src dst vlan bandwidth (x ∷ []) joins bds e =
      single_carries src dst bandwidth bds e
  path_rules-Delivered L src dst vlan bandwidth (x ∷ srcpath ∷ nodes) (first, last) bds e =
      let (dstpath, before, e1) = bind_returns (before_last x (srcpath ∷ nodes)) _ bds e in
      let (src_bd, src_made, e2) =
        bind_returns (end_rule N topology vlan bandwidth src srcpath) _ bds e1 in
      let (dst_bd, dst_made, e3) =
        bind_returns (end_rule N topology vlan bandwidth dst dstpath) _ bds e2 in
      let (middle, mid, e4) =
        bind_returns (middle_rules N topology vlan bandwidth (x ∷ srcpath ∷ nodes)) _ bds e3 in
      let all = ok-injective (src_bd ∷ dst_bd ∷ middle) bds e4 in
      let serve =
        subst (λ m. (h : Hop) → Makes (src_bd ∷ dst_bd ∷ middle) h → Makes m h) all (λ h m. m) in
      let (switch_id, outport, dpid, port_out, there, back) =
        end_rule-Serves vlan bandwidth src srcpath src_bd src_made in
      let (port, port_next, delivered) =
        rest_carries L vlan bandwidth dst bds dst_bd (λ h m. serve h (inr (inl m))) x srcpath nodes
          dstpath middle last before dst_made mid (λ h m. serve h (inr (inr m))) in
      crosses src.switch srcpath (hop switch_id src.port src.vlan outport vlan) port dst dpid
        (serve (hop switch_id src.port src.vlan outport vlan) (inl there)) port_out
        (subst (λ n. port_at N topology n srcpath srcpath ≡ ok port) first port_next) delivered
