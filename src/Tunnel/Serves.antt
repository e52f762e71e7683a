-- ===== src/Tunnel/Serves.antt =====
-- The rule of a switch on a tunnel, shared/VlanTunnelLCRule.py, makes a hop each way.
use atlanticwave_proto.Prelude.{
  String, Option, none, ◌≡◌, ap, subst, inl, inr, arith, true, Bool-cases, text_equality,
}
use atlanticwave_proto.Prelude.Int.{ℤ}
use atlanticwave_proto.Prelude.Action.{ok}
use atlanticwave_proto.Prelude.Outcome.{ok-injective}
use atlanticwave_proto.Rules.{LcRule, Breakdown}
use atlanticwave_proto.Tunnel.{VlanTunnel, vlan_tunnel_lc_rule, is_outside}
use atlanticwave_proto.Tunnel.Path.{with_rule}
use atlanticwave_proto.Tunnel.Delivery.{Hop, hop_of, back_of, Serves}

abbrev pub hop : ℤ → ℤ → ℤ → ℤ → ℤ → Hop
hop switch_id inport vlan_in outport vlan_out = record {
  switch_id = switch_id;
  inport = inport;
  vlan_in = vlan_in;
  outport = outport;
  vlan_out = vlan_out;
}

rule_shape :
    (switch_id inport outport vlan_in vlan_out : ℤ) (bandwidth : Option ℤ) (r : LcRule VlanTunnel)
    → vlan_tunnel_lc_rule switch_id inport outport vlan_in vlan_out true bandwidth ≡ ok r
    → r ≡ record {
      switch_id = switch_id;
      cookie = none;
      body = record {
        inport = inport;
        outport = outport;
        vlan_in = vlan_in;
        vlan_out = vlan_out;
        bidirectional = true;
        bandwidth = bandwidth;
      };
    }
unfolding vlan_tunnel_lc_rule
rule_shape switch_id inport outport vlan_in vlan_out bandwidth r e =
    elim (Bool-cases (is_outside vlan_in)) [
      | inl h ↦ ground (arith, e)
      | inr h ↦ elim (Bool-cases (is_outside vlan_out)) [ inl h' ↦ ground (arith, e) | inr h' ↦ cc ]
    ]

-- The rule of a pair of ports makes a hop each way.
pub rule-Serves :
    (switch_id inport outport vlan_in vlan_out : ℤ) (bandwidth : Option ℤ) (r : LcRule VlanTunnel)
    (shortname : String) (bd : Breakdown VlanTunnel)
    → vlan_tunnel_lc_rule switch_id inport outport vlan_in vlan_out true bandwidth ≡ ok r
    → ok (with_rule shortname r) ≡ ok bd
    → Serves bd.rules (hop switch_id inport vlan_in outport vlan_out)
      × Serves bd.rules (hop switch_id outport vlan_out inport vlan_in)
rule-Serves switch_id inport outport vlan_in vlan_out bandwidth r shortname bd made e =
    let shape = rule_shape switch_id inport outport vlan_in vlan_out bandwidth r made in
    subst
      (λ (b : Breakdown VlanTunnel).
        Serves b.rules (hop switch_id inport vlan_in outport vlan_out)
        × Serves b.rules (hop switch_id outport vlan_out inport vlan_in))
      (ok-injective (with_rule shortname r) bd e)
      (
        inl (ap hop_of shape),
        inr (inl (ap (λ (q : LcRule VlanTunnel). q.body.bidirectional) shape, ap back_of shape)),
      )
