-- ===== src/Tunnel/Delivery.antt =====
-- What the rules of shared/L2TunnelPolicy.py do with a frame that enters a switch of the path.
use atlanticwave_proto.Prelude.{String, List, [], ◌∷◌, ◌≡◌, ◌⊎◌, true, text_equality}
use atlanticwave_proto.Prelude.Int.{ℤ}
use atlanticwave_proto.Prelude.Action.{ok}
use atlanticwave_proto.Topology.Graph.{NetworkX}
use atlanticwave_proto.Rules.{LcRule, Breakdown}
use atlanticwave_proto.Tunnel.{VlanTunnel, TunnelEnd}
use atlanticwave_proto.Tunnel.Path.{location_of, port_at}

-- A switch takes a frame with a VLAN from a port, and sends it out of a port with a VLAN.
pub record Hop : Type 0 where
  pub switch_id : ℤ
  pub inport : ℤ
  pub vlan_in : ℤ
  pub outport : ℤ
  pub vlan_out : ℤ

-- what a rule does, and what it does the other way round
abbrev pub hop_of : LcRule VlanTunnel → Hop
hop_of r = record {
  switch_id = r.switch_id;
  inport = r.body.inport;
  vlan_in = r.body.vlan_in;
  outport = r.body.outport;
  vlan_out = r.body.vlan_out;
}

abbrev pub back_of : LcRule VlanTunnel → Hop
back_of r = record {
  switch_id = r.switch_id;
  inport = r.body.outport;
  vlan_in = r.body.vlan_out;
  outport = r.body.inport;
  vlan_out = r.body.vlan_in;
}

-- a rule of the list makes the hop
abbrev pub Serves : List (LcRule VlanTunnel) → Hop → Type 0
Serves [] h = ⊥
Serves (r ∷ rs) h =
    (hop_of r ≡ h) ⊎ (((r.body.bidirectional ≡ true) × (back_of r ≡ h)) ⊎ Serves rs h)

-- a rule of one of the breakdowns makes the hop
abbrev pub Makes : List (Breakdown VlanTunnel) → Hop → Type 0
Makes [] h = ⊥
Makes (bd ∷ bds) h = Serves bd.rules h ⊎ Makes bds h

module _ (N : NetworkX) (topology : N.Graph) where
  -- the `dpid` of a switch
  abbrev pub IsDpid : String → ℤ → Type 0
  IsDpid location switch_id =
      (shortname : String) × (location_of N topology location ≡ ok (shortname, switch_id))

  -- With the rules, a frame that enters a switch by a port with a VLAN leaves a switch by a port with
  -- a VLAN. Between two switches it crosses an edge of the topology.
  pub data Delivered (bds : List (Breakdown VlanTunnel)) : String → ℤ → ℤ → TunnelEnd → Type 0 where
    leaves :
        (location : String) (h : Hop)
        → IsDpid location h.switch_id
        → Makes bds h
        → Delivered bds location h.inport h.vlan_in
            (record { switch = location; port = h.outport; vlan = h.vlan_out })
    crosses :
        (location nextnode : String) (h : Hop) (port : ℤ) (end : TunnelEnd)
        → IsDpid location h.switch_id
        → Makes bds h
        → port_at N topology location nextnode location ≡ ok h.outport
        → port_at N topology location nextnode nextnode ≡ ok port
        → Delivered bds nextnode port h.vlan_out end
        → Delivered bds location h.inport h.vlan_in end
