-- ===== src/Tunnel.antt =====
-- Tunnels between two switches: shared/L2TunnelPolicy.py and the rules of shared/VlanTunnelLCRule.py.
-- This file has the policy, its equality and the rules.
pub mod Syntax
pub mod Path
pub mod Route
pub mod Delivery
pub mod Serves
pub mod Carries
pub mod Arrives
pub mod Checked
pub mod Same
mod Tests
use atlanticwave_proto.Prelude.{
  ℕ, zero, suc, String, Option, none, some, List, [], Bool, true, false, Eq, ◌≡◌, refl, ◌↔◌, arith,
  ◌&&◌, ◌||◌, ◌==◌, text_equality, if◌then◌else◌,
}
use atlanticwave_proto.Prelude.Int.{ℤ, pos, ltb_ℤ, int_eq}
use atlanticwave_proto.Prelude.Action.{Result, ok, err, lc_rule_value_error}
use atlanticwave_proto.Topology.Graph.{NetworkX}
use atlanticwave_proto.Topology.Resources.{Resource}
use atlanticwave_proto.Rules.{LcRule, Breakdown}

-- what a `VlanTunnelLCRule` adds to an `LCRule`
pub record VlanTunnel : Type 0 where
  pub inport : ℤ
  pub outport : ℤ
  pub vlan_in : ℤ
  pub vlan_out : ℤ
  pub bidirectional : Bool
  pub bandwidth : Option ℤ

abbrev pub vlan_min : ℤ
vlan_min = pos 0

abbrev pub vlan_max : ℤ
vlan_max = pos 4095

-- `(vlan < VLAN_MIN) or (vlan > VLAN_MAX)`
abbrev pub is_outside : ℤ → Bool
is_outside vlan = ltb_ℤ vlan vlan_min || ltb_ℤ vlan_max vlan

-- The constructor, for arguments of the right types: the checks of types are left out, also the one that
-- refuses a bandwidth that is a long.
unfoldable pub vlan_tunnel_lc_rule :
    ℤ → ℤ → ℤ → ℤ → ℤ → Bool → Option ℤ → Result (LcRule VlanTunnel)
vlan_tunnel_lc_rule switch_id inport outport vlan_in vlan_out bidirectional bandwidth =
    if is_outside vlan_in
    then err lc_rule_value_error
    else (if is_outside vlan_out
        then err lc_rule_value_error
        else ok (record {
          switch_id = switch_id;
          cookie = none;
          body = record {
            inport = inport;
            outport = outport;
            vlan_in = vlan_in;
            vlan_out = vlan_out;
            bidirectional = bidirectional;
            bandwidth = bandwidth;
          };
        }))

-- a value in the dictionary of a rule
pub data Field : Type 0 where
  text : String → Field
  number : ℤ → Field

abbrev same_field : Field → Field → Bool
same_field (text s) (text t) = s == t
same_field (number m) (number n) = m == n
same_field _ _ = false

pub same_field_iff : (a b : Field) → (same_field a b ≡ true) ↔ (a ≡ b)
same_field_iff (text s) (text t) = ground (arith, text_equality.equals_iff s t)
same_field_iff (number m) (number n) = ground (arith, int_eq.equals_iff m n)
same_field_iff (text s) (number n) = ground arith
same_field_iff (number m) (text t) = ground arith

instance abbrev pub field_eq : Eq Field
field_eq = record { equals = same_field; equals_iff = same_field_iff }

-- one end of a tunnel
pub record TunnelEnd : Type 0 where
  pub switch : String
  pub port : ℤ
  pub vlan : ℤ

pub record L2TunnelPolicy (N : NetworkX) : Type 0 where
  pub start_time : Field
  pub stop_time : Field
  pub src : TunnelEnd
  pub dst : TunnelEnd
  pub bandwidth : ℤ
  pub intermediate_vlan : Option ℤ
  pub fullpath : Option (List String)
  pub endpoints : List (String × Option String × ℤ)
  pub breakdown : Option (List (Breakdown VlanTunnel))
  pub resources : List (Resource N)

abbrev pub same_end : TunnelEnd → TunnelEnd → Bool
same_end a b = a.switch == b.switch && (a.port == b.port && a.vlan == b.vlan)

-- `__eq__`, for another policy of the class
unfoldable pub equals_policy : {N : NetworkX} → L2TunnelPolicy N → L2TunnelPolicy N → Bool
equals_policy self other =
    self.start_time == other.start_time
    && (self.stop_time == other.stop_time
        && (self.bandwidth == other.bandwidth
            && (same_end self.src other.src && same_end self.dst other.dst
                || same_end self.src other.dst && same_end self.dst other.src)))
