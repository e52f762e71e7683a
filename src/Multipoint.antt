-- ===== src/Multipoint.antt =====
-- Multipoint networks: shared/L2MultipointPolicy.py, and the rules of
-- shared/L2MultipointEndpointLCRule.py, shared/L2MultipointFloodLCRule.py and
-- shared/L2MultipointLearnedDestinationLCRule.py. This file has the policy, its equality and the rules.
pub mod Syntax
pub mod Nodes
pub mod Learned
pub mod Sends
pub mod Toward
pub mod Covers
mod Tests
mod LearnedTests
use atlanticwave_proto.Prelude.{
  ℕ, zero, suc, String, Option, none, some, List, [], ◌∷◌, Bool, true, ◌&&◌, ◌||◌, ◌==◌,
  text_equality, if◌then◌else◌,
}
use atlanticwave_proto.Prelude.Int.{ℤ, pos, ltb_ℤ, int_eq}
use atlanticwave_proto.Prelude.Action.{Result, ok, err, lc_rule_type_error, name_error}
use atlanticwave_proto.Topology.Graph.{NetworkX}
use atlanticwave_proto.Topology.Resources.{Resource}
use atlanticwave_proto.Rules.{LcRule, Breakdown}
use atlanticwave_proto.Tunnel.{Field, field_eq, TunnelEnd}

-- what the three classes of rules add to an `LCRule`
pub data MultipointRule : Type 0 where
  endpoint_rule : List ℤ → List (ℤ × ℤ) → ℤ → Option ℤ → MultipointRule
  flood_rule : List ℤ → ℤ → MultipointRule
  learned_rule : String → ℤ → ℤ → ℤ → MultipointRule

abbrev new_rule : ℤ → MultipointRule → Result (LcRule MultipointRule)
new_rule switch_id body = ok (record { switch_id = switch_id; cookie = none; body = body })

-- `VLAN_MAX` of shared/L2MultipointEndpointLCRule.py
abbrev pub endpoint_vlan_max : ℤ
endpoint_vlan_max = pos 4080

abbrev pub beyond : ℤ → ℤ → Bool
beyond limit vlan = ltb_ℤ vlan (pos 0) || ltb_ℤ limit vlan

-- The loop over the ports and VLANs; its message reads a name that is not defined.
abbrev pub check_endpoints : List (ℤ × ℤ) → Result (Unit {0})
check_endpoints [] = ok tt
check_endpoints ((port, vlan) ∷ rest) =
    let checked = check_endpoints rest in
    if beyond endpoint_vlan_max vlan then err name_error else checked

-- The constructors; the arguments have the right types.
unfoldable pub endpoint_lc_rule :
    ℤ → List ℤ → List (ℤ × ℤ) → ℤ → Option ℤ → Result (LcRule MultipointRule)
endpoint_lc_rule switch_id flooding_ports endpoint_ports_and_vlans intermediate_vlan bandwidth =
    elim (check_endpoints endpoint_ports_and_vlans) [
      | err x ↦ err x
      | ok _ ↦
          new_rule switch_id
            (endpoint_rule flooding_ports endpoint_ports_and_vlans intermediate_vlan bandwidth)
    ]

unfoldable pub flood_lc_rule : ℤ → List ℤ → ℤ → Result (LcRule MultipointRule)
flood_lc_rule switch_id flooding_ports intermediate_vlan =
    new_rule switch_id (flood_rule flooding_ports intermediate_vlan)

unfoldable pub learned_lc_rule : ℤ → String → ℤ → ℤ → ℤ → Result (LcRule MultipointRule)
learned_lc_rule switch_id dst_address outport intermediate_vlan out_vlan =
    if beyond (pos 4095) intermediate_vlan
    then err lc_rule_type_error
    else (if beyond (pos 4095) out_vlan
        then err lc_rule_type_error
        else new_rule switch_id (learned_rule dst_address outport intermediate_vlan out_vlan))

-- The policy; `external` is its `external_endpoints`.
pub record L2MultipointPolicy (N : NetworkX) : Type 0 where
  pub start_time : Field
  pub stop_time : Field
  pub endpoints : List TunnelEnd
  pub bandwidth : ℤ
  pub intermediate_vlan : Option ℤ
  pub tree : Option N.Graph
  pub external_endpoints : List (String × String × ℤ)
  pub breakdown : Option (List (Breakdown MultipointRule))
  pub resources : List (Resource N)

-- `__eq__`, for another policy of the class. `sort` returns None, so the endpoints do not count.
unfoldable pub equals_policy : {N : NetworkX} → L2MultipointPolicy N → L2MultipointPolicy N → Bool
equals_policy self other = self.start_time == other.start_time && self.bandwidth == other.bandwidth
