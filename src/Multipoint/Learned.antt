-- ===== src/Multipoint/Learned.antt =====
-- `switch_change_callback` of shared/L2MultipointPolicy.py: the rules for a destination that a local
-- controller has learned. The key `name` that it writes into a node's attributes is left out, as it is
-- read only there.
use atlanticwave_proto.Prelude.{String, Option, List, [], ◌∷◌, ◌==◌, text_equality, if◌then◌else◌}
use atlanticwave_proto.Prelude.Int.{ℤ}
use atlanticwave_proto.Prelude.Action.{
  Result, ok, err, key_error, index_error, name_error, attribute_error, lc_rule_type_error,
}
use atlanticwave_proto.Prelude.Outcome.{get_or, returns, ◌>>=◌}
use atlanticwave_proto.Topology.Graph.{NetworkX}
use atlanticwave_proto.Rules.{Breakdown}
use atlanticwave_proto.Tunnel.{TunnelEnd}
use atlanticwave_proto.Tunnel.Path.{location_of, port_at}
use atlanticwave_proto.Multipoint.{MultipointRule, L2MultipointPolicy, learned_lc_rule}

-- `data`: the port at which an address was seen
pub record Change : Type 0 where
  pub dstswitch : String
  pub dstport : ℤ
  pub dstaddress : String

-- The VLAN of the first endpoint at a switch; without one the variable is not bound.
abbrev pub outbound_vlan : String → List TunnelEnd → Result ℤ
outbound_vlan dst_switch [] = err name_error
outbound_vlan dst_switch (d ∷ endpoints) =
    let rest = outbound_vlan dst_switch endpoints in
    if d.switch == dst_switch then ok d.vlan else rest

-- `path[1]`
abbrev pub second : List String → Result String
second (x ∷ y ∷ nodes) = ok y
second _ = err index_error

-- `nx.shortest_path`, which raises where there is no path
module _ (N : NetworkX) (shortest_path : N.Graph → String → String → Result (List String))
    (topology : N.Graph) where
  -- the nodes whose type is a switch
  unfoldable pub switches_of : List String → Result (List String)
  switches_of [] = returns []
  switches_of (name ∷ names) = do
    let rest = switches_of names
    v ← get_or (N.node topology name) key_error
    kind ← get_or v.kind key_error
    switches ← rest
    returns (if kind == "switch" then name ∷ switches else switches)

  abbrev pub with_learned :
      String → ℤ → String → ℤ → Option ℤ → ℤ → Result (Breakdown MultipointRule)
  with_learned shortname switch_id dst_address outport intermediate_vlan out_vlan = do
    vlan ← get_or intermediate_vlan lc_rule_type_error
    r ← learned_lc_rule switch_id dst_address outport vlan out_vlan
    returns (record { lc = shortname; rules = r ∷ [] })

  -- the rule of the destination's switch
  abbrev pub learned_here :
      L2MultipointPolicy N → Change → String → Result (Breakdown MultipointRule)
  learned_here policy change node = do
    (shortname, switch_id) ← location_of N topology node
    out_vlan ← outbound_vlan change.dstswitch policy.endpoints
    with_learned shortname switch_id change.dstaddress change.dstport policy.intermediate_vlan
        out_vlan

  -- the rule of another switch, on the way to the destination
  abbrev pub learned_there :
      L2MultipointPolicy N → N.Graph → Change → String → Result (Breakdown MultipointRule)
  learned_there policy tree change node = do
    (shortname, switch_id) ← location_of N topology node
    path ← shortest_path tree node change.dstswitch
    next_node ← second path
    out_port ← port_at N tree node next_node node
    vlan ← get_or policy.intermediate_vlan lc_rule_type_error
    with_learned shortname switch_id change.dstaddress out_port policy.intermediate_vlan vlan

  -- the loop over the switches
  unfoldable pub learned_rules :
      L2MultipointPolicy N
      → N.Graph
      → Change
      → List String
      → Result (List (Breakdown MultipointRule))
  learned_rules policy tree change [] = returns []
  learned_rules policy tree change (node ∷ nodes) = do
    let rest = learned_rules policy tree change nodes
    let here = learned_here policy change node
    let there = learned_there policy tree change node
    bd ← (if node == change.dstswitch then here else there)
    bds ← rest
    returns (bd ∷ bds)

  unfoldable pub switch_change_callback :
      L2MultipointPolicy N → Change → Result (List (Breakdown MultipointRule))
  switch_change_callback policy change = do
    tree ← get_or policy.tree attribute_error
    switches ← switches_of (N.nodes tree)
    learned_rules policy tree change switches
