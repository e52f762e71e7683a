-- ===== src/Learning.antt =====
-- The policies with which switches learn where destinations are: shared/EdgePortPolicy.py,
-- shared/FloodTreePolicy.py and shared/LearnedDestinationPolicy.py, with their rules. The topology is
-- only read: the key `name` that two of them write into a node's attributes is left out, as it is read
-- only there.
mod Tests
use atlanticwave_proto.Prelude.{
  String, Option, none, some, List, [], ◌∷◌, Bool, true, ◌||◌, ◌==◌, text_equality, if◌then◌else◌,
}
use atlanticwave_proto.Prelude.Lists.{lookup}
use atlanticwave_proto.Prelude.Int.{ℤ}
use atlanticwave_proto.Prelude.Action.{
  Result, ok, err, key_error, network_x_error, name_error, user_policy_value_error,
}
use atlanticwave_proto.Prelude.Outcome.{get_or, returns, ◌>>=◌}
use atlanticwave_proto.Topology.Graph.{NetworkX}
use atlanticwave_proto.Rules.{LcRule, Breakdown}
use atlanticwave_proto.Tunnel.{Field}
use atlanticwave_proto.Tunnel.Syntax.{Fields, value_at, int_at, in_range, text_at, handled}
use atlanticwave_proto.Tunnel.Path.{location_of, port_at}
use atlanticwave_proto.Multipoint.Learned.{second, switches_of}

-- what `EdgePortLCRule`, `FloodTreeLCRule` and `LearnedDestinationLCRule` add to an `LCRule`
pub data LearningRule : Type 0 where
  edge_port_rule : ℤ → LearningRule
  flood_tree_rule : List ℤ → LearningRule
  destination_rule : String → ℤ → LearningRule

-- The constructors; the arguments have the right types.
abbrev pub edge_port_lc_rule : ℤ → ℤ → LcRule LearningRule
edge_port_lc_rule switch_id edgeport = record {
  switch_id = switch_id;
  cookie = none;
  body = edge_port_rule edgeport;
}

abbrev pub flood_tree_lc_rule : ℤ → List ℤ → LcRule LearningRule
flood_tree_lc_rule switch_id ports = record {
  switch_id = switch_id;
  cookie = none;
  body = flood_tree_rule ports;
}

abbrev pub learned_destination_lc_rule : ℤ → String → ℤ → LcRule LearningRule
learned_destination_lc_rule switch_id dst_address outport = record {
  switch_id = switch_id;
  cookie = none;
  body = destination_rule dst_address outport;
}

-- the attributes of `LearnedDestinationPolicy`
pub record LearnedDestination : Type 0 where
  pub dst_switch : String
  pub dst_port : ℤ
  pub dst_address : String

-- `json_rule`, with the dictionary under the name of each policy
abbrev pub JsonRule : Type 0
JsonRule = List (String × Fields)

module _ (strptime : String → Option ℤ) (str : ℤ → String) where
  -- `EdgePortPolicy.check_syntax` and `_parse_json`
  unfoldable pub check_edge_port : JsonRule → Result (Unit {0})
  check_edge_port json_rule = handled strptime str (do
    fields ← get_or (lookup "EdgePort" json_rule) key_error
    switch ← value_at "switch" fields
    returns tt)

  unfoldable pub parse_edge_port : JsonRule → Result String
  parse_edge_port json_rule = do
    fields ← get_or (lookup "EdgePort" json_rule) user_policy_value_error
    text_at strptime str "switch" fields

  -- `LearnedDestinationPolicy.check_syntax` and `_parse_json`
  unfoldable pub check_learned_destination : JsonRule → Result (Unit {0})
  check_learned_destination json_rule = handled strptime str (do
    fields ← get_or (lookup "LearnedDestination" json_rule) key_error
    dst_switch ← value_at "dstswitch" fields
    dst_port ← int_at "dstport" fields
    dst_address ← value_at "dstaddress" fields
    in_range 24 dst_port)

  unfoldable pub parse_learned_destination : JsonRule → Result LearnedDestination
  parse_learned_destination json_rule = do
    fields ← get_or (lookup "LearnedDestination" json_rule) user_policy_value_error
    dst_switch ← text_at strptime str "dstswitch" fields
    dst_port ← int_at "dstport" fields
    dst_address ← text_at strptime str "dstaddress" fields
    returns (record { dst_switch = dst_switch; dst_port = dst_port; dst_address = dst_address })

module _ (N : NetworkX) (topology : N.Graph) where
  -- the loop of `EdgePortPolicy.breakdown_rule` over the neighbours of the switch
  unfoldable pub edge_ports : ℤ → String → List String → Result (List (LcRule LearningRule))
  edge_ports switch_id switch [] = returns []
  edge_ports switch_id switch (neighbor ∷ neighbors) = do
    let rest = edge_ports switch_id switch neighbors
    let port = port_at N topology switch neighbor switch
    v ← get_or (N.node topology neighbor) key_error
    kind ← get_or v.kind key_error
    if kind == "switch" then rest else (do
      edge_port ← port
      rules ← rest
      returns (edge_port_lc_rule switch_id edge_port ∷ rules))

  -- `EdgePortPolicy.breakdown_rule`
  unfoldable pub breakdown_edge_port : String → Result (List (Breakdown LearningRule))
  breakdown_edge_port switch = do
    (shortname, switch_id) ← location_of N topology switch
    neighbors ← get_or (N.neighbors topology switch) network_x_error
    rules ← edge_ports switch_id switch neighbors
    returns (record { lc = shortname; rules = rules } ∷ [])

  -- the ports of a node on the spanning tree
  unfoldable pub tree_ports : N.Graph → String → List String → Result (List ℤ)
  tree_ports spanning_tree node [] = returns []
  tree_ports spanning_tree node (neighbor ∷ neighbors) = do
    let rest = tree_ports spanning_tree node neighbors
    port ← port_at N spanning_tree node neighbor node
    ports ← rest
    returns (port ∷ ports)

  -- the loop of `FloodTreePolicy.breakdown_rule` over the switches
  unfoldable pub flood_rules : N.Graph → List String → Result (List (Breakdown LearningRule))
  flood_rules spanning_tree [] = returns []
  flood_rules spanning_tree (node ∷ nodes) = do
    let rest = flood_rules spanning_tree nodes
    (shortname, dpid) ← location_of N topology node
    neighbors ← get_or (N.neighbors spanning_tree node) network_x_error
    ports ← tree_ports spanning_tree node neighbors
    bds ← rest
    returns (record { lc = shortname; rules = flood_tree_lc_rule dpid ports ∷ [] } ∷ bds)

  -- `nx.minimum_spanning_tree` and `nx.shortest_path`, which raises where there is no path
  module _ (minimum_spanning_tree : N.Graph → N.Graph)
      (shortest_path : N.Graph → String → String → Result (List String)) where
    -- `FloodTreePolicy.breakdown_rule`
    unfoldable pub breakdown_flood_tree : Result (List (Breakdown LearningRule))
    breakdown_flood_tree = do
      switches ← switches_of N shortest_path topology (N.nodes topology)
      flood_rules (minimum_spanning_tree topology) switches

    -- the port of a switch toward the destination
    abbrev pub port_toward : LearnedDestination → String → Result ℤ
    port_toward policy node =
        let toward = (do
          path ← shortest_path topology node policy.dst_switch
          next_node ← second path
          port_at N topology node next_node node) in
        if node == policy.dst_switch then ok policy.dst_port else toward

    -- the loop of `LearnedDestinationPolicy.breakdown_rule` over the switches
    unfoldable pub destination_rules :
        LearnedDestination → List String → Result (List (Breakdown LearningRule))
    destination_rules policy [] = returns []
    destination_rules policy (node ∷ nodes) = do
      let rest = destination_rules policy nodes
      (shortname, switch_id) ← location_of N topology node
      outport ← port_toward policy node
      bds ← rest
      returns (
          record {
            lc = shortname;
            rules = learned_destination_lc_rule switch_id policy.dst_address outport ∷ [];
          }
          ∷ bds)

    -- `LearnedDestinationPolicy.breakdown_rule`
    unfoldable pub breakdown_learned_destination :
        LearnedDestination → Result (List (Breakdown LearningRule))
    breakdown_learned_destination policy = do
      switches ← switches_of N shortest_path topology (N.nodes topology)
      destination_rules policy switches
