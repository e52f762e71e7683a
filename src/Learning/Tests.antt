-- ===== src/Learning/Tests.antt =====
-- The learning policies in a row of two switches with a host at the first one.
use atlanticwave_proto.Prelude.{String, Option, some, none, List, [], ◌∷◌, ◌≡◌, refl, text_equality}
use atlanticwave_proto.Prelude.Int.{ℤ, pos}
use atlanticwave_proto.Prelude.Action.{Result, ok, err, name_error}
use atlanticwave_proto.Topology.Graph.{NodeAttrs, EdgeAttrs, same_edge}
use atlanticwave_proto.Topology.Graph.Memory.{MemoryGraph, memory_graph}
use atlanticwave_proto.Tunnel.{text, number}
use atlanticwave_proto.Tunnel.Syntax.{int_at, in_range}
use atlanticwave_proto.Multipoint.Learned.{switches_of}
use atlanticwave_proto.Learning.{
  LearnedDestination, edge_port_lc_rule, flood_tree_lc_rule, learned_destination_lc_rule, JsonRule,
  check_learned_destination, parse_learned_destination, edge_ports, breakdown_edge_port, tree_ports,
  flood_rules, breakdown_flood_tree, destination_rules, breakdown_learned_destination,
}

abbrev node : String → String → ℤ → NodeAttrs
node kind shortname dpid = record {
  kind = some kind;
  vlans_in_use = some [];
  locationshortname = some shortname;
  dpid = some dpid;
}

abbrev link : List (String × ℤ) → EdgeAttrs
link ports = record {
  weight = pos 100;
  bw_in_use = pos 0;
  vlans_in_use = [];
  available_vlans = "1-20";
  ports = ports;
}

abbrev row : MemoryGraph
row = record {
  node_list =
      ("a", node "switch" "atl" (pos 11))
      ∷ ("b", node "switch" "jax" (pos 12))
      ∷ ("h", node "dtn" "atl" (pos 13))
      ∷ [];
  edge_list =
      ("a", "b", link (("a", pos 1) ∷ ("b", pos 2) ∷ []))
      ∷ ("a", "h", link (("a", pos 3) ∷ ("h", pos 4) ∷ []))
      ∷ [];
  paths = [];
}

abbrev to_b : MemoryGraph → String → String → Result (List String)
to_b g source target = ok (source ∷ "b" ∷ [])

abbrev whole : MemoryGraph → MemoryGraph
whole g = g

-- The port to the host is the edge port.
edge_port_test :
    breakdown_edge_port memory_graph row "a"
    ≡ ok (record { lc = "atl"; rules = edge_port_lc_rule (pos 11) (pos 3) ∷ [] } ∷ [])
unfolding breakdown_edge_port edge_ports same_edge
edge_port_test = refl

flood_tree_test :
    breakdown_flood_tree memory_graph row whole to_b
    ≡ ok (
        record { lc = "atl"; rules = flood_tree_lc_rule (pos 11) (pos 1 ∷ pos 3 ∷ []) ∷ [] }
        ∷ record { lc = "jax"; rules = flood_tree_lc_rule (pos 12) (pos 2 ∷ []) ∷ [] }
        ∷ [])
unfolding breakdown_flood_tree switches_of flood_rules tree_ports same_edge
flood_tree_test = refl

abbrev destination : LearnedDestination
destination = record { dst_switch = "b"; dst_port = pos 9; dst_address = "00:11" }

destination_test :
    breakdown_learned_destination memory_graph row whole to_b destination
    ≡ ok (
        record { lc = "atl"; rules = learned_destination_lc_rule (pos 11) "00:11" (pos 1) ∷ [] }
        ∷ record { lc = "jax"; rules = learned_destination_lc_rule (pos 12) "00:11" (pos 9) ∷ [] }
        ∷ [])
unfolding breakdown_learned_destination switches_of destination_rules same_edge
destination_test = refl

abbrev no_time : String → Option ℤ
no_time t = none

abbrev no_text : ℤ → String
no_text n = ""

abbrev json_rule : ℤ → JsonRule
json_rule port =
    (
      "LearnedDestination",
      ("dstswitch", text "b") ∷ ("dstport", number port) ∷ ("dstaddress", text "00:11") ∷ [],
    )
    ∷ []

parse_test : parse_learned_destination no_time no_text (json_rule (pos 9)) ≡ ok destination
unfolding parse_learned_destination int_at
parse_test = refl

check_test : check_learned_destination no_time no_text (json_rule (pos 25)) ≡ err name_error
unfolding check_learned_destination int_at in_range
check_test = refl
