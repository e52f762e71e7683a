-- ===== src/Tunnel/Tests.antt =====
-- A tunnel over three switches, and the theorems about tunnels at it.
use atlanticwave_proto.Prelude.{
  String, Option, none, some, List, [], ◌∷◌, ◌≡◌, ◌↔◌, ◌&&◌, refl, subst, true,
}
use atlanticwave_proto.Prelude.Lists.{All}
use atlanticwave_proto.Prelude.Int.{ℤ, pos, ◌+ℤ◌, ◌-ℤ◌}
use atlanticwave_proto.Prelude.Text.{codes, split, int}
use atlanticwave_proto.Prelude.Action.{ok}
use atlanticwave_proto.Topology.Graph.{NodeAttrs, EdgeAttrs, same_edge}
use atlanticwave_proto.Topology.Graph.Memory.{MemoryGraph, memory_graph, memory_graph-IsLawful}
use atlanticwave_proto.Topology.Manager.{Manager}
use atlanticwave_proto.Topology.Available.{
  get_available_vlan_list, available_vlans_of, parse_available_vlans, parse_ranges, range_from,
}
use atlanticwave_proto.Topology.Find.{
  find_vlan_on_path, try_vlans_on_path, used_on_points, closed_on_edges, vlan_range,
  find_valid_path, try_paths, enough_bw,
}
use atlanticwave_proto.Topology.Resources.{find_neighbor, get_switch_port_neighbor}
use atlanticwave_proto.Rules.{Breakdown}
use atlanticwave_proto.Tunnel.{
  VlanTunnel, text, number, L2TunnelPolicy, vlan_tunnel_lc_rule, equals_policy,
}
use atlanticwave_proto.Tunnel.Syntax.{JsonRule, check_syntax, checks, int_at, in_range, parse_json}
use atlanticwave_proto.Tunnel.Path.{
  path_rules, end_rule, middle_rule, middle_rules, single_rule, with_rule,
}
use atlanticwave_proto.Tunnel.Route.{breakdown_rule, tunnel_resources}
use atlanticwave_proto.Tunnel.Delivery.{Delivered}
use atlanticwave_proto.Tunnel.Carries.{Joins}
use atlanticwave_proto.Tunnel.Arrives.{breakdown_rule-Delivered}
use atlanticwave_proto.Tunnel.Checked.{IsBounded, check_syntax-parse_json}
use atlanticwave_proto.Tunnel.Same.{Same, equals_policy_equivalence}

abbrev node : String → ℤ → NodeAttrs
node shortname dpid = record {
  kind = some "switch";
  vlans_in_use = some (pos 1 ∷ []);
  locationshortname = some shortname;
  dpid = some dpid;
}

abbrev link : List (String × ℤ) → EdgeAttrs
link ports = record {
  weight = pos 100;
  bw_in_use = pos 30;
  vlans_in_use = [];
  available_vlans = "1-20";
  ports = ports;
}

abbrev graph : MemoryGraph
graph = record {
  node_list =
      ("a", node "atl" (pos 11)) ∷ ("b", node "jax" (pos 12)) ∷ ("c", node "mia" (pos 13)) ∷ [];
  edge_list =
      ("a", "b", link (("a", pos 1) ∷ ("b", pos 2) ∷ []))
      ∷ ("b", "c", link (("b", pos 3) ∷ ("c", pos 4) ∷ []))
      ∷ [];
  paths = ("a" ∷ "b" ∷ "c" ∷ []) ∷ [];
}

abbrev manager : Manager memory_graph
manager = record { topo = graph; cached_vlans = [] }

abbrev policy : L2TunnelPolicy memory_graph
policy = record {
  start_time = text "1985";
  stop_time = text "1986";
  src = record { switch = "a"; port = pos 5; vlan = pos 1492 };
  dst = record { switch = "c"; port = pos 7; vlan = pos 1789 };
  bandwidth = pos 1;
  intermediate_vlan = none;
  fullpath = none;
  endpoints = [];
  breakdown = none;
  resources = [];
}

abbrev rule_at : String → ℤ → ℤ → ℤ → ℤ → ℤ → Breakdown VlanTunnel
rule_at shortname dpid inport outport vlan_in vlan_out = with_rule shortname (record {
  switch_id = dpid;
  cookie = none;
  body = record {
    inport = inport;
    outport = outport;
    vlan_in = vlan_in;
    vlan_out = vlan_out;
    bidirectional = true;
    bandwidth = some (pos 1);
  };
})

abbrev tunnel_rules : List (Breakdown VlanTunnel)
tunnel_rules =
    rule_at "atl" (pos 11) (pos 5) (pos 1) (pos 1492) (pos 2)
    ∷ rule_at "mia" (pos 13) (pos 7) (pos 4) (pos 1789) (pos 2)
    ∷ rule_at "jax" (pos 12) (pos 2) (pos 3) (pos 2) (pos 2)
    ∷ []

abbrev after : L2TunnelPolicy memory_graph
after = record policy {
  fullpath = some ("a" ∷ "b" ∷ "c" ∷ []);
  intermediate_vlan = some (pos 2);
  resources = tunnel_resources policy ("a" ∷ "b" ∷ "c" ∷ []) (pos 2);
  endpoints = ("a", none, pos 1492) ∷ ("c", none, pos 1789) ∷ [];
  breakdown = some tunnel_rules;
}

breaks_down : breakdown_rule policy manager ≡ (ok after, (breakdown_rule policy manager).1)
unfolding breakdown_rule find_valid_path try_paths enough_bw find_vlan_on_path try_vlans_on_path
    used_on_points closed_on_edges vlan_range get_available_vlan_list parse_available_vlans
    available_vlans_of parse_ranges range_from ◌+ℤ◌ ◌-ℤ◌ split int same_edge find_neighbor
    get_switch_port_neighbor path_rules end_rule middle_rule middle_rules single_rule
    vlan_tunnel_lc_rule
breaks_down = refl

some-injective : {A : Type 0} (a b : A) → some a ≡ some b → a ≡ b
some-injective a b e = cc

joined :
    (paths : List (List String))
    → memory_graph.all_shortest_paths graph "a" "c" ≡ some paths
    → All (Joins "a" "c") paths
joined paths e = subst (All (Joins "a" "c")) (some-injective graph.paths paths e) ((refl, refl), tt)

breakdown_rule-Delivered_example :
    (bds : List (Breakdown VlanTunnel)) × (after.breakdown ≡ some bds)
    × Delivered memory_graph
        (breakdown_rule policy manager).1.topo
        bds
        "a"
        (pos 5)
        (pos 1492)
        policy.dst
breakdown_rule-Delivered_example =
    breakdown_rule-Delivered policy memory_graph-IsLawful manager (breakdown_rule policy manager).1
      after joined breaks_down

abbrev json_rule : JsonRule
json_rule =
    (
      "L2Tunnel",
      ("starttime", text "5")
          ∷ ("endtime", text "6")
          ∷ ("srcswitch", text "a")
          ∷ ("dstswitch", text "c")
          ∷ ("srcport", number (pos 5))
          ∷ ("dstport", text "7")
          ∷ ("srcvlan", number (pos 1492))
          ∷ ("dstvlan", number (pos 1789))
          ∷ ("bandwidth", number (pos 1))
          ∷ [],
    )
    ∷ []

-- a clock that reads a text as a number of seconds
abbrev seconds : String → Option ℤ
seconds t = int (codes t)

abbrev no_text : ℤ → String
no_text n = ""

json_passes : check_syntax seconds no_text json_rule ≡ ok tt
unfolding check_syntax checks int_at in_range int
json_passes = refl

check_syntax-parse_json_example :
    (p : L2TunnelPolicy memory_graph) × (parse_json seconds no_text json_rule ≡ ok p)
    × IsBounded seconds no_text p
check_syntax-parse_json_example =
    check_syntax-parse_json seconds no_text memory_graph json_rule json_passes refl refl

-- the same tunnel from its other end
abbrev flipped : L2TunnelPolicy memory_graph
flipped = record policy { src = policy.dst; dst = policy.src }

flipped_is_same : equals_policy policy flipped ≡ true
unfolding equals_policy
flipped_is_same = refl

equals_policy_equivalence_example :
    ((equals_policy policy flipped ≡ true) ↔ Same policy flipped)
    × (equals_policy policy policy ≡ true)
    × (equals_policy policy flipped ≡ equals_policy flipped policy)
    × ((equals_policy policy flipped && equals_policy flipped policy)
        ≡ (equals_policy policy flipped && equals_policy policy policy))
equals_policy_equivalence_example = equals_policy_equivalence policy flipped policy
