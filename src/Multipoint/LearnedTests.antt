-- ===== src/Multipoint/LearnedTests.antt =====
-- A learned destination in a row of three switches, and the theorem about its rules.
use atlanticwave_proto.Prelude.{
  ℕ, ◌<◌, String, some, none, List, [], ◌∷◌, ◌≡◌, ◌≢◌, refl, inl, inr, arith, true, Bool-cases,
  ◌==◌, if◌then◌else◌, text_equality,
}
use atlanticwave_proto.Prelude.Lists.{contains}
use atlanticwave_proto.Prelude.Int.{ℤ, pos}
use atlanticwave_proto.Prelude.Action.{Result, ok}
use atlanticwave_proto.Topology.Graph.{NodeAttrs, EdgeAttrs, same_edge}
use atlanticwave_proto.Topology.Graph.Memory.{MemoryGraph, memory_graph}
use atlanticwave_proto.Rules.{Breakdown}
use atlanticwave_proto.Tunnel.{text}
use atlanticwave_proto.Multipoint.{
  MultipointRule, learned_rule, L2MultipointPolicy, learned_lc_rule,
}
use atlanticwave_proto.Multipoint.Learned.{
  Change, second, switches_of, learned_rules, switch_change_callback,
}
use atlanticwave_proto.Multipoint.Toward.{Reaches, switch_change_callback-Reaches}

abbrev node : String → ℤ → NodeAttrs
node shortname dpid = record {
  kind = some "switch";
  vlans_in_use = some [];
  locationshortname = some shortname;
  dpid = some dpid;
}

abbrev link : List (String × ℤ) → EdgeAttrs
link ports = record {
  weight = pos 100;
  bw_in_use = pos 0;
  vlans_in_use = [];
  available_vlans = "1-20";
  ports = ports;
}

abbrev row : MemoryGraph
row = record {
  node_list =
      ("a", node "atl" (pos 11)) ∷ ("b", node "jax" (pos 12)) ∷ ("c", node "mia" (pos 13)) ∷ [];
  edge_list =
      ("a", "b", link (("a", pos 1) ∷ ("b", pos 2) ∷ []))
      ∷ ("b", "c", link (("b", pos 3) ∷ ("c", pos 4) ∷ []))
      ∷ [];
  paths = [];
}

-- the shortest paths of the row to its last node
abbrev path_in_row : MemoryGraph → String → String → Result (List String)
path_in_row g source target = ok (
    if source == "a"
    then "a" ∷ "b" ∷ "c" ∷ []
    else if source == "b"
    then "b" ∷ "c" ∷ []
    else "c" ∷ [])

abbrev rank : String → ℕ
rank n = if n == "a" then 2 else if n == "b" then 1 else 0

abbrev change : Change
change = record { dstswitch = "c"; dstport = pos 8; dstaddress = "00:11" }

abbrev policy : L2MultipointPolicy memory_graph
policy = record {
  start_time = text "1985";
  stop_time = text "1986";
  endpoints =
      record { switch = "a"; port = pos 5; vlan = pos 286 }
      ∷ record { switch = "c"; port = pos 8; vlan = pos 1856 }
      ∷ [];
  bandwidth = pos 10;
  intermediate_vlan = some (pos 2);
  tree = some row;
  external_endpoints = [];
  breakdown = none;
  resources = [];
}

abbrev rule_at : String → ℤ → ℤ → ℤ → Breakdown MultipointRule
rule_at shortname dpid outport out_vlan = record {
  lc = shortname;
  rules =
      record {
        switch_id = dpid;
        cookie = none;
        body = learned_rule "00:11" outport (pos 2) out_vlan;
      }
      ∷ [];
}

abbrev row_rules : List (Breakdown MultipointRule)
row_rules =
    rule_at "atl" (pos 11) (pos 1) (pos 2)
    ∷ rule_at "jax" (pos 12) (pos 3) (pos 2)
    ∷ rule_at "mia" (pos 13) (pos 8) (pos 1856)
    ∷ []

rules_are_made : switch_change_callback memory_graph path_in_row row policy change ≡ ok row_rules
unfolding switch_change_callback switches_of learned_rules learned_lc_rule same_edge
rules_are_made = refl

kinds :
    (n : String)
    → contains (memory_graph.nodes row) n ≡ true
    → (v : NodeAttrs) × (memory_graph.node row n ≡ some v) × (v.kind ≡ some "switch")
kinds n there = elim (Bool-cases (n == "a")) [
  | inl a ↦ (node "atl" (pos 11), ground (arith, a), refl)
  | inr not_a ↦ elim (Bool-cases (n == "b")) [
    | inl b ↦ (node "jax" (pos 12), ground (arith, not_a, b), refl)
    | inr not_b ↦ (node "mia" (pos 13), ground (arith, not_a, not_b, there), refl)
  ]
]

nearer :
    (n : String) (path : List String)
    → contains (memory_graph.nodes row) n ≡ true
    → n ≢ "c"
    → path_in_row row n "c" ≡ ok path
    → (y : String) × (second path ≡ ok y)
      × (contains (memory_graph.nodes row) y ≡ true)
      × (rank y < rank n)
nearer n path there other e = elim (Bool-cases (n == "a")) [
  | inl a ↦ ("b", ground (arith, a, e), refl, ground (arith, a))
  | inr not_a ↦ elim (Bool-cases (n == "b")) [
    | inl b ↦ ("c", ground (arith, not_a, b, e), refl, ground (arith, not_a, b))
    | inr not_b ↦
        absurd (other ((text_equality.equals_iff n "c").0 (ground (arith, not_a, not_b, there))))
  ]
]

switch_change_callback-Reaches_example :
    Reaches memory_graph path_in_row row policy row change (pos 2) refl row_rules "a"
switch_change_callback-Reaches_example =
    switch_change_callback-Reaches memory_graph path_in_row row policy row change (pos 2) refl rank
      row_rules "a" refl kinds nearer rules_are_made refl
