-- ===== src/Rules/Tests.antt =====
-- A rule manager over a small topology in memory, and the theorems about it.
use atlanticwave_proto.Prelude.{
  ℕ, Option, none, some, List, [], ◌∷◌, ◌++◌, ◌≡◌, refl, true, if◌then◌else◌, ◌==◌, text_equality,
}
use atlanticwave_proto.Prelude.Int.{pos, ◌+ℤ◌}
use atlanticwave_proto.Prelude.Action.{ok, err, topology_manager_error, attribute_error}
use atlanticwave_proto.Database.{count, rows_with}
use atlanticwave_proto.Database.Memory.{memory_table, memory_table-IsLawful}
use atlanticwave_proto.Topology.Graph.{NodeAttrs, EdgeAttrs, same_edge}
use atlanticwave_proto.Topology.Graph.Memory.{memory_graph, memory_graph-IsLawful}
use atlanticwave_proto.Topology.Manager.{Manager}
use atlanticwave_proto.Topology.Loops.{check_edges, update_edges, check_nodes, update_nodes}
use atlanticwave_proto.Topology.Bandwidth.{reserve_bw}
use atlanticwave_proto.Topology.Vlans.{reserve_vlan}
use atlanticwave_proto.Topology.Resources.{
  bandwidth_path, vlan_path, reserve_resource, reserve_bw_on_path, reserve_vlan_on_path,
}
use atlanticwave_proto.Rules.{Outside, UserPolicy, RuleManager, RuleRow, Breakdown, active_rule}
use atlanticwave_proto.Rules.Install.{
  reserve_resources, install_breakdown, install_rule, restart_remove_timer, next_stop,
  restart_install_timer,
}
use atlanticwave_proto.Rules.Cycle.{
  add_rule, determine_breakdown, get_breakdown, get_new_rule_number, add_rule_to_db, is_authorized,
  has_hash,
}
use atlanticwave_proto.Rules.Fresh.{IsNumbered, add_rule-IsNumbered, add_rule_fresh}
use atlanticwave_proto.Rules.Partial.{reserve_resources_partial}
use atlanticwave_proto.Rules.Timer.{add_rule_to_db_untimed}
use atlanticwave_proto.Rules.Callbacks.{remove_due, rule_remove_timer_cb}
use atlanticwave_proto.Rules.Quiet.{rule_remove_timer_cb_quiet}

abbrev switch : NodeAttrs
switch = record {
  kind = some "switch";
  vlans_in_use = some [];
  locationshortname = some "atl";
  dpid = some (pos 1);
}

abbrev link : EdgeAttrs
link = record {
  weight = pos 100;
  bw_in_use = pos 0;
  vlans_in_use = [];
  available_vlans = "1-20";
  ports = ("a", pos 1) ∷ ("b", pos 2) ∷ [];
}

abbrev topology : Manager memory_graph
topology = record {
  topo = record {
    node_list = ("a", switch) ∷ ("b", switch) ∷ [];
    edge_list = ("a", "b", link) ∷ [];
    paths = [];
  };
  cached_vlans = [];
}

-- a tunnel from `a` to `b` that needs the VLAN 5 and some bandwidth
abbrev tunnel : UserPolicy memory_graph ℕ
tunnel = record {
  username = "user";
  ruletype = "L2Tunnel";
  json_rule = "";
  breakdown = none;
  rule_hash = none;
  resources = vlan_path ("a" ∷ "b" ∷ []) (pos 5) ∷ bandwidth_path ("a" ∷ "b" ∷ []) (pos 60) ∷ [];
  start_time = none;
  stop_time = none;
}

abbrev row : RuleRow (UserPolicy memory_graph ℕ) (Option (List (Breakdown ℕ)))
row = record {
  hash = pos 3;
  rule = tunnel;
  ruletype = "L2Tunnel";
  user = "user";
  state = active_rule;
  starttime = none;
  stoptime = none;
  extendedbd = none;
}

abbrev outside : Outside memory_graph
outside = record {
  Body = ℕ;
  pickled_rule = record {
    Text = UserPolicy memory_graph ℕ;
    dumps = λ a. a;
    loads = λ a. a;
    loads-dumps = λ a. refl;
  };
  pickled_breakdown = record {
    Text = Option (List (Breakdown ℕ));
    dumps = λ a. a;
    loads = λ a. a;
    loads-dumps = λ a. refl;
  };
  table = memory_table (RuleRow (UserPolicy memory_graph ℕ) (Option (List (Breakdown ℕ))));
  find_ordered = λ p column t.
      (memory_table (RuleRow (UserPolicy memory_graph ℕ) (Option (List (Breakdown ℕ))))).find p t;
  strptime = λ text. if text == "sooner" then some (pos 3) else some (pos 9);
  check_validity = λ rule graph. ok true;
  breakdown_rule = λ s. (ok (some []), s);
}

abbrev rules : RuleManager outside
rules = record {
  topology = topology;
  rule_table = row ∷ [];
  rule_number = pos 4;
  last_modified = pos 0;
  sent = [];
  install_next_time = none;
  remove_next_time = none;
  install_callbacks = "rest" ∷ [];
  remove_callbacks = [];
  called = [];
}

no_number_above : IsNumbered outside rules
unfolding count
no_number_above = refl

add_rule-IsNumbered_example : IsNumbered outside (add_rule outside (pos 7) tunnel rules).1
add_rule-IsNumbered_example =
    add_rule-IsNumbered outside (memory_table-IsLawful _) (pos 7) tunnel rules no_number_above

returns : (add_rule outside (pos 7) tunnel rules).0 ≡ ok (pos 5)
unfolding add_rule determine_breakdown get_breakdown is_authorized get_new_rule_number
    add_rule_to_db install_rule reserve_resources install_breakdown restart_remove_timer next_stop
    restart_install_timer reserve_resource reserve_bw_on_path reserve_vlan_on_path reserve_bw
    reserve_vlan check_edges update_edges check_nodes update_nodes same_edge ◌+ℤ◌
returns = refl

add_rule_fresh_example :
    (rows_with outside.table (has_hash outside (pos 5)) rules.rule_table ≡ 0)
    × (rows_with outside.table
          (has_hash outside (pos 5))
          (add_rule outside (pos 7) tunnel rules).1.rule_table
        ≡ 1)
unfolding count
add_rule_fresh_example =
    add_rule_fresh outside (memory_table-IsLawful _) (pos 7) tunnel rules (pos 5) (pos 5)
      no_number_above returns

-- The VLAN is reserved and stays reserved when the second bandwidth does not fit.
reserve_resources_partial_example :
    reserve_resources outside
      (tunnel.resources ++ bandwidth_path ("a" ∷ "b" ∷ []) (pos 60) ∷ [])
      rules
    ≡ (err topology_manager_error, (reserve_resources outside tunnel.resources rules).1)
unfolding reserve_resources reserve_resource reserve_bw_on_path reserve_vlan_on_path reserve_bw
    reserve_vlan check_edges update_edges check_nodes update_nodes same_edge ◌+ℤ◌
reserve_resources_partial_example =
    reserve_resources_partial outside memory_graph-IsLawful tunnel.resources
      (bandwidth_path ("a" ∷ "b" ∷ []) (pos 60)) [] rules topology_manager_error refl refl

abbrev timed : UserPolicy memory_graph ℕ
timed = record tunnel { start_time = some "sooner"; stop_time = some "later"; breakdown = some [] }

abbrev idle : RuleManager outside
idle = record rules { rule_table = [] }

timed_returns : (add_rule_to_db outside (pos 7) timed (pos 5) idle).0 ≡ ok tt
unfolding add_rule_to_db install_rule reserve_resources install_breakdown restart_remove_timer
    next_stop restart_install_timer reserve_resource reserve_bw_on_path reserve_vlan_on_path
    reserve_bw reserve_vlan check_edges update_edges check_nodes update_nodes same_edge ◌+ℤ◌
timed_returns = refl

add_rule_to_db_untimed_example :
    (add_rule_to_db outside (pos 7) timed (pos 5) idle).1.remove_next_time ≡ none
add_rule_to_db_untimed_example =
    add_rule_to_db_untimed outside (pos 7) timed (pos 5) idle "sooner" "later" (pos 3) (pos 9) refl
      refl refl refl refl refl refl timed_returns

-- the rule of the row has a stop that is over
abbrev overdue : RuleManager outside
overdue = record rules { rule_table = record row { stoptime = some "before" } ∷ [] }

rule_remove_timer_cb_quiet_example :
    ((rule_remove_timer_cb outside (pos 10) overdue).1.sent ≡ [])
    × ((rule_remove_timer_cb outside (pos 10) overdue).1.topology ≡ topology)
rule_remove_timer_cb_quiet_example = rule_remove_timer_cb_quiet outside (pos 10) overdue

overdue_test : (rule_remove_timer_cb outside (pos 10) overdue).0 ≡ err attribute_error
unfolding rule_remove_timer_cb remove_due
overdue_test = refl
