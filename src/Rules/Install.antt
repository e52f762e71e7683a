-- ===== src/Rules/Install.antt =====
-- The helpers of sdxctlr/RuleManager.py that install and remove a rule: resources, breakdowns and
-- timers. A timer is the time it will go off at. The clock reads `now` during a whole call.
use atlanticwave_proto.Prelude.{String, Option, none, some, List, [], ◌∷◌, ◌++◌, map, ◌==◌}
use atlanticwave_proto.Prelude.Int.{ℤ, int_eq}
use atlanticwave_proto.Prelude.Action.{
  Action, pure, raise, gets, modify, or_raise, value_error, type_error, ◌>>=◌, ◌>>◌,
}
use atlanticwave_proto.Topology.Graph.{NetworkX}
use atlanticwave_proto.Topology.Manager.{Manager}
use atlanticwave_proto.Topology.Resources.{Resource, reserve_resource, unreserve_resource}
use atlanticwave_proto.Rules.{
  Outside, RuleManager, Policy, Row, Message, add_breakdown, rm_breakdown, Breakdown, active_rule,
  inactive_rule,
}

module _ {N : NetworkX} (O : Outside N) where
  -- a call of the topology manager
  abbrev pub on_topology : {A : Type 0} → Action (Manager N) A → Action (RuleManager O) A
  on_topology call rm = let (r, m) = call rm.topology in (r, record rm { topology = m })

  unfoldable pub reserve_resources : List (Resource N) → Action (RuleManager O) (Unit {0})
  reserve_resources [] = pure tt
  reserve_resources (resource ∷ resource_list) = do
    let rest = reserve_resources resource_list
    on_topology (reserve_resource N resource)
    rest

  unfoldable pub unreserve_resources : List (Resource N) → Action (RuleManager O) (Unit {0})
  unreserve_resources [] = pure tt
  unreserve_resources (resource ∷ resource_list) = do
    let rest = unreserve_resources resource_list
    on_topology (unreserve_resource N resource)
    rest

  abbrev pub send_all :
      (Breakdown O.Body → Message O) → List (Breakdown O.Body) → Action (RuleManager O) (Unit {0})
  send_all message bds = modify (λ rm. record rm { sent = rm.sent ++ map message bds })

  -- Every call of `send_user_add_rule` returns: its exceptions are outside the model.
  unfoldable pub install_breakdown : List (Breakdown O.Body) → Action (RuleManager O) (Unit {0})
  install_breakdown breakdown = send_all add_breakdown breakdown

  -- `datetime.strptime(text, rfc3339format)`
  abbrev pub parse_time : String → Action (RuleManager O) ℤ
  parse_time text = or_raise (O.strptime text) value_error

  -- `for r in active_rules`: the first row that does not last forever sets the timer.
  unfoldable pub next_stop : List (Row O) → Action (RuleManager O) (Unit {0})
  next_stop [] = pure tt
  next_stop (r ∷ rs) = do
    let rest = next_stop rs
    elim r.stoptime [
      | none ↦ rest
      | some text ↦ (do
        modify (λ rm. record rm { remove_next_time = some text })
        parse_time text
        pure tt)
    ]

  -- a query that is ordered by a column
  abbrev pub ordered_rows : ℤ → (Row O → Option String) → Action (RuleManager O) (List (Row O))
  ordered_rows state column =
      gets (λ rm. O.find_ordered (λ r. r.state == state) column rm.rule_table)

  unfoldable pub restart_remove_timer : Action (RuleManager O) (Unit {0})
  restart_remove_timer = do
    modify (λ rm. record rm { remove_next_time = none })
    active_rules ← ordered_rows active_rule (λ r. r.stoptime)
    next_stop active_rules

  -- The query has `_limit=1`. `strptime(None)` raises.
  unfoldable pub next_start : List (Row O) → Action (RuleManager O) (Unit {0})
  next_start [] = pure tt
  next_start (r ∷ rs) = do
    modify (λ rm. record rm { install_next_time = r.starttime })
    elim r.starttime [ none ↦ raise type_error | some text ↦ (do parse_time text; pure tt) ]

  unfoldable pub restart_install_timer : Action (RuleManager O) (Unit {0})
  restart_install_timer = do
    modify (λ rm. record rm { install_next_time = none })
    inactive_rules ← ordered_rows inactive_rule (λ r. r.starttime)
    next_start inactive_rules

  unfoldable pub install_rule : Policy O → Action (RuleManager O) (Unit {0})
  install_rule rule = do
    reserve_resources rule.resources
    breakdown ← or_raise rule.breakdown type_error
    install_breakdown breakdown
    restart_remove_timer

  -- `extendedbd` of the rule's row; there is no row for an unknown hash.
  abbrev pub extended_of : ℤ → Action (RuleManager O) (Option (List (Breakdown O.Body)))
  extended_of hash = do
    table_entry ← gets (λ rm. O.table.find_one (λ r. r.hash == hash) rm.rule_table)
    elim table_entry [
      | none ↦ raise type_error
      | some r ↦ pure (O.pickled_breakdown.loads r.extendedbd)
    ]

  abbrev pub remove_extended : Option (List (Breakdown O.Body)) → Action (RuleManager O) (Unit {0})
  remove_extended none = pure tt
  remove_extended (some bds) = send_all rm_breakdown bds

  -- A rule without a hash has no row.
  unfoldable pub remove_rule_from_switches : Policy O → Action (RuleManager O) (Unit {0})
  remove_rule_from_switches rule = do
    hash ← or_raise rule.rule_hash type_error
    extendedbd ← extended_of hash
    breakdown ← or_raise rule.breakdown type_error
    send_all rm_breakdown breakdown
    remove_extended extendedbd
    unreserve_resources rule.resources
