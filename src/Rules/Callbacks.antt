-- ===== src/Rules/Callbacks.antt =====
-- The callbacks of the two timers of sdxctlr/RuleManager.py, and the lists of callbacks that other
-- parts of the controller register.
use atlanticwave_proto.Prelude.{
  String, Option, none, some, List, [], ◌∷◌, ◌++◌, if◌then◌else◌, text_equality,
}
use atlanticwave_proto.Prelude.Lists.{remove}
use atlanticwave_proto.Prelude.Int.{ℤ, ltb_ℤ, int_eq}
use atlanticwave_proto.Prelude.Action.{
  Action, pure, raise, gets, modify, or_raise, type_error, attribute_error, rule_manager_error,
  ◌>>=◌, ◌>>◌,
}
use atlanticwave_proto.Topology.Graph.{NetworkX}
use atlanticwave_proto.Rules.{Outside, RuleManager, Row, active_rule, inactive_rule, expired_rule}
use atlanticwave_proto.Rules.Install.{
  parse_time, install_rule, ordered_rows, restart_install_timer, restart_remove_timer,
}
use atlanticwave_proto.Rules.Cycle.{has_hash}

module _ {N : NetworkX} (O : Outside N) where
  -- `rule_table.update({'hash': hash, 'state': state}, ['hash'])`
  abbrev pub update_state : ℤ → ℤ → Action (RuleManager O) (Unit {0})
  update_state hash state = modify (λ rm. record rm {
    rule_table = O.table.update (has_hash O hash) (λ r. record r { state = state }) rm.rule_table;
  })

  -- The time in a column of a row; `strptime(None)` raises.
  abbrev pub time_of : Option String → Action (RuleManager O) ℤ
  time_of text = or_raise text type_error >>= parse_time O

  -- the loop over the inactive rows, which are ordered by their start
  unfoldable pub install_due : ℤ → List (Row O) → Action (RuleManager O) (Unit {0})
  install_due now [] = pure tt
  install_due now (r ∷ rows) = do
    let rest = install_due now rows
    install_time ← time_of r.starttime
    if ltb_ℤ now install_time then pure tt else (do
      update_state r.hash active_rule
      install_rule O (O.pickled_rule.loads r.rule)
      rest)

  unfoldable pub rule_install_timer_cb : ℤ → Action (RuleManager O) (Unit {0})
  rule_install_timer_cb now = do
    rules ← ordered_rows O inactive_rule (λ r. r.starttime)
    install_due now rules
    restart_install_timer O

  -- The loop over the active rows, which are ordered by their stop. `_remove_rule` gets the row, not
  -- the rule, and a row has no `get_rule_hash`, so the loop ends there.
  unfoldable pub remove_due : ℤ → List (Row O) → Action (RuleManager O) (Unit {0})
  remove_due now [] = pure tt
  remove_due now (r ∷ rows) = do
    remove_time ← time_of r.stoptime
    if ltb_ℤ now remove_time
        then pure tt
        else (do update_state r.hash expired_rule; raise attribute_error)

  unfoldable pub rule_remove_timer_cb : ℤ → Action (RuleManager O) (Unit {0})
  rule_remove_timer_cb now = do
    rules ← ordered_rows O active_rule (λ r. r.stoptime)
    remove_due now rules
    restart_remove_timer O

  -- the name put at the end of a list of callbacks
  abbrev pub with_callback : List String → Option String → List String
  with_callback callbacks none = callbacks
  with_callback callbacks (some cb) = callbacks ++ cb ∷ []

  unfoldable pub register_for_rule_updates :
      Option String → Option String → Action (RuleManager O) (Unit {0})
  register_for_rule_updates install_callback remove_callback = modify (λ rm. record rm {
    install_callbacks = with_callback rm.install_callbacks install_callback;
    remove_callbacks = with_callback rm.remove_callbacks remove_callback;
  })

  -- `callbacks.remove(cb)`, whose exception becomes a `RuleManagerError`
  abbrev pub without_callback : List String → Option String → Action (RuleManager O) (List String)
  without_callback callbacks none = pure callbacks
  without_callback callbacks (some cb) = or_raise (remove callbacks cb) rule_manager_error

  unfoldable pub unregister_for_topology_updates :
      Option String → Option String → Action (RuleManager O) (Unit {0})
  unregister_for_topology_updates install_callback remove_callback = do
    installs ← gets (λ rm. rm.install_callbacks)
    left_installs ← without_callback installs install_callback
    modify (λ rm. record rm { install_callbacks = left_installs })
    removes ← gets (λ rm. rm.remove_callbacks)
    left_removes ← without_callback removes remove_callback
    modify (λ rm. record rm { remove_callbacks = left_removes })
