-- ===== src/Rules/Cycle.antt =====
-- The life cycle of a rule in sdxctlr/RuleManager.py: `add_rule` and `remove_rule`, what they do to
-- the table of rules, and the callbacks of the two timers.
use atlanticwave_proto.Prelude.{
  String, Option, none, some, List, ◌++◌, map, Bool, true, false, not, if◌then◌else◌, ◌==◌,
  text_equality,
}
use atlanticwave_proto.Prelude.Int.{ℤ, pos, ltb_ℤ, ◌+ℤ◌, int_eq}
use atlanticwave_proto.Prelude.Action.{
  Action, ok, err, pure, gets, modify, lift, or_raise, raise_if, type_error, rule_manager_error,
  rule_manager_validation_error, rule_manager_breakdown_error, rule_manager_authorization_error,
  ◌>>=◌, ◌>>◌,
}
use atlanticwave_proto.Topology.Graph.{NetworkX}
use atlanticwave_proto.Rules.{
  Outside, RuleManager, Policy, Row, Breakdown, LcRule, active_rule, inactive_rule, expired_rule,
}
use atlanticwave_proto.Rules.Install.{
  parse_time, install_rule, remove_rule_from_switches, restart_install_timer, restart_remove_timer,
}

-- `AuthorizationInspector.is_authorized`
unfoldable pub is_authorized : String → Bool
is_authorized username = true

-- the user of the rules that the controller makes itself
abbrev pub autogenerated_username : String
autogenerated_username = "SDXCTLR"

module _ {N : NetworkX} (O : Outside N) where
  unfoldable pub get_new_rule_number : Action (RuleManager O) ℤ
  get_new_rule_number = do
    modify (λ rm. record rm { rule_number = rm.rule_number +ℤ pos 1 })
    gets (λ rm. rm.rule_number)

  -- `BreakdownEngine.get_breakdown`: an exception is caught, and the answer is `None`.
  unfoldable pub get_breakdown :
      Policy O → Action (RuleManager O) (Policy O × Option (List (Breakdown O.Body)))
  get_breakdown rule rm =
      let (r, s) = O.breakdown_rule (rm.topology, rule) in
      (
        elim r [ ok answer ↦ ok (s.1, answer) | err _ ↦ ok (s.1, none) ],
        record rm { topology = s.0 },
      )

  -- the check by the `ValidityInspector`
  abbrev pub check_rule : Policy O → Action (RuleManager O) (Unit {0})
  check_rule rule = do
    valid ← lift (← gets (λ rm. O.check_validity rule rm.topology.topo))
    raise_if (not valid) rule_manager_validation_error

  -- the checks on the breakdown and on the user
  abbrev pub authorize :
      Policy O × Option (List (Breakdown O.Body))
      → Action (RuleManager O) (Policy O × List (Breakdown O.Body))
  authorize answer = do
    breakdown ← or_raise answer.1 rule_manager_breakdown_error
    raise_if (not (is_authorized answer.0.username)) rule_manager_authorization_error
    pure (answer.0, breakdown)

  -- The breakdown is computed twice, as in the source.
  unfoldable pub determine_breakdown :
      Policy O → Action (RuleManager O) (Policy O × List (Breakdown O.Body))
  determine_breakdown rule = do
    check_rule rule
    first ← get_breakdown rule
    second ← get_breakdown first.0
    authorize second

  -- `LCRule.set_cookie`
  abbrev pub set_rule_cookie : ℤ → LcRule O.Body → LcRule O.Body
  set_rule_cookie cookie rule = record rule { cookie = some cookie }

  -- `UserPolicyBreakdown.set_cookie`
  abbrev pub set_cookie : ℤ → Breakdown O.Body → Breakdown O.Body
  set_cookie cookie bd = record bd { rules = map (set_rule_cookie cookie) bd.rules }

  -- a time of the rule, or `other` where it has none
  abbrev pub time_or : {A : Type 0} → (ℤ → A) → A → Option String → Action (RuleManager O) A
  time_or known other none = pure other
  time_or known other (some text) = do time ← parse_time O text; pure (known time)

  -- the state of a new rule, from its start and its stop
  abbrev pub state_at : ℤ → ℤ → Option ℤ → ℤ
  state_at now install_time none = if ltb_ℤ now install_time then inactive_rule else active_rule
  state_at now install_time (some remove_time) =
      if not (ltb_ℤ now remove_time)
      then expired_rule
      else (if ltb_ℤ now install_time then inactive_rule else active_rule)

  abbrev pub row_of : Policy O → ℤ → ℤ → Row O
  row_of rule hash state = record {
    hash = hash;
    rule = O.pickled_rule.dumps rule;
    ruletype = rule.ruletype;
    user = rule.username;
    state = state;
    starttime = rule.start_time;
    stoptime = rule.stop_time;
    extendedbd = O.pickled_breakdown.dumps none;
  }

  -- the row goes into the table
  abbrev pub insert_row : Policy O → ℤ → ℤ → Action (RuleManager O) (Unit {0})
  insert_row rule hash state =
      modify
        (λ rm. record rm { rule_table = O.table.insert (row_of rule hash state) rm.rule_table })

  -- the part of `_add_rule_to_db` that follows the choice of the state
  abbrev pub store_rule : Policy O → ℤ → ℤ → Action (RuleManager O) (Unit {0})
  store_rule rule hash state = do
    if state == active_rule then install_rule O rule else pure tt
    insert_row rule hash state
    if state == inactive_rule then restart_install_timer O else pure tt

  unfoldable pub add_rule_to_db : ℤ → Policy O → ℤ → Action (RuleManager O) (Unit {0})
  add_rule_to_db now rule hash = do
    install_time ← time_or (λ t. t) now rule.start_time
    remove_time ← time_or some none rule.stop_time
    store_rule rule hash (state_at now install_time remove_time)

  -- the rule with its hash, and its breakdown with the hash as cookie
  abbrev pub numbered : ℤ → Policy O → List (Breakdown O.Body) → Policy O
  numbered rulehash rule breakdown = record rule {
    rule_hash = some rulehash;
    breakdown = some (map (set_cookie rulehash) breakdown);
  }

  -- the end of `add_rule`, once the rule has its hash
  abbrev pub store_numbered : ℤ → ℤ → Policy O → Action (RuleManager O) ℤ
  store_numbered now rulehash rule = do
    add_rule_to_db now rule rulehash
    modify (λ rm. record rm { called = rm.called ++ map (λ cb. (cb, rule)) rm.install_callbacks })
    pure rulehash

  unfoldable pub add_rule : ℤ → Policy O → Action (RuleManager O) ℤ
  add_rule now rule = do
    modify (λ rm. record rm { last_modified = now })
    answer ← determine_breakdown rule
    rulehash ← get_new_rule_number
    let new_rule = numbered rulehash answer.0 answer.1
    add_rule_to_db now new_rule rulehash
    modify
        (λ rm. record rm { called = rm.called ++ map (λ cb. (cb, new_rule)) rm.install_callbacks })
    pure rulehash

  abbrev pub has_hash : ℤ → Row O → Bool
  has_hash hash r = r.hash == hash

  abbrev pub delete_hash : ℤ → Action (RuleManager O) (Unit {0})
  delete_hash hash =
      modify (λ rm. record rm { rule_table = O.table.delete (has_hash hash) rm.rule_table })

  -- `stoptime == self.remove_next_time`
  abbrev pub same_time : Option String → Option String → Bool
  same_time none none = true
  same_time (some a) (some b) = a == b
  same_time _ _ = false

  abbrev pub rm_active_rule : Policy O → ℤ → Option String → Action (RuleManager O) (Unit {0})
  rm_active_rule rule hash stoptime = do
    remove_rule_from_switches O rule
    delete_hash hash
    next ← gets (λ rm. rm.remove_next_time)
    if same_time stoptime next then restart_remove_timer O else pure tt

  -- By the state of the rule's row; nothing is done about insufficient privileges.
  unfoldable pub rm_rule_from_db : Policy O → Action (RuleManager O) (Unit {0})
  rm_rule_from_db rule = do
    hash ← or_raise rule.rule_hash type_error
    row ← or_raise (← gets (λ rm. O.table.find_one (has_hash hash) rm.rule_table)) type_error
    if row.state == active_rule
        then rm_active_rule rule hash row.stoptime
        else (if row.state == inactive_rule
            then delete_hash hash >> restart_install_timer O
            else (if row.state == expired_rule then delete_hash hash else pure tt))

  unfoldable pub remove_rule : ℤ → ℤ → String → Action (RuleManager O) (Unit {0})
  remove_rule now rule_hash user = do
    found ← gets (λ rm. O.table.find_one (has_hash rule_hash) rm.rule_table)
    row ← or_raise found rule_manager_error
    modify (λ rm. record rm { last_modified = now })
    let rule = O.pickled_rule.loads row.rule
    raise_if (not (is_authorized user)) rule_manager_authorization_error
    rm_rule_from_db rule
    modify (λ rm. record rm { called = rm.called ++ map (λ cb. (cb, rule)) rm.remove_callbacks })
