-- ===== src/Rules/Queries.antt =====
-- The queries of sdxctlr/RuleManager.py and the removal of all rules.
use atlanticwave_proto.Prelude.{
  String, Option, none, some, List, [], ◌∷◌, ◌++◌, true, if◌then◌else◌, ◌==◌, text_equality,
}
use atlanticwave_proto.Prelude.Lists.{contains}
use atlanticwave_proto.Prelude.Int.{ℤ, int_eq}
use atlanticwave_proto.Prelude.{map, Bool, false, ◌&&◌}
use atlanticwave_proto.Prelude.Action.{
  Action, pure, gets, or_raise, raise_if, type_error, rule_manager_validation_error, ◌>>=◌, ◌>>◌,
}
use atlanticwave_proto.Topology.Graph.{NetworkX}
use atlanticwave_proto.Rules.{
  Outside, RuleManager, Row, Policy, Breakdown, LcRule, active_rule, inactive_rule, expired_rule,
  insufficient_privileges,
}
use atlanticwave_proto.Rules.Cycle.{has_hash, remove_rule, autogenerated_username}

-- a value in a filter
pub data Value : Type 0 where
  number : ℤ → Value
  text : String → Value

-- `_valid_table_columns`, which `get_rules_search_fields` returns
abbrev pub valid_table_columns : List String
valid_table_columns = "hash" ∷ "ruletype" ∷ "user" ∷ "state" ∷ "starttime" ∷ "stoptime" ∷ []

abbrev pub has_bad_column : List (String × Value) → Bool
has_bad_column [] = false
has_bad_column ((key, v) ∷ filter) =
    if contains valid_table_columns key then has_bad_column filter else true

abbrev pub is_text : Option String → String → Bool
is_text none t = false
is_text (some s) t = s == t

-- `STATE_TO_STRING`
abbrev pub state_to_string : ℤ → Option String
state_to_string state =
    if state == active_rule
    then some "ACTIVE RULE"
    else (if state == inactive_rule
        then some "INACTIVE RULE"
        else (if state == expired_rule
            then some "EXPIRED RULE"
            else (if state == insufficient_privileges
                then some "INSUFFICIENT PRIVILEGES"
                else none)))

module _ {N : NetworkX} (O : Outside N) where
  -- what `get_rule_details` returns
  pub record Details : Type 0 where
    pub detail_hash : ℤ
    pub jsonrule : String
    pub detail_ruletype : String
    pub detail_state : Option String
    pub detail_user : String
    pub breakdowns : List (String × LcRule O.Body)

  -- the inner loop of `get_breakdown_rules_by_LC`
  unfoldable pub rules_for : String → List (Breakdown O.Body) → List (LcRule O.Body)
  rules_for lc [] = []
  rules_for lc (bd ∷ bds) =
      let rest = rules_for lc bds in if bd.lc == lc then bd.rules ++ rest else rest

  unfoldable pub breakdown_rules_of :
      String → List (Row O) → Action (RuleManager O) (List (LcRule O.Body))
  breakdown_rules_of lc [] = pure []
  breakdown_rules_of lc (table_entry ∷ rows) = do
    let rest = breakdown_rules_of lc rows
    breakdown ← or_raise (O.pickled_rule.loads table_entry.rule).breakdown type_error
    more ← rest
    pure (rules_for lc breakdown ++ more)

  unfoldable pub get_breakdown_rules_by_lc : String → Action (RuleManager O) (List (LcRule O.Body))
  get_breakdown_rules_by_lc lc = do
    all_rules ← gets (λ rm. O.table.find (λ _. true) rm.rule_table)
    breakdown_rules_of lc all_rules

  unfoldable pub get_raw_rule : ℤ → Action (RuleManager O) (Option (Policy O))
  get_raw_rule rule_hash = do
    table_entry ← gets (λ rm. O.table.find_one (has_hash O rule_hash) rm.rule_table)
    elim table_entry [ none ↦ pure none | some r ↦ pure (some (O.pickled_rule.loads r.rule)) ]

  -- `remove_all_rules`, over the rows found at the start; the rules of the controller stay.
  unfoldable pub remove_rows : ℤ → String → List (Row O) → Action (RuleManager O) (Unit {0})
  remove_rows now user [] = pure tt
  remove_rows now user (r ∷ rows) = do
    let rest = remove_rows now user rows
    if (O.pickled_rule.loads r.rule).username == autogenerated_username
        then rest
        else remove_rule O now r.hash user >> rest

  unfoldable pub remove_all_rules : ℤ → String → Action (RuleManager O) (Unit {0})
  remove_all_rules now user = do
    rows ← gets (λ rm. O.table.find (λ _. true) rm.rule_table)
    remove_rows now user rows

  -- `get_rule_details`; the text of a broken down rule is made of its local controller and the rule.
  unfoldable pub details_of : List (Breakdown O.Body) → List (String × LcRule O.Body)
  details_of [] = []
  details_of (bd ∷ bds) = map (λ x. (bd.lc, x)) bd.rules ++ details_of bds

  abbrev pub details : ℤ → Row O → Action (RuleManager O) Details
  details rule_hash table_entry = do
    let rule = O.pickled_rule.loads table_entry.rule
    breakdown ← or_raise rule.breakdown type_error
    pure (record {
      detail_hash = rule_hash;
      jsonrule = rule.json_rule;
      detail_ruletype = rule.ruletype;
      detail_state = state_to_string table_entry.state;
      detail_user = rule.username;
      breakdowns = details_of breakdown;
    })

  unfoldable pub get_rule_details : ℤ → Action (RuleManager O) (Option Details)
  get_rule_details rule_hash = do
    table_entry ← gets (λ rm. O.table.find_one (has_hash O rule_hash) rm.rule_table)
    elim table_entry [
      | none ↦ pure none
      | some r ↦ (do found ← details rule_hash r; pure (some found))
    ]

  -- a filter of `get_rules` as keyword arguments of `find`
  abbrev pub column_is : String → Value → Row O → Bool
  column_is key (number n) r = if key == "hash" then r.hash == n else key == "state" && r.state == n
  column_is key (text t) r =
      if key == "ruletype"
      then r.ruletype == t
      else (if key == "user"
          then r.user == t
          else (if key == "starttime"
              then is_text r.starttime t
              else key == "stoptime" && is_text r.stoptime t))

  abbrev pub passes : List (String × Value) → Row O → Bool
  passes [] r = true
  passes ((key, v) ∷ filter) r = column_is key v r && passes filter r

  -- the tuple of one row; `STATE_TO_STRING` of a text is `None`
  abbrev pub summary : Row O → ℤ × (String × (String × (String × Option String)))
  summary r =
      let rule = O.pickled_rule.loads r.rule in
      (r.hash, (rule.json_rule, (r.ruletype, (rule.username, none))))

  -- `get_rules` with a filter and without an ordering
  unfoldable pub get_rules :
      List (String × Value)
      → Action (RuleManager O) (List (ℤ × (String × (String × (String × Option String)))))
  get_rules filter = do
    raise_if (has_bad_column filter) rule_manager_validation_error
    results ← gets (λ rm. O.table.find (passes filter) rm.rule_table)
    pure (map summary results)
