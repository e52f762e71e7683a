-- ===== src/Rules.antt =====
-- The state of `RuleManager` (sdxctlr/RuleManager.py): the table of the participants' rules, the
-- topology whose resources they hold, and the messages sent to the local controllers. A rule is an
-- instance of a subclass of `UserPolicy` (shared/UserPolicy.py).
pub mod Install
pub mod Cycle
pub mod Keeps
pub mod Numbers
pub mod Fresh
pub mod Partial
pub mod Timer
pub mod Callbacks
pub mod Queries
pub mod Quiet
mod Tests
use atlanticwave_proto.Prelude.{String, Option, List, Bool}
use atlanticwave_proto.Prelude.Int.{ℤ, pos}
use atlanticwave_proto.Prelude.Action.{Action, Result}
use atlanticwave_proto.Database.{Dataset, Pickle}
use atlanticwave_proto.Topology.Graph.{NetworkX}
use atlanticwave_proto.Topology.Manager.{Manager}
use atlanticwave_proto.Topology.Resources.{Resource}

abbrev pub active_rule : ℤ
active_rule = pos 1

abbrev pub inactive_rule : ℤ
inactive_rule = pos 2

abbrev pub expired_rule : ℤ
expired_rule = pos 3

abbrev pub insufficient_privileges : ℤ
insufficient_privileges = pos 4

-- `LCRule`; what its subclasses add is its `body`.
pub record LcRule (Body : Type 0) : Type 0 where
  pub switch_id : ℤ
  pub cookie : Option ℤ
  pub body : Body

-- `UserPolicyBreakdown`
pub record Breakdown (Body : Type 0) : Type 0 where
  pub lc : String
  pub rules : List (LcRule Body)

-- The attributes of `UserPolicy`. The text of `json_rule` stands for the dictionary.
pub record UserPolicy (N : NetworkX) (Body : Type 0) : Type 0 where
  pub username : String
  pub ruletype : String
  pub json_rule : String
  pub breakdown : Option (List (Breakdown Body))
  pub rule_hash : Option ℤ
  pub resources : List (Resource N)
  pub start_time : Option String
  pub stop_time : Option String

-- a row of the table `rules`
pub record RuleRow (RuleText BreakdownText : Type 0) : Type 0 where
  pub hash : ℤ
  pub rule : RuleText
  pub ruletype : String
  pub user : String
  pub state : ℤ
  pub starttime : Option String
  pub stoptime : Option String
  pub extendedbd : BreakdownText

-- What the rule manager calls: pickle, the table and its ordered queries, `datetime.strptime` with
-- the format of shared/constants.py, and the methods that each class of policies defines.
pub record Outside (N : NetworkX) : Type 1 where
  pub Body : Type 0
  pub pickled_rule : Pickle (UserPolicy N Body)
  pub pickled_breakdown : Pickle (Option (List (Breakdown Body)))
  pub table : Dataset (RuleRow pickled_rule.Text pickled_breakdown.Text)
  pub find_ordered :
      (RuleRow pickled_rule.Text pickled_breakdown.Text → Bool)
      → (RuleRow pickled_rule.Text pickled_breakdown.Text → Option String)
      → table.Table
      → List (RuleRow pickled_rule.Text pickled_breakdown.Text)
  pub strptime : String → Option ℤ
  pub check_validity : UserPolicy N Body → N.Graph → Result Bool
  pub breakdown_rule : Action (Manager N × UserPolicy N Body) (Option (List (Breakdown Body)))

module _ {N : NetworkX} (O : Outside N) where
  abbrev pub Policy : Type 0
  Policy = UserPolicy N O.Body

  abbrev pub Row : Type 0
  Row = RuleRow O.pickled_rule.Text O.pickled_breakdown.Text

  -- `send_user_add_rule(bd)` and `send_user_rm_rule(bd)`
  pub data Message : Type 0 where
    add_breakdown : Breakdown O.Body → Message
    rm_breakdown : Breakdown O.Body → Message

  -- The callbacks are known by name; `called` is the list of the calls made.
  pub record RuleManager : Type 0 where
    pub topology : Manager N
    pub rule_table : O.table.Table
    pub rule_number : ℤ
    pub last_modified : ℤ
    pub sent : List Message
    pub install_next_time : Option String
    pub remove_next_time : Option String
    pub install_callbacks : List String
    pub remove_callbacks : List String
    pub called : List (String × Policy)
