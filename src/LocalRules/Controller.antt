-- ===== src/LocalRules/Controller.antt =====
-- The handlers of localctlr/LocalController.py that change the rules: a message from the SDX
-- controller writes the rule manager and sends a command to the switch.
use atlanticwave_proto.Prelude.{List, [], ◌∷◌, ◌++◌, Bool, true, false, if◌then◌else◌}
use atlanticwave_proto.Prelude.Int.{ℤ, int_eq}
use atlanticwave_proto.Prelude.Action.{Action, pure, modify, ◌>>=◌, ◌>>◌}
use atlanticwave_proto.Database.{Dataset, Pickle}
use atlanticwave_proto.LocalRules.{
  Row, LcRules, add_rule, rm_rule, set_status, get_rules, add_initial_rule, clear_initial_rules,
  initial_rules_complete, rule_status_active, rule_status_deleting, rule_status_installing,
  rule_status_removed,
}

-- what the controller sends through `self.switch_connection`
pub data Command (L : Type 0) : Type 0 where
  send_command : ℤ → L → Command L
  remove_rule : ℤ → ℤ → Command L

abbrev pub is_empty : {A : Type 0} → List A → Bool
is_empty [] = true
is_empty (x ∷ xs) = false

module _ {L : Type 0} (P : Pickle L) (D : Dataset (Row P.Text)) (same_rule : L → L → Bool) where
  -- `self.rm`, and the commands sent so far
  pub record LocalController : Type 0 where
    pub rm : LcRules P D same_rule
    pub commands : List (Command L)

  -- a call of the rule manager
  abbrev pub on_rm : {A : Type 0} → Action (LcRules P D same_rule) A → Action LocalController A
  on_rm call lc = let (r, m) = call lc.rm in (r, record lc { rm = m })

  abbrev pub send : Command L → Action LocalController (Unit {0})
  send command = modify (λ lc. record lc { commands = lc.commands ++ command ∷ [] })

  -- `rule.get_cookie()` is the argument `cookie`.
  unfoldable pub install_rule_sdxmsg : ℤ → ℤ → L → Action LocalController (Unit {0})
  install_rule_sdxmsg cookie switch_id rule = do
    on_rm (add_rule P D same_rule cookie switch_id rule rule_status_installing)
    send (send_command switch_id rule)
    on_rm (set_status P D same_rule cookie switch_id rule_status_active)

  unfoldable pub remove_rule_sdxmsg : ℤ → ℤ → Action LocalController (Unit {0})
  remove_rule_sdxmsg cookie switch_id = do
    rules ← on_rm (get_rules P D same_rule cookie switch_id)
    if is_empty rules then pure tt else (do
      on_rm (set_status P D same_rule cookie switch_id rule_status_deleting)
      send (remove_rule switch_id cookie)
      on_rm (set_status P D same_rule cookie switch_id rule_status_removed)
      on_rm (rm_rule P D same_rule cookie switch_id))

  -- `_initial_rule_install`
  unfoldable pub initial_rule_install : ℤ → ℤ → L → Action LocalController (Unit {0})
  initial_rule_install cookie switch_id rule =
      on_rm (add_initial_rule P D same_rule rule cookie switch_id)

  -- the two loops of `_initial_rules_complete`
  unfoldable pub install_all : List (L × (ℤ × ℤ)) → Action LocalController (Unit {0})
  install_all [] = pure tt
  install_all (x ∷ xs) = do let rest = install_all xs; install_rule_sdxmsg x.1.0 x.1.1 x.0; rest

  unfoldable pub remove_all : List (L × (ℤ × ℤ)) → Action LocalController (Unit {0})
  remove_all [] = pure tt
  remove_all (x ∷ xs) = do let rest = remove_all xs; remove_rule_sdxmsg x.1.0 x.1.1; rest

  -- `_initial_rules_complete`
  unfoldable pub complete_initial_rules : Action LocalController (Unit {0})
  complete_initial_rules = do
    lists ← on_rm (initial_rules_complete P D same_rule)
    on_rm (clear_initial_rules P D same_rule)
    install_all lists.1
    remove_all lists.0
