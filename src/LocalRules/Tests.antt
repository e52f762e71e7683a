-- ===== src/LocalRules/Tests.antt =====
-- A rule manager with three rules in memory, and the theorems about the local controller at it.
use atlanticwave_proto.Prelude.{ℕ, ◌≤◌, List, [], ◌∷◌, ◌≡◌, refl, ◌↔◌, arith, true, eqb}
use atlanticwave_proto.Prelude.Int.{ℤ, pos, int_eq}
use atlanticwave_proto.Prelude.Action.{ok, err, lc_rule_manager_validation_error}
use atlanticwave_proto.Database.{count, Dataset, IsLawful, Pickle}
use atlanticwave_proto.Database.Memory.{memory_table, memory_table-IsLawful}
use atlanticwave_proto.LocalRules.{
  Row, LcRules, find_rules, has_dupe, add_rule, rm_rule, set_status, get_rules, get_full_rules,
  initial_rules_complete, delete_from, add_from, initial_at, clear_initial_rules,
}
use atlanticwave_proto.LocalRules.Laws.{
  listed, add_rule-iff-new, get_rules-add_rule, get_rules-rm_rule,
}
use atlanticwave_proto.LocalRules.Status.{get_rules-set_status}
use atlanticwave_proto.LocalRules.Initial.{entry_at, initial_rules_complete_lem}
use atlanticwave_proto.LocalRules.Controller.{
  LocalController, install_rule_sdxmsg, remove_rule_sdxmsg, complete_initial_rules, install_all,
}
use atlanticwave_proto.LocalRules.Messages.{
  AfterInstall, get_rules-remove_rule_sdxmsg, get_rules-install_rule_sdxmsg,
}

-- Rules are numbers here, and pickle keeps them as they are.
abbrev numbers : Pickle ℕ
numbers = record { Text = ℕ; dumps = λ n. n; loads = λ n. n; loads-dumps = λ n. refl }

abbrev table : Dataset (Row ℕ)
table = memory_table (Row ℕ)

abbrev lawful : IsLawful table
lawful = memory_table-IsLawful (Row ℕ)

abbrev row : ℕ → ℕ → ℕ → Row ℕ
row cookie switch_id rule = record {
  cookie = pos cookie;
  switch_id = pos switch_id;
  status = pos 1;
  rule = rule;
}

-- Cookie 1 has a rule on switch 1 and one on switch 2; two initial rules wait for switch 1.
abbrev manager : LcRules numbers table eqb
manager = record {
  rule_table = row 1 1 5 ∷ row 1 2 6 ∷ row 2 1 7 ∷ [];
  initial_rules_list = ((pos 2, pos 1), 7) ∷ ((pos 3, pos 1), 8) ∷ ((pos 3, pos 1), 9) ∷ [];
}

abbrev controller : LocalController numbers table eqb
controller = record { rm = manager; commands = [] }

add_rule-iff-new_example : (add_rule numbers table eqb (pos 1) (pos 1) 9 (pos 3) manager).0 ≡ ok tt
unfolding get_rules count
add_rule-iff-new_example =
    (add_rule-iff-new numbers table eqb lawful (pos 1) (pos 1) 9 (pos 3) manager).1 (refl, refl)

get_rules-add_rule_example :
    listed numbers table eqb
      (λ _. true)
      (pos 1)
      (pos 1)
      (add_rule numbers table eqb (pos 1) (pos 1) 9 (pos 3) manager).1
    ≡ 2
unfolding add_rule find_rules has_dupe get_rules count
get_rules-add_rule_example =
    get_rules-add_rule numbers table eqb lawful (λ _. true) (pos 1) (pos 1) (pos 1) (pos 1) 9
      (pos 3) manager

get_rules-rm_rule_example :
    ((rm_rule numbers table eqb (pos 1) (pos 1) manager).0 ≡ ok tt)
    ↔ (1 ≤ listed numbers table eqb (λ _. true) (pos 1) (pos 1) manager)
get_rules-rm_rule_example =
    (get_rules-rm_rule numbers table eqb lawful (λ _. true) (pos 1) (pos 1) (pos 2) (pos 1)
      manager).0

get_rules-set_status_example :
    listed numbers table eqb
      (λ _. true)
      (pos 1)
      (pos 2)
      (set_status numbers table eqb (pos 1) (pos 1) (pos 2) manager).1
    ≡ 0
unfolding set_status get_rules count
get_rules-set_status_example =
    (get_rules-set_status numbers table eqb lawful (λ _. true) (pos 1) (pos 1) (pos 2) (pos 1)
      (pos 2) manager refl (ground arith)).1

initial_rules_complete_lem_example :
    (lists : List (ℕ × (ℤ × ℤ)) × List (ℕ × (ℤ × ℤ))) × (initial_rules_complete numbers table eqb
        manager
      ≡ (ok lists, manager))
    × (count (entry_at numbers table eqb (λ _. true) (pos 3) (pos 1)) lists.0 ≡ 0)
    × (count (entry_at numbers table eqb (λ _. true) (pos 3) (pos 1)) lists.1 ≡ 4)
unfolding get_rules count
initial_rules_complete_lem_example =
    initial_rules_complete_lem numbers table eqb lawful (λ _. true) (pos 3) (pos 1) manager

some_rule : 1 ≤ listed numbers table eqb (λ _. true) (pos 1) (pos 1) manager
unfolding get_rules count
some_rule = ground arith

get_rules-remove_rule_sdxmsg_example :
    listed numbers table eqb
      (λ _. true)
      (pos 1)
      (pos 2)
      (remove_rule_sdxmsg numbers table eqb (pos 1) (pos 1) controller).1.rm
    ≡ 0
get_rules-remove_rule_sdxmsg_example =
    (get_rules-remove_rule_sdxmsg numbers table eqb lawful (λ _. true) (pos 1) (pos 1) (pos 1)
      (pos 2) controller some_rule).2

get_rules-install_rule_sdxmsg_example :
    AfterInstall numbers table eqb lawful
      (λ _. true)
      (pos 2)
      (pos 1)
      9
      (pos 1)
      (pos 2)
      controller
      (install_rule_sdxmsg numbers table eqb (pos 2) (pos 1) 9 controller)
get_rules-install_rule_sdxmsg_example =
    get_rules-install_rule_sdxmsg numbers table eqb lawful (λ _. true) (pos 2) (pos 1) 9 (pos 1)
      (pos 2) controller

-- Two initial rules of one cookie and switch are both listed twice, so the second pass over them
-- raises.
complete_initial_rules_test :
    (complete_initial_rules numbers table eqb controller).0 ≡ err lc_rule_manager_validation_error
unfolding complete_initial_rules initial_rules_complete clear_initial_rules delete_from
    get_full_rules add_from initial_at install_all install_rule_sdxmsg add_rule find_rules has_dupe
    set_status
complete_initial_rules_test = refl
