-- ===== src/Rules/Numbers.antt =====
-- The numbers that `add_rule` of sdxctlr/RuleManager.py gives to the rules.
use atlanticwave_proto.Prelude.{
  String, Option, none, some, List, ◌≡◌, refl, ◌∙◌, subst, sym, Bool, true, false, not,
  if◌then◌else◌, ◌==◌, ◌⊎◌, inl, inr,
}
use atlanticwave_proto.Prelude.Int.{ℤ, int_eq}
use atlanticwave_proto.Prelude.Action.{
  Action, Result, Result-cases, ok, err, pure, lift, raise_if, rule_manager_validation_error,
  rule_manager_breakdown_error, rule_manager_authorization_error, or_raise, gets, ◌>>=◌, ◌>>◌,
}
use atlanticwave_proto.Topology.Graph.{NetworkX}
use atlanticwave_proto.Rules.{Outside, RuleManager, Policy, Breakdown, active_rule, inactive_rule}
use atlanticwave_proto.Rules.Install.{parse_time, install_rule, restart_install_timer}
use atlanticwave_proto.Rules.Cycle.{
  get_breakdown, determine_breakdown, time_or, state_at, row_of, insert_row, store_rule, check_rule,
  authorize, is_authorized, add_rule_to_db,
}
use atlanticwave_proto.Rules.Keeps.{
  Keeps, AlwaysKeeps, AlwaysKeeps-bind, AlwaysKeeps-or_raise, AlwaysKeeps-parse_time,
  AlwaysKeeps-install_rule, AlwaysKeeps-restart_install_timer, bind_ok, bind_err,
}

module _ {N : NetworkX} (O : Outside N) where
  -- The table is the old one with a row for the rule.
  abbrev pub Inserted : Policy O → ℤ → RuleManager O → RuleManager O → Type 0
  Inserted rule hash before after =
      (state : ℤ) × (after.rule_table ≡ O.table.insert (row_of O rule hash state) before.rule_table)

  -- Where a call returns, the rule has its row; where it raises, it may have it.
  abbrev pub Stores :
      {A : Type 0} → Policy O → ℤ → RuleManager O → Result A × RuleManager O → Type 0
  Stores rule hash before (ok _, after) =
      (after.rule_number ≡ before.rule_number) × Inserted rule hash before after
  Stores rule hash before (err _, after) =
      (after.rule_number ≡ before.rule_number)
      × ((after.rule_table ≡ before.rule_table) ⊎ Inserted rule hash before after)

  Stores-Keeps :
      {A : Type 0} (rule : Policy O) (hash : ℤ) (before middle : RuleManager O)
      (p : Result A × RuleManager O)
      → Keeps O before middle
      → Stores rule hash middle p
      → Stores rule hash before p
  Stores-Keeps rule hash before middle (ok a, after) same (n, (st, e)) =
      (n ∙ same.1, (st, e ∙ rw same.0))
  Stores-Keeps rule hash before middle (err x, after) same (n, inl e) =
      (n ∙ same.1, inl (e ∙ same.0))
  Stores-Keeps rule hash before middle (err x, after) same (n, inr (st, e)) =
      (n ∙ same.1, inr (st, e ∙ rw same.0))

  Stores-bind :
      {A B : Type 0} (rule : Policy O) (hash : ℤ) (m : Action (RuleManager O) A)
      (f : A → Action (RuleManager O) B) (rm : RuleManager O)
      → AlwaysKeeps O m
      → ((a : A) (middle : RuleManager O) → Stores rule hash middle (f a middle))
      → Stores rule hash rm ((m >>= f) rm)
  Stores-bind rule hash m f rm keeps then_stores = elim (Result-cases (m rm).0) [
    | inl (a, e) ↦
        subst (Stores rule hash rm) (sym (bind_ok O m f rm a e))
          (Stores-Keeps rule hash rm (m rm).1 (f a (m rm).1) (keeps rm) (then_stores a (m rm).1))
    | inr (x, e) ↦
        subst (Stores rule hash rm) (sym (bind_err O m f rm x e)) ((keeps rm).1, inl (keeps rm).0)
  ]

  AlwaysKeeps-time_or :
      {A : Type 0} (known : ℤ → A) (other : A) (text : Option String)
      → AlwaysKeeps O (time_or O known other text)
  AlwaysKeeps-time_or known other none rm = (refl, refl)
  AlwaysKeeps-time_or known other (some text) rm =
      AlwaysKeeps-bind O (parse_time O text) (λ time. pure (known time))
        (AlwaysKeeps-parse_time O text) (λ _ _. (refl, refl)) rm

  AlwaysKeeps-if :
      (b : Bool) (m : Action (RuleManager O) (Unit {0}))
      → AlwaysKeeps O m
      → AlwaysKeeps O (if b then m else pure tt)
  AlwaysKeeps-if true m keeps = keeps
  AlwaysKeeps-if false m keeps = λ rm. (refl, refl)

  Stores-inserted :
      (rule : Policy O) (hash state : ℤ) (rm : RuleManager O)
      (p : Result (Unit {0}) × RuleManager O)
      → Keeps O (insert_row O rule hash state rm).1 p.1
      → Stores rule hash rm p
  Stores-inserted rule hash state rm (ok _, after) same = (same.1, (state, same.0))
  Stores-inserted rule hash state rm (err _, after) same = (same.1, inr (state, same.0))

  store_rule-Stores :
      (rule : Policy O) (hash state : ℤ) (rm : RuleManager O)
      → Stores rule hash rm (store_rule O rule hash state rm)
  store_rule-Stores rule hash state rm =
      Stores-bind rule hash (if state == active_rule then install_rule O rule else pure tt)
        (λ _.
          insert_row O rule hash state
          >> (if state == inactive_rule then restart_install_timer O else pure tt))
        rm
        (AlwaysKeeps-if (state == active_rule) (install_rule O rule)
          (AlwaysKeeps-install_rule O rule))
        (λ _ middle. Stores-inserted rule hash state middle _ (
          AlwaysKeeps-if (state == inactive_rule) (restart_install_timer O)
            (AlwaysKeeps-restart_install_timer O) (insert_row O rule hash state middle).1))

  pub add_rule_to_db-Stores :
      (now : ℤ) (rule : Policy O) (hash : ℤ) (rm : RuleManager O)
      → Stores rule hash rm (add_rule_to_db O now rule hash rm)
  unfolding add_rule_to_db
  add_rule_to_db-Stores now rule hash rm =
      Stores-bind rule hash (time_or O (λ t. t) now rule.start_time)
        (λ install_time. time_or O some none rule.stop_time >>= λ remove_time.
          store_rule O rule hash (state_at O now install_time remove_time))
        rm (AlwaysKeeps-time_or (λ t. t) now rule.start_time)
        (λ install_time rm1.
          Stores-bind rule hash (time_or O some none rule.stop_time)
            (λ remove_time. store_rule O rule hash (state_at O now install_time remove_time)) rm1
            (AlwaysKeeps-time_or some none rule.stop_time)
            (λ remove_time rm2.
              store_rule-Stores rule hash (state_at O now install_time remove_time) rm2))

  AlwaysKeeps-get_breakdown : (rule : Policy O) → AlwaysKeeps O (get_breakdown O rule)
  unfolding get_breakdown
  AlwaysKeeps-get_breakdown rule rm = (refl, refl)

  AlwaysKeeps-check_rule : (rule : Policy O) → AlwaysKeeps O (check_rule O rule)
  AlwaysKeeps-check_rule rule =
      AlwaysKeeps-bind O (gets (λ rm. O.check_validity rule rm.topology.topo))
        (λ r. lift r >>= λ valid. raise_if (not valid) rule_manager_validation_error)
        (λ _. (refl, refl))
        (λ r.
          AlwaysKeeps-bind O (lift r) (λ valid. raise_if (not valid) rule_manager_validation_error)
            (λ _. (refl, refl)) (λ _ _. (refl, refl)))

  AlwaysKeeps-authorize :
      (answer : Policy O × Option (List (Breakdown O.Body))) → AlwaysKeeps O (authorize O answer)
  unfolding is_authorized
  AlwaysKeeps-authorize answer =
      AlwaysKeeps-bind O (or_raise answer.1 rule_manager_breakdown_error)
        (λ breakdown.
          raise_if (not (is_authorized answer.0.username)) rule_manager_authorization_error
          >> pure (answer.0, breakdown))
        (AlwaysKeeps-or_raise O answer.1 rule_manager_breakdown_error) (λ _ _. (refl, refl))

  pub AlwaysKeeps-determine_breakdown :
      (rule : Policy O) → AlwaysKeeps O (determine_breakdown O rule)
  unfolding determine_breakdown
  AlwaysKeeps-determine_breakdown rule =
      AlwaysKeeps-bind O (check_rule O rule)
        (λ _. get_breakdown O rule >>= λ first. get_breakdown O first.0 >>= authorize O)
        (AlwaysKeeps-check_rule rule)
        (λ _.
          AlwaysKeeps-bind O (get_breakdown O rule)
            (λ first. get_breakdown O first.0 >>= authorize O) (AlwaysKeeps-get_breakdown rule)
            (λ first.
              AlwaysKeeps-bind O (get_breakdown O first.0) (authorize O)
                (AlwaysKeeps-get_breakdown first.0) AlwaysKeeps-authorize))
