-- ===== src/Rules/Keeps.antt =====
-- What the helpers of sdxctlr/RuleManager.py leave alone: the table of rules and the rule number.
use atlanticwave_proto.Prelude.{
  String, Option, none, some, List, [], ◌∷◌, ◌≡◌, refl, ◌∙◌, subst, sym, Option-cases, inl, inr,
  arith,
}
use atlanticwave_proto.Prelude.Action.{
  Action, Result-cases, ok, err, Exception, value_error, type_error, modify, pure, or_raise, ◌>>=◌,
  ◌>>◌,
}
use atlanticwave_proto.Topology.Graph.{NetworkX}
use atlanticwave_proto.Topology.Resources.{Resource, reserve_resource}
use atlanticwave_proto.Rules.{Outside, RuleManager, Policy, Row}
use atlanticwave_proto.Rules.Install.{
  on_topology, reserve_resources, install_breakdown, next_stop, restart_remove_timer, next_start,
  restart_install_timer, install_rule, parse_time,
}

module _ {N : NetworkX} (O : Outside N) where
  -- The table and the rule number are the same.
  abbrev pub Keeps : RuleManager O → RuleManager O → Type 0
  Keeps before after =
      (after.rule_table ≡ before.rule_table) × (after.rule_number ≡ before.rule_number)

  abbrev pub AlwaysKeeps : {A : Type 0} → Action (RuleManager O) A → Type 0
  AlwaysKeeps action = (rm : RuleManager O) → Keeps rm (action rm).1

  module _ {A B : Type 0} where
    pub bind_ok :
        (m : Action (RuleManager O) A) (f : A → Action (RuleManager O) B) (rm : RuleManager O)
        (a : A)
        → (m rm).0 ≡ ok a
        → (m >>= f) rm ≡ f a (m rm).1
    bind_ok m f rm a e = ground arith

    pub bind_err :
        (m : Action (RuleManager O) A) (f : A → Action (RuleManager O) B) (rm : RuleManager O)
        (x : Exception)
        → (m rm).0 ≡ err x
        → (m >>= f) rm ≡ (err x, (m rm).1)
    bind_err m f rm x e = ground arith

    pub AlwaysKeeps-bind :
        (m : Action (RuleManager O) A) (f : A → Action (RuleManager O) B)
        → AlwaysKeeps m
        → ((a : A) → AlwaysKeeps (f a))
        → AlwaysKeeps (m >>= f)
    AlwaysKeeps-bind m f keeps then_keeps rm = elim (Result-cases (m rm).0) [
      | inl (a, e) ↦
          subst (λ r. Keeps rm r.1) (sym (bind_ok m f rm a e))
            ((then_keeps a (m rm).1).0 ∙ (keeps rm).0, (then_keeps a (m rm).1).1 ∙ (keeps rm).1)
      | inr (x, e) ↦ subst (λ r. Keeps rm r.1) (sym (bind_err m f rm x e)) (keeps rm)
    ]

  module _ {A : Type 0} where
    pub AlwaysKeeps-or_raise : (o : Option A) (x : Exception) → AlwaysKeeps (or_raise o x)
    AlwaysKeeps-or_raise none x rm = (refl, refl)
    AlwaysKeeps-or_raise (some a) x rm = (refl, refl)

  pub AlwaysKeeps-reserve_resources :
      (resources : List (Resource N)) → AlwaysKeeps (reserve_resources O resources)
  unfolding reserve_resources
  AlwaysKeeps-reserve_resources [] = λ rm. (refl, refl)
  AlwaysKeeps-reserve_resources (r ∷ rs) =
      AlwaysKeeps-bind (on_topology O (reserve_resource N r)) (λ _. reserve_resources O rs)
        (λ rm. (refl, refl)) (λ _. AlwaysKeeps-reserve_resources rs)

  pub AlwaysKeeps-parse_time : (text : String) → AlwaysKeeps (parse_time O text)
  AlwaysKeeps-parse_time text = AlwaysKeeps-or_raise (O.strptime text) value_error

  -- a change of a timer
  AlwaysKeeps-timer :
      (change : RuleManager O → RuleManager O) (text : String)
      → ((rm : RuleManager O) → Keeps rm (change rm))
      → AlwaysKeeps (do modify change; parse_time O text; pure tt)
  AlwaysKeeps-timer change text keeps =
      AlwaysKeeps-bind (modify change) (λ _. parse_time O text >> pure tt) keeps
        (λ _.
          AlwaysKeeps-bind (parse_time O text) (λ _. pure tt) (AlwaysKeeps-parse_time text)
            (λ _ rm. (refl, refl)))

  AlwaysKeeps-next_stop : (rows : List (Row O)) → AlwaysKeeps (next_stop O rows)
  unfolding next_stop
  AlwaysKeeps-next_stop [] = λ rm. (refl, refl)
  AlwaysKeeps-next_stop (r ∷ rows) = λ rm. elim (Option-cases r.stoptime) [
    | inl e ↦ rw e (AlwaysKeeps-next_stop rows rm)
    | inr (text, e) ↦ rw e (
        AlwaysKeeps-timer (λ m. record m { remove_next_time = some text }) text (λ m. (refl, refl))
          rm)
  ]

  pub AlwaysKeeps-restart_remove_timer : AlwaysKeeps (restart_remove_timer O)
  unfolding restart_remove_timer
  AlwaysKeeps-restart_remove_timer rm =
      AlwaysKeeps-next_stop _ (record rm { remove_next_time = none })

  AlwaysKeeps-next_start : (rows : List (Row O)) → AlwaysKeeps (next_start O rows)
  unfolding next_start
  AlwaysKeeps-next_start [] = λ rm. (refl, refl)
  AlwaysKeeps-next_start (r ∷ rows) = λ rm. elim (Option-cases r.starttime) [
    | inl e ↦ rw e (refl, refl)
    | inr (text, e) ↦ rw e (
        AlwaysKeeps-timer (λ m. record m { install_next_time = some text }) text (λ m. (refl, refl))
          rm)
  ]

  pub AlwaysKeeps-restart_install_timer : AlwaysKeeps (restart_install_timer O)
  unfolding restart_install_timer
  AlwaysKeeps-restart_install_timer rm =
      AlwaysKeeps-next_start _ (record rm { install_next_time = none })

  pub AlwaysKeeps-install_rule : (rule : Policy O) → AlwaysKeeps (install_rule O rule)
  unfolding install_rule install_breakdown
  AlwaysKeeps-install_rule rule =
      AlwaysKeeps-bind (reserve_resources O rule.resources)
        (λ _. or_raise rule.breakdown type_error >>= λ bds.
          install_breakdown O bds >> restart_remove_timer O)
        (AlwaysKeeps-reserve_resources rule.resources)
        (λ _.
          AlwaysKeeps-bind (or_raise rule.breakdown type_error)
            (λ bds. install_breakdown O bds >> restart_remove_timer O)
            (AlwaysKeeps-or_raise rule.breakdown type_error)
            (λ bds.
              AlwaysKeeps-bind (install_breakdown O bds) (λ _. restart_remove_timer O)
                (λ rm. (refl, refl)) (λ _. AlwaysKeeps-restart_remove_timer)))
