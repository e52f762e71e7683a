-- ===== src/Rules/Quiet.antt =====
-- What the callback of the remove timer of sdxctlr/RuleManager.py does not do.
use atlanticwave_proto.Prelude.{
  String, Option, none, some, List, [], ◌∷◌, ◌≡◌, refl, ◌∙◌, subst, sym, true, false, inl, inr,
  Bool, if◌then◌else◌, Option-cases,
}
use atlanticwave_proto.Prelude.Int.{ℤ, ltb_ℤ}
use atlanticwave_proto.Prelude.Action.{
  Action, Result-cases, Exception, pure, raise, or_raise, modify, type_error, value_error,
  attribute_error, ◌>>=◌, ◌>>◌,
}
use atlanticwave_proto.Topology.Graph.{NetworkX}
use atlanticwave_proto.Rules.{Outside, RuleManager, Row, active_rule, expired_rule}
use atlanticwave_proto.Rules.Install.{parse_time, next_stop, restart_remove_timer, ordered_rows}
use atlanticwave_proto.Rules.Callbacks.{time_of, update_state, remove_due, rule_remove_timer_cb}
use atlanticwave_proto.Rules.Keeps.{bind_ok, bind_err}

module _ {N : NetworkX} (O : Outside N) where
  -- No message is sent, and no resource is reserved or released.
  abbrev Quiet : {A : Type 0} → Action (RuleManager O) A → Type 0
  Quiet action =
      (rm : RuleManager O) → ((action rm).1.sent ≡ rm.sent) × ((action rm).1.topology ≡ rm.topology)

  Quiet-bind :
      {A B : Type 0} (m : Action (RuleManager O) A) (f : A → Action (RuleManager O) B)
      → Quiet m
      → ((a : A) → Quiet (f a))
      → Quiet (m >>= f)
  Quiet-bind m f quiet then_quiet rm = elim (Result-cases (m rm).0) [
    | inl (a, e) ↦
        subst (λ r. (r.1.sent ≡ rm.sent) × (r.1.topology ≡ rm.topology))
          (sym (bind_ok O m f rm a e))
          ((then_quiet a (m rm).1).0 ∙ (quiet rm).0, (then_quiet a (m rm).1).1 ∙ (quiet rm).1)
    | inr (x, e) ↦
        subst (λ r. (r.1.sent ≡ rm.sent) × (r.1.topology ≡ rm.topology))
          (sym (bind_err O m f rm x e)) (quiet rm)
  ]

  Quiet-or_raise : {A : Type 0} (o : Option A) (x : Exception) → Quiet (or_raise o x)
  Quiet-or_raise none x rm = (refl, refl)
  Quiet-or_raise (some a) x rm = (refl, refl)

  Quiet-next_stop : (rows : List (Row O)) → Quiet (next_stop O rows)
  unfolding next_stop
  Quiet-next_stop [] = λ rm. (refl, refl)
  Quiet-next_stop (r ∷ rows) = λ rm. elim (Option-cases r.stoptime) [
    | inl e ↦ rw e (Quiet-next_stop rows rm)
    | inr (text, e) ↦ rw e (
        Quiet-bind (modify (λ m. record m { remove_next_time = some text }))
          (λ _. parse_time O text >> pure tt) (λ _. (refl, refl))
          (λ _.
            Quiet-bind (parse_time O text) (λ _. pure tt)
              (Quiet-or_raise (O.strptime text) value_error) (λ _ _. (refl, refl)))
          rm)
  ]

  Quiet-restart_remove_timer : Quiet (restart_remove_timer O)
  unfolding restart_remove_timer
  Quiet-restart_remove_timer rm = Quiet-next_stop _ (record rm { remove_next_time = none })

  Quiet-time_of : (text : Option String) → Quiet (time_of O text)
  Quiet-time_of text =
      Quiet-bind (or_raise text type_error) (parse_time O) (Quiet-or_raise text type_error)
        (λ t. Quiet-or_raise (O.strptime t) value_error)

  Quiet-expire :
      (b : Bool) (hash : ℤ)
      → Quiet (if b then pure tt else (do update_state O hash expired_rule; raise attribute_error))
  Quiet-expire true hash rm = (refl, refl)
  Quiet-expire false hash rm = (refl, refl)

  Quiet-remove_due : (now : ℤ) (rows : List (Row O)) → Quiet (remove_due O now rows)
  unfolding remove_due
  Quiet-remove_due now [] rm = (refl, refl)
  Quiet-remove_due now (r ∷ rows) rm =
      Quiet-bind (time_of O r.stoptime)
        (λ t.
          if ltb_ℤ now t
          then pure tt
          else (do update_state O r.hash expired_rule; raise attribute_error))
        (Quiet-time_of r.stoptime) (λ t. Quiet-expire (ltb_ℤ now t) r.hash) rm

  -- Whatever rules have expired, the callback of the remove timer sends no message to a local
  -- controller and leaves the topology as it was, so it removes no rule from a switch and releases
  -- no resource.
  pub rule_remove_timer_cb_quiet :
      (now : ℤ) (rm : RuleManager O)
      → ((rule_remove_timer_cb O now rm).1.sent ≡ rm.sent)
        × ((rule_remove_timer_cb O now rm).1.topology ≡ rm.topology)
  unfolding rule_remove_timer_cb
  rule_remove_timer_cb_quiet now rm =
      Quiet-bind (ordered_rows O active_rule (λ r. r.stoptime))
        (λ rules. remove_due O now rules >> restart_remove_timer O) (λ _. (refl, refl))
        (λ rules.
          Quiet-bind (remove_due O now rules) (λ _. restart_remove_timer O)
            (Quiet-remove_due now rules) (λ _. Quiet-restart_remove_timer))
        rm
