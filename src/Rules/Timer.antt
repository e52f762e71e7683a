-- ===== src/Rules/Timer.antt =====
-- When `_add_rule_to_db` of sdxctlr/RuleManager.py restarts the timer that removes rules.
use atlanticwave_proto.Prelude.{
  String, Option, none, some, [], ◌≡◌, refl, ◌∙◌, subst, sym, ap, true, false, inl, inr, arith,
  ◌==◌,
}
use atlanticwave_proto.Prelude.Int.{ℤ, ltb_ℤ, int_eq}
use atlanticwave_proto.Prelude.Action.{
  Action, Result, Result-cases, ok, err, type_error, pure, or_raise, ◌>>=◌, ◌>>◌,
}
use atlanticwave_proto.Topology.Graph.{NetworkX}
use atlanticwave_proto.Rules.{Outside, RuleManager, Policy, active_rule}
use atlanticwave_proto.Rules.Install.{
  install_rule, reserve_resources, install_breakdown, restart_remove_timer, next_stop,
}
use atlanticwave_proto.Rules.Cycle.{time_or, state_at, add_rule_to_db, store_rule, insert_row}
use atlanticwave_proto.Rules.Keeps.{
  AlwaysKeeps, AlwaysKeeps-reserve_resources, AlwaysKeeps-or_raise, bind_ok, bind_err,
}

module _ {N : NetworkX} (O : Outside N) where
  -- No active rule has a row.
  abbrev pub NoActive : RuleManager O → Type 0
  NoActive rm = O.find_ordered (λ r. r.state == active_rule) (λ r. r.stoptime) rm.rule_table ≡ []

  -- Where the call returns, no timer for removals runs.
  abbrev Untimed : Result (Unit {0}) × RuleManager O → Type 0
  Untimed (ok _, after) = after.remove_next_time ≡ none
  Untimed (err _, after) = Unit {0}

  Untimed-bind :
      {A : Type 0} (m : Action (RuleManager O) A) (f : A → Action (RuleManager O) (Unit {0}))
      (rm : RuleManager O)
      → AlwaysKeeps O m
      → NoActive rm
      → ((a : A) (middle : RuleManager O) → NoActive middle → Untimed (f a middle))
      → Untimed ((m >>= f) rm)
  Untimed-bind m f rm keeps idle then_untimed = elim (Result-cases (m rm).0) [
    | inl (a, e) ↦ subst Untimed (sym (bind_ok O m f rm a e)) (
        then_untimed a (m rm).1 (
          subst (λ t. O.find_ordered (λ r. r.state == active_rule) (λ r. r.stoptime) t ≡ [])
            (sym (keeps rm).0) idle))
    | inr (x, e) ↦ subst Untimed (sym (bind_err O m f rm x e)) tt
  ]

  restart_remove_timer_idle :
      (rm : RuleManager O) → NoActive rm → Untimed (restart_remove_timer O rm)
  unfolding restart_remove_timer next_stop
  restart_remove_timer_idle rm idle = rw idle refl

  install_rule_idle :
      (rule : Policy O) (rm : RuleManager O) → NoActive rm → Untimed (install_rule O rule rm)
  unfolding install_rule install_breakdown
  install_rule_idle rule rm idle =
      Untimed-bind (reserve_resources O rule.resources)
        (λ _. or_raise rule.breakdown type_error >>= λ bds.
          install_breakdown O bds >> restart_remove_timer O)
        rm (AlwaysKeeps-reserve_resources O rule.resources) idle
        (λ _ rm1 idle1.
          Untimed-bind (or_raise rule.breakdown type_error)
            (λ bds. install_breakdown O bds >> restart_remove_timer O) rm1
            (AlwaysKeeps-or_raise O rule.breakdown type_error) idle1
            (λ bds rm2 idle2.
              Untimed-bind (install_breakdown O bds) (λ _. restart_remove_timer O) rm2
                (λ _. (refl, refl)) idle2 (λ _ rm3 idle3. restart_remove_timer_idle rm3 idle3)))

  Untimed-store :
      (rule : Policy O) (hash : ℤ) (rm : RuleManager O)
      → NoActive rm
      → Untimed (store_rule O rule hash active_rule rm)
  Untimed-store rule hash rm idle = elim (Result-cases (install_rule O rule rm).0) [
    | inl (u, e) ↦
        subst Untimed
          (sym (
            bind_ok O (install_rule O rule) (λ _. insert_row O rule hash active_rule >> pure tt) rm
              u e))
          (subst (λ r. Untimed (r, (install_rule O rule rm).1)) e (install_rule_idle rule rm idle))
    | inr (x, e) ↦
        subst Untimed
          (sym (
            bind_err O (install_rule O rule) (λ _. insert_row O rule hash active_rule >> pure tt) rm
              x e))
          tt
  ]

  bind_eq :
      {A B : Type 0} (m : Action (RuleManager O) A) (f : A → Action (RuleManager O) B)
      (rm after : RuleManager O) (a : A)
      → m rm ≡ (ok a, after)
      → (m >>= f) rm ≡ f a after
  bind_eq m f rm after a e = ground arith

  known_start :
      (now : ℤ) (text : Option String) (start : String) (install_time : ℤ) (rm : RuleManager O)
      → text ≡ some start
      → O.strptime start ≡ some install_time
      → time_or O (λ t. t) now text rm ≡ (ok install_time, rm)
  known_start now text start install_time rm starts parses = rw (starts, parses) refl

  known_stop :
      (text : Option String) (stop : String) (remove_time : ℤ) (rm : RuleManager O)
      → text ≡ some stop
      → O.strptime stop ≡ some remove_time
      → time_or O some none text rm ≡ (ok (some remove_time), rm)
  known_stop text stop remove_time rm stops parses = rw (stops, parses) refl

  active_at :
      (now install_time remove_time : ℤ)
      → ltb_ℤ now install_time ≡ false
      → ltb_ℤ now remove_time ≡ true
      → state_at O now install_time (some remove_time) ≡ active_rule
  active_at now install_time remove_time started later = ground arith

  -- the state of a rule that has started and stops later
  stores_active :
      (now : ℤ) (rule : Policy O) (hash : ℤ) (rm : RuleManager O) (start stop : String)
      (install_time remove_time : ℤ)
      → rule.start_time ≡ some start
      → rule.stop_time ≡ some stop
      → O.strptime start ≡ some install_time
      → O.strptime stop ≡ some remove_time
      → ltb_ℤ now install_time ≡ false
      → ltb_ℤ now remove_time ≡ true
      → add_rule_to_db O now rule hash rm ≡ store_rule O rule hash active_rule rm
  unfolding add_rule_to_db
  stores_active now rule hash rm start stop install_time remove_time starts stops parses parses_stop
        started later =
      bind_eq (time_or O (λ t. t) now rule.start_time)
        (λ begins. time_or O some none rule.stop_time >>= λ time.
          store_rule O rule hash (state_at O now begins time))
        rm rm install_time (known_start now rule.start_time start install_time rm starts parses)
      ∙ bind_eq (time_or O some none rule.stop_time)
          (λ time. store_rule O rule hash (state_at O now install_time time)) rm rm
          (some remove_time) (known_stop rule.stop_time stop remove_time rm stops parses_stop)
      ∙ ap (λ state. store_rule O rule hash state rm)
          (active_at now install_time remove_time started later)

  -- A rule whose start is not after now and whose stop is, added to a table without active rules: where
  -- `_add_rule_to_db` returns, no timer for its removal is set, since the timer is restarted before
  -- the row is there.
  pub add_rule_to_db_untimed :
      (now : ℤ) (rule : Policy O) (hash : ℤ) (rm : RuleManager O) (start stop : String)
      (install_time remove_time : ℤ)
      → rule.start_time ≡ some start
      → rule.stop_time ≡ some stop
      → O.strptime start ≡ some install_time
      → O.strptime stop ≡ some remove_time
      → ltb_ℤ now install_time ≡ false
      → ltb_ℤ now remove_time ≡ true
      → NoActive rm
      → (add_rule_to_db O now rule hash rm).0 ≡ ok tt
      → (add_rule_to_db O now rule hash rm).1.remove_next_time ≡ none
  add_rule_to_db_untimed now rule hash rm start stop install_time remove_time starts stops parses
        parses_stop started later idle returned =
      subst (λ r. Untimed (r, (add_rule_to_db O now rule hash rm).1)) returned
        (subst Untimed
          (sym (
            stores_active now rule hash rm start stop install_time remove_time starts stops parses
              parses_stop started later))
          (Untimed-store rule hash rm idle))
