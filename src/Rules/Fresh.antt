-- ===== src/Rules/Fresh.antt =====
-- Each rule that `add_rule` of sdxctlr/RuleManager.py puts into the table has a new number.
use atlanticwave_proto.Prelude.{
  ◌+◌, List, map, ◌++◌, ◌≡◌, refl, ◌∙◌, subst, sym, true, ◌==◌, ◌⊎◌, inl, inr, arith,
}
use atlanticwave_proto.Prelude.Int.{ℤ, pos, ◌+ℤ◌, ◌≤ℤ◌, ltb_ℤ, int_eq, int_laws, +ℤ_parts}
use atlanticwave_proto.Prelude.Action.{
  Action, Result, Result-cases, ok, err, Exception, pure, modify, ◌>>=◌, ◌>>◌,
}
use atlanticwave_proto.Database.{IsLawful, rows_with, one_if}
use atlanticwave_proto.Topology.Graph.{NetworkX}
use atlanticwave_proto.LocalRules.Laws.{count_mono}
use atlanticwave_proto.Rules.{Outside, RuleManager, Policy, Row, Breakdown}
use atlanticwave_proto.Rules.Cycle.{
  get_new_rule_number, determine_breakdown, row_of, add_rule_to_db, store_numbered, numbered,
  add_rule, has_hash,
}
use atlanticwave_proto.Rules.Keeps.{Keeps, AlwaysKeeps, bind_ok, bind_err}
use atlanticwave_proto.Rules.Numbers.{
  Inserted, Stores, add_rule_to_db-Stores, AlwaysKeeps-determine_breakdown,
}

module _ {N : NetworkX} (O : Outside N) where
  abbrev next_number : RuleManager O → ℤ
  next_number rm = rm.rule_number +ℤ pos 1

  -- What `add_rule` leaves: where it returns, a row for the next number. Where it raises, the number
  -- may be used up, and a row for it may be there.
  abbrev AddOutcome : RuleManager O → Result ℤ × RuleManager O → Type 0
  AddOutcome before (ok hash, after) =
      (hash ≡ next_number before)
      × (after.rule_number ≡ next_number before)
      × ((rule : Policy O) × Inserted O rule (next_number before) before after)
  AddOutcome before (err _, after) =
      Keeps O before after
      ⊎ ((after.rule_number ≡ next_number before)
          × ((after.rule_table ≡ before.rule_table)
              ⊎ ((rule : Policy O) × Inserted O rule (next_number before) before after)))

  AddOutcome-Keeps :
      (before middle : RuleManager O) (p : Result ℤ × RuleManager O)
      → Keeps O before middle
      → AddOutcome middle p
      → AddOutcome before p
  AddOutcome-Keeps before middle (ok h, after) same (e, n, (rule, (st, i))) =
      (e ∙ rw same.1, n ∙ rw same.1, (rule, (st, i ∙ rw (same.0, same.1))))
  AddOutcome-Keeps before middle (err x, after) same (inl k) = inl (k.0 ∙ same.0, k.1 ∙ same.1)
  AddOutcome-Keeps before middle (err x, after) same (inr (n, inl k)) =
      inr (n ∙ rw same.1, inl (k ∙ same.0))
  AddOutcome-Keeps before middle (err x, after) same (inr (n, inr (rule, (st, i)))) =
      inr (n ∙ rw same.1, inr (rule, (st, i ∙ rw (same.0, same.1))))

  AddOutcome-bind :
      {A : Type 0} (m : Action (RuleManager O) A) (f : A → Action (RuleManager O) ℤ)
      (rm : RuleManager O)
      → AlwaysKeeps O m
      → ((a : A) (middle : RuleManager O) → AddOutcome middle (f a middle))
      → AddOutcome rm ((m >>= f) rm)
  AddOutcome-bind m f rm keeps then_added = elim (Result-cases (m rm).0) [
    | inl (a, e) ↦
        subst (AddOutcome rm) (sym (bind_ok O m f rm a e))
          (AddOutcome-Keeps rm (m rm).1 (f a (m rm).1) (keeps rm) (then_added a (m rm).1))
    | inr (x, e) ↦ subst (AddOutcome rm) (sym (bind_err O m f rm x e)) (inl (keeps rm))
  ]

  -- the manager after `_get_new_rule_number`
  abbrev counted : RuleManager O → RuleManager O
  counted rm = record rm { rule_number = next_number rm }

  -- `_add_rule_to_db` with the next number
  abbrev stored : ℤ → Policy O → RuleManager O → Result (Unit {0}) × RuleManager O
  stored now rule rm = add_rule_to_db O now rule (next_number rm) (counted rm)

  abbrev finish : Policy O → ℤ → Action (RuleManager O) ℤ
  finish rule hash =
      modify (λ m. record m { called = m.called ++ map (λ cb. (cb, rule)) m.install_callbacks })
      >> pure hash

  AddOutcome-ok :
      (rule : Policy O) (rm : RuleManager O) (u : Unit {0}) (after : RuleManager O)
      → Stores O {A = Unit {0}} rule (next_number rm) (counted rm) (ok u, after)
      → AddOutcome rm (finish rule (next_number rm) after)
  AddOutcome-ok rule rm u after (n, i) = (refl, n, (rule, i))

  AddOutcome-err :
      (rule : Policy O) (rm : RuleManager O) (x : Exception) (after : RuleManager O)
      → Stores O {A = Unit {0}} rule (next_number rm) (counted rm) (err x, after)
      → AddOutcome rm (err x, after)
  AddOutcome-err rule rm x after (n, inl k) = inr (n, inl k)
  AddOutcome-err rule rm x after (n, inr i) = inr (n, inr (rule, i))

  store_numbered-AddOutcome :
      (now : ℤ) (rule : Policy O) (rm : RuleManager O)
      → AddOutcome rm (store_numbered O now (next_number rm) rule (counted rm))
  store_numbered-AddOutcome now rule rm =
      let store = add_rule_to_db O now rule (next_number rm) in
      let stores = add_rule_to_db-Stores O now rule (next_number rm) (counted rm) in
      elim (Result-cases (stored now rule rm).0) [
        | inl (u, e) ↦
            subst (AddOutcome rm)
              (sym (bind_ok O store (λ _. finish rule (next_number rm)) (counted rm) u e))
              (AddOutcome-ok rule rm u (stored now rule rm).1 (
                subst
                  (λ r.
                    Stores O {A = Unit {0}} rule (next_number rm) (counted rm)
                      (r, (stored now rule rm).1))
                  e stores))
        | inr (x, e) ↦
            subst (AddOutcome rm)
              (sym (bind_err O store (λ _. finish rule (next_number rm)) (counted rm) x e))
              (AddOutcome-err rule rm x (stored now rule rm).1 (
                subst
                  (λ r.
                    Stores O {A = Unit {0}} rule (next_number rm) (counted rm)
                      (r, (stored now rule rm).1))
                  e stores))
      ]

  add_rule-AddOutcome :
      (now : ℤ) (rule : Policy O) (rm : RuleManager O) → AddOutcome rm (add_rule O now rule rm)
  unfolding add_rule get_new_rule_number
  add_rule-AddOutcome now rule rm =
      AddOutcome-bind (modify (λ m. record m { last_modified = now }))
        (λ _. determine_breakdown O rule >>= number_it) rm (λ _. (refl, refl))
        (λ _ rm1.
          AddOutcome-bind (determine_breakdown O rule) number_it rm1
            (AlwaysKeeps-determine_breakdown O rule)
            (λ answer rm2.
              store_numbered-AddOutcome now (numbered O (next_number rm2) answer.0 answer.1) rm2))
    where
      number_it : Policy O × List (Breakdown O.Body) → Action (RuleManager O) ℤ
      number_it answer = get_new_rule_number O >>= λ rulehash.
          store_numbered O now rulehash (numbered O rulehash answer.0 answer.1)

  -- No row has a number above the last one that was given.
  abbrev pub IsNumbered : RuleManager O → Type 0
  IsNumbered rm = rows_with O.table (λ r. ltb_ℤ rm.rule_number r.hash) rm.rule_table ≡ 0

  next_le : (n : ℤ) → n ≤ℤ n +ℤ pos 1
  next_le n = omega int_laws

  module _ (laws : IsLawful O.table) where
    none_above :
        (n k : ℤ) (t : O.table.Table)
        → n ≤ℤ k
        → rows_with O.table (λ r. ltb_ℤ n r.hash) t ≡ 0
        → rows_with O.table (λ r. ltb_ℤ k r.hash) t ≡ 0
    none_above n k t le h = ground (
      arith,
      count_mono (λ (r : Row O). ltb_ℤ k r.hash) (λ r. ltb_ℤ n r.hash) (O.table.find (λ _. true) t)
          (λ r. ground arith),
    )

    none_inserted :
        (rule : Policy O) (n state : ℤ) (t : O.table.Table)
        → rows_with O.table (λ r. ltb_ℤ n r.hash) t ≡ 0
        → rows_with O.table
            (λ r. ltb_ℤ (n +ℤ pos 1) r.hash)
            (O.table.insert (row_of O rule (n +ℤ pos 1) state) t)
          ≡ 0
    none_inserted rule n state t h =
        laws.count-insert _ (row_of O rule (n +ℤ pos 1) state) t
        ∙ ground (arith, +ℤ_parts n (pos 1), none_above n (n +ℤ pos 1) t (next_le n) h)

    IsNumbered-AddOutcome :
        (rm : RuleManager O) (p : Result ℤ × RuleManager O)
        → IsNumbered rm
        → AddOutcome rm p
        → IsNumbered p.1
    IsNumbered-AddOutcome rm (ok h, after) numbered_before (e, n, (rule, (st, i))) =
        rw (i, n) (none_inserted rule rm.rule_number st rm.rule_table numbered_before)
    IsNumbered-AddOutcome rm (err x, after) numbered_before (inl k) = rw (k.0, k.1) numbered_before
    IsNumbered-AddOutcome rm (err x, after) numbered_before (inr (n, inl k)) =
        rw (k, n)
          (none_above rm.rule_number (next_number rm) rm.rule_table (next_le rm.rule_number)
            numbered_before)
    IsNumbered-AddOutcome rm (err x, after) numbered_before (inr (n, inr (rule, (st, i)))) =
        rw (i, n) (none_inserted rule rm.rule_number st rm.rule_table numbered_before)

    -- From a table in which no row has a number above the last one given, `add_rule` leads to such a
    -- table, whether it returns or raises.
    pub add_rule-IsNumbered :
        (now : ℤ) (rule : Policy O) (rm : RuleManager O)
        → IsNumbered rm
        → IsNumbered (add_rule O now rule rm).1
    add_rule-IsNumbered now rule rm h =
        IsNumbered-AddOutcome rm (add_rule O now rule rm) h (add_rule-AddOutcome now rule rm)

    none_with_next :
        (n : ℤ) (t : O.table.Table)
        → rows_with O.table (λ r. ltb_ℤ n r.hash) t ≡ 0
        → rows_with O.table (has_hash O (n +ℤ pos 1)) t ≡ 0
    none_with_next n t h = ground (
      arith,
      count_mono (has_hash O (n +ℤ pos 1)) (λ r. ltb_ℤ n r.hash) (O.table.find (λ _. true) t)
          (λ r. ground (arith, +ℤ_parts n (pos 1), int_eq.equals_iff r.hash (n +ℤ pos 1))),
    )

    fresh :
        (rm : RuleManager O) (hash k : ℤ) (after : RuleManager O)
        → IsNumbered rm
        → AddOutcome rm (ok hash, after)
        → (rows_with O.table (has_hash O hash) rm.rule_table ≡ 0)
          × (rows_with O.table (has_hash O k) after.rule_table
              ≡ one_if (hash == k) + rows_with O.table (has_hash O k) rm.rule_table)
    fresh rm hash k after h (e, n, (rule, (st, i))) = (
      rw e (none_with_next rm.rule_number rm.rule_table h),
      rw (i, e)
          (laws.count-insert (has_hash O k) (row_of O rule (next_number rm) st) rm.rule_table),
    )

    -- In a table in which no row has a number above the last one given, the hash that `add_rule`
    -- returns had no row before; after it the table has one row more for this hash, and for every
    -- other hash as many rows as before.
    pub add_rule_fresh :
        (now : ℤ) (rule : Policy O) (rm : RuleManager O) (hash k : ℤ)
        → IsNumbered rm
        → (add_rule O now rule rm).0 ≡ ok hash
        → (rows_with O.table (has_hash O hash) rm.rule_table ≡ 0)
          × (rows_with O.table (has_hash O k) (add_rule O now rule rm).1.rule_table
              ≡ one_if (hash == k) + rows_with O.table (has_hash O k) rm.rule_table)
    add_rule_fresh now rule rm hash k h returned = fresh rm hash k (add_rule O now rule rm).1 h (
        subst (λ r. AddOutcome rm (r, (add_rule O now rule rm).1)) returned
          (add_rule-AddOutcome now rule rm))
