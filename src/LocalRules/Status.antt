-- ===== src/LocalRules/Status.antt =====
-- What `set_status` of localctlr/LCRuleManager.py does: its `update` selects rows by the cookie
-- alone and writes the switch too.
use atlanticwave_proto.Prelude.{
  ℕ, ◌≤◌, List, ◌≡◌, ◌∙◌, arith, Bool, true, false, ◌&&◌, if◌then◌else◌, ◌==◌, text_equality,
  Bool-cases, inl, inr, ltb, sym,
}
use atlanticwave_proto.Prelude.Lists.{contains}
use atlanticwave_proto.Prelude.Int.{ℤ, int_eq}
use atlanticwave_proto.Prelude.Action.{ok, err, lc_rule_manager_validation_error}
use atlanticwave_proto.Database.{count, Dataset, IsLawful, rows_with, Pickle}
use atlanticwave_proto.LocalRules.{Row, LcRules, set_status, valid_rule_statuses}
use atlanticwave_proto.LocalRules.Laws.{
  count_congr, count-false, listed, at_with, listed_rows, find_one_listed,
}

module _ {L : Type 0} (P : Pickle L) (D : Dataset (Row P.Text)) (same_rule : L → L → Bool) where
  -- The rows of a cookie with a rule that passes the test, on whatever switch.
  abbrev pub with_cookie : (L → Bool) → ℤ → LcRules P D same_rule → ℕ
  with_cookie q c m = rows_with D (λ r. r.cookie == c && q (P.loads r.rule)) m.rule_table

  -- the table after the `update` of `set_status`
  abbrev pub moved : ℤ → ℤ → ℤ → LcRules P D same_rule → LcRules P D same_rule
  moved c s st m = record m {
    rule_table =
        D.update (λ r. r.cookie == c) (λ r. record r { switch_id = s; status = st }) m.rule_table;
  }

  module _ (laws : IsLawful D) where
    abbrev rows : LcRules P D same_rule → List (Row P.Text)
    rows m = D.find (λ _. true) m.rule_table

    at_moved :
        (q : L → Bool) (c s st c' s' : ℤ) (m : LcRules P D same_rule)
        → listed P D same_rule q c' s' (moved c s st m)
          ≡ count
              (λ r.
                at_with P D same_rule q c' s'
                  (if r.cookie == c then record r { switch_id = s; status = st } else r))
              (rows m)
    at_moved q c s st c' s' m =
        listed_rows P D same_rule laws q c' s' (moved c s st m)
        ∙ laws.count-update (λ r. r.cookie == c) (λ r. record r { switch_id = s; status = st })
            (at_with P D same_rule q c' s') m.rule_table

    pub listed-moved :
        (q : L → Bool) (c s st c' s' : ℤ) (m : LcRules P D same_rule)
        → listed P D same_rule q c' s' (moved c s st m) ≡ (
            if c == c'
            then (if s == s' then with_cookie q c m else 0)
            else listed P D same_rule q c' s' m)
    listed-moved q c s st c' s' m = elim (Bool-cases (c == c')) [
      | inr other ↦
          at_moved q c s st c' s' m
          ∙ count_congr _ (at_with P D same_rule q c' s') (rows m) (λ r. ground (
            arith,
            int_eq.equals_iff c c',
            int_eq.equals_iff r.cookie c,
            int_eq.equals_iff r.cookie c',
          ))
          ∙ sym (listed_rows P D same_rule laws q c' s' m)
          ∙ rw other
      | inl same ↦ elim (Bool-cases (s == s')) [
        | inl here ↦
            at_moved q c s st c' s' m
            ∙ count_congr _ (λ r. r.cookie == c && q (P.loads r.rule)) (rows m)
                (λ r. ground (
                  arith,
                  int_eq.equals_iff c c',
                  int_eq.equals_iff s s',
                  int_eq.equals_iff r.cookie c,
                  int_eq.equals_iff r.cookie c',
                ))
            ∙ rw (same, here)
        | inr there ↦
            at_moved q c s st c' s' m
            ∙ count_congr _ (λ _. false) (rows m)
                (λ r. ground (
                  arith,
                  int_eq.equals_iff c c',
                  int_eq.equals_iff s s',
                  int_eq.equals_iff r.cookie c,
                  int_eq.equals_iff r.cookie c',
                ))
            ∙ count-false (rows m)
            ∙ rw (same, there)
      ]
    ]

    pub set_status_lem :
        (c s st : ℤ) (m : LcRules P D same_rule)
        → set_status P D same_rule c s st m ≡ (
            if contains valid_rule_statuses st
            then (if ltb 0 (listed P D same_rule (λ _. true) c s m)
                then (ok tt, moved c s st m)
                else (ok tt, m))
            else (err lc_rule_manager_validation_error, m))
    unfolding set_status
    set_status_lem c s st m = ground (arith, find_one_listed P D same_rule laws c s m)

    -- With a valid status and a rule listed at the cookie and the switch, `set_status` returns, and
    -- it moves every rule of the cookie to that switch: afterwards the cookie's rules of all switches
    -- are listed there and none at another switch. The lists of other cookies are as before.
    pub get_rules-set_status :
        (q : L → Bool) (c s st c' s' : ℤ) (m : LcRules P D same_rule)
        → contains valid_rule_statuses st ≡ true
        → 1 ≤ listed P D same_rule (λ _. true) c s m
        → ((set_status P D same_rule c s st m).0 ≡ ok tt)
          × (listed P D same_rule q c' s' (set_status P D same_rule c s st m).1 ≡ (
              if c == c'
              then (if s == s' then with_cookie q c m else 0)
              else listed P D same_rule q c' s' m))
    get_rules-set_status q c s st c' s' m valid some_rule =
        rw (set_status_lem c s st m) (ground (arith, listed-moved q c s st c' s' m))
