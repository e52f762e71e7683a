-- ===== src/LocalRules/Laws.antt =====
-- What `add_rule`, `rm_rule` and `get_rules` of localctlr/LCRuleManager.py do to the rules that are
-- listed at a cookie and a switch.
use atlanticwave_proto.Prelude.{
  ℕ, ◌+◌, ◌≤◌, none, some, List, [], ◌∷◌, map, ◌⊎◌, ◌≡◌, refl, ◌↔◌, ◌∙◌, arith, Bool, true, false,
  ◌&&◌, if◌then◌else◌, ◌==◌, text_equality, Bool-cases, Option-cases, inl, inr, ltb, sym,
}
use atlanticwave_proto.Prelude.Lists.{contains}
use atlanticwave_proto.Prelude.Int.{ℤ, int_eq}
use atlanticwave_proto.Prelude.Action.{
  ok, err, lc_rule_manager_type_error, lc_rule_manager_validation_error,
  lc_rule_manager_deletion_error,
}
use atlanticwave_proto.Database.{count, one_if, Dataset, IsLawful, rows_with, Pickle}
use atlanticwave_proto.LocalRules.{
  Row, LcRules, find_rules, has_dupe, add_rule, rm_rule, get_rules, full_tuple, is_at, matches,
  valid_rule_statuses,
}

pub count_congr {ℓ} :
    {A : Type ℓ} (p q : A → Bool) (xs : List A) → ((x : A) → p x ≡ q x) → count p xs ≡ count q xs
unfolding count
count_congr p q [] h = refl
count_congr p q (x ∷ xs) h = rw (h x, count_congr p q xs h)

pub count_mono {ℓ} :
    {A : Type ℓ} (p q : A → Bool) (xs : List A)
    → ((x : A) → p x ≡ true → q x ≡ true)
    → count p xs ≤ count q xs
unfolding count
count_mono p q [] h = ground arith
count_mono p q (x ∷ xs) h = ground (arith, h x, count_mono p q xs h)

pub count-false {ℓ} : {A : Type ℓ} (xs : List A) → count (λ _. false) xs ≡ 0
unfolding count
count-false [] = refl
count-false (x ∷ xs) = rw (count-false xs)

pub count-map {ℓ κ} :
    {A : Type ℓ} {B : Type κ} (f : A → B) (q : B → Bool) (xs : List A)
    → count q (map f xs) ≡ count (λ x. q (f x)) xs
unfolding count
count-map f q [] = refl
count-map f q (x ∷ xs) = rw (count-map f q xs)

module _ {L : Type 0} (P : Pickle L) (D : Dataset (Row P.Text)) (same_rule : L → L → Bool) where
  -- How many of the rules that `get_rules(cookie, switch_id)` returns pass the test?
  abbrev pub listed : (L → Bool) → ℤ → ℤ → LcRules P D same_rule → ℕ
  listed q cookie switch_id m = elim (get_rules P D same_rule cookie switch_id m).0 [
    | ok rules ↦ count q rules
    | err _ ↦ 0
  ]

  -- the test on rows that `listed` counts
  abbrev pub at_with : (L → Bool) → ℤ → ℤ → Row P.Text → Bool
  at_with q cookie switch_id r = is_at cookie switch_id r && q (P.loads r.rule)

  -- the row that `add_rule` writes
  abbrev pub new_row : ℤ → ℤ → L → ℤ → Row P.Text
  new_row c s l st = record { cookie = c; switch_id = s; status = st; rule = P.dumps l }

  module _ (laws : IsLawful D) where
    pub listed_rows :
        (q : L → Bool) (c s : ℤ) (m : LcRules P D same_rule)
        → listed q c s m ≡ rows_with D (at_with q c s) m.rule_table
    unfolding get_rules
    listed_rows q c s m =
        count-map (λ r. P.loads r.rule) q (D.find (is_at c s) m.rule_table)
        ∙ laws.count-find (is_at c s) (λ r. q (P.loads r.rule)) m.rule_table

    has_dupe-count :
        (l : L) (rs : List (Row P.Text))
        → has_dupe P D same_rule l (map (full_tuple P D same_rule) rs)
          ≡ ltb 0 (count (λ r. same_rule (P.loads r.rule) l) rs)
    unfolding has_dupe count
    has_dupe-count l [] = refl
    has_dupe-count l (r ∷ rs) = ground (arith, has_dupe-count l rs)

    dupes_listed :
        (l : L) (c s : ℤ) (m : LcRules P D same_rule)
        → count
            (λ r. same_rule (P.loads r.rule) l)
            (D.find (matches (("cookie", c) ∷ ("switch_id", s) ∷ [])) m.rule_table)
          ≡ listed (λ k. same_rule k l) c s m
    dupes_listed l c s m =
        laws.count-find (matches (("cookie", c) ∷ ("switch_id", s) ∷ []))
          (λ r. same_rule (P.loads r.rule) l) m.rule_table
        ∙ count_congr _ _ (D.find (λ _. true) m.rule_table) (λ r. ground arith)
        ∙ sym (listed_rows (λ k. same_rule k l) c s m)

    pub add_rule_lem :
        (c s : ℤ) (l : L) (st : ℤ) (m : LcRules P D same_rule)
        → add_rule P D same_rule c s l st m ≡ (
            if contains valid_rule_statuses st
            then (if ltb 0 (listed (λ k. same_rule k l) c s m)
                then (err lc_rule_manager_validation_error, m)
                else (ok tt, record m { rule_table = D.insert (new_row c s l st) m.rule_table }))
            else (err lc_rule_manager_type_error, m))
    unfolding add_rule find_rules
    add_rule_lem c s l st m =
        rw
          (
            sym (dupes_listed l c s m),
            sym (
                has_dupe-count l
                  (D.find (matches (("cookie", c) ∷ ("switch_id", s) ∷ [])) m.rule_table)),
          )
          (ground arith)

    pub listed-insert :
        (q : L → Bool) (c s c' s' : ℤ) (l : L) (st : ℤ) (m : LcRules P D same_rule)
        → listed q c' s' (record m { rule_table = D.insert (new_row c s l st) m.rule_table })
          ≡ one_if ((c == c' && s == s') && q l) + listed q c' s' m
    listed-insert q c s c' s' l st m =
        listed_rows q c' s' (record m { rule_table = D.insert (new_row c s l st) m.rule_table })
        ∙ laws.count-insert (at_with q c' s') (new_row c s l st) m.rule_table
        ∙ rw (P.loads-dumps l, listed_rows q c' s' m)

    -- A rule is added exactly when the status is valid and no equal rule is listed at its cookie and
    -- switch.
    pub add_rule-iff-new :
        (c s : ℤ) (l : L) (st : ℤ) (m : LcRules P D same_rule)
        → ((add_rule P D same_rule c s l st m).0 ≡ ok tt)
          ↔ ((contains valid_rule_statuses st ≡ true) × (listed (λ k. same_rule k l) c s m ≡ 0))
    add_rule-iff-new c s l st m = rw (add_rule_lem c s l st m) (ground arith)

    -- Where `add_rule` returns, the rule is listed once more at its cookie and switch, and no other
    -- list changes; where it raises, the state is as before.
    pub get_rules-add_rule :
        (q : L → Bool) (c s c' s' : ℤ) (l : L) (st : ℤ) (m : LcRules P D same_rule)
        → listed q c' s' (add_rule P D same_rule c s l st m).1
          ≡ (elim (add_rule P D same_rule c s l st m).0 [
            | ok _ ↦ one_if ((c == c' && s == s') && q l) + listed q c' s' m
            | err _ ↦ listed q c' s' m
          ])
    get_rules-add_rule q c s c' s' l st m =
        rw (add_rule_lem c s l st m) (ground (arith, listed-insert q c s c' s' l st m))

    pub all_listed :
        (c s : ℤ) (m : LcRules P D same_rule)
        → listed (λ _. true) c s m ≡ rows_with D (is_at c s) m.rule_table
    all_listed c s m =
        listed_rows (λ _. true) c s m
        ∙ count_congr _ _ (D.find (λ _. true) m.rule_table) (λ r. ground arith)

    pub find_one_listed :
        (c s : ℤ) (m : LcRules P D same_rule)
        → ((D.find_one (is_at c s) m.rule_table ≡ none) × (listed (λ _. true) c s m ≡ 0))
          ⊎ ((r : Row P.Text) × (D.find_one (is_at c s) m.rule_table ≡ some r)
              × (1 ≤ listed (λ _. true) c s m))
    find_one_listed c s m = elim (Option-cases (D.find_one (is_at c s) m.rule_table)) [
      | inl e ↦ inl (e, all_listed c s m ∙ laws.find_one-none (is_at c s) m.rule_table e)
      | inr (r, e) ↦
          inr (r, e, rw (all_listed c s m) (laws.find_one-some (is_at c s) m.rule_table r e))
    ]

    pub rm_rule_lem :
        (c s : ℤ) (m : LcRules P D same_rule)
        → rm_rule P D same_rule c s m ≡ (
            if ltb 0 (listed (λ _. true) c s m)
            then (ok tt, record m { rule_table = D.delete (is_at c s) m.rule_table })
            else (err lc_rule_manager_deletion_error, m))
    unfolding rm_rule
    rm_rule_lem c s m = ground (arith, find_one_listed c s m)

    pub listed-delete :
        (q : L → Bool) (c s c' s' : ℤ) (m : LcRules P D same_rule)
        → listed q c' s' (record m { rule_table = D.delete (is_at c s) m.rule_table })
          ≡ (if c == c' && s == s' then 0 else listed q c' s' m)
    listed-delete q c s c' s' m = elim (Bool-cases (c == c' && s == s')) [
      | inl same ↦
          listed_rows q c' s' (record m { rule_table = D.delete (is_at c s) m.rule_table })
          ∙ laws.count-delete (is_at c s) (at_with q c' s') m.rule_table
          ∙ count_congr _ (λ _. false) (D.find (λ _. true) m.rule_table)
              (λ r. ground (arith, int_eq.equals_iff c c', int_eq.equals_iff s s'))
          ∙ count-false (D.find (λ _. true) m.rule_table)
          ∙ rw same
      | inr other ↦
          listed_rows q c' s' (record m { rule_table = D.delete (is_at c s) m.rule_table })
          ∙ laws.count-delete (is_at c s) (at_with q c' s') m.rule_table
          ∙ count_congr _ (at_with q c' s') (D.find (λ _. true) m.rule_table) (λ r. ground (
            arith,
            int_eq.equals_iff c c',
            int_eq.equals_iff s s',
            int_eq.equals_iff r.cookie c,
            int_eq.equals_iff r.cookie c',
            int_eq.equals_iff r.switch_id s,
            int_eq.equals_iff r.switch_id s',
          ))
          ∙ sym (listed_rows q c' s' m)
          ∙ rw other
    ]

    -- `rm_rule` returns exactly when a rule is listed at the cookie and the switch. It takes every
    -- rule listed there away and leaves the other lists; where it raises, no list changes.
    pub get_rules-rm_rule :
        (q : L → Bool) (c s c' s' : ℤ) (m : LcRules P D same_rule)
        → (((rm_rule P D same_rule c s m).0 ≡ ok tt) ↔ (1 ≤ listed (λ _. true) c s m))
          × (listed q c' s' (rm_rule P D same_rule c s m).1
              ≡ (elim (rm_rule P D same_rule c s m).0 [
                | ok _ ↦ if c == c' && s == s' then 0 else listed q c' s' m
                | err _ ↦ listed q c' s' m
              ]))
    get_rules-rm_rule q c s c' s' m =
        rw (rm_rule_lem c s m) (ground (arith, listed-delete q c s c' s' m))
