-- ===== src/LocalRules/Initial.antt =====
-- What `initial_rules_complete` of localctlr/LCRuleManager.py puts into its two lists.
use native.Mathlib.Nat.{zero-mul, add-mul, one-mul}
use atlanticwave_proto.Prelude.{
  ℕ, ◌+◌, ◌*◌, List, [], ◌∷◌, ◌++◌, map, ◌≡◌, refl, ◌∙◌, arith, Bool, true, false, ◌&&◌,
  if◌then◌else◌, ◌==◌, Bool-cases, inl, inr, ltb, sym, ap,
}
use atlanticwave_proto.Prelude.Int.{ℤ, int_eq}
use atlanticwave_proto.Prelude.Action.{ok}
use atlanticwave_proto.Database.{count, Dataset, IsLawful, Pickle}
use atlanticwave_proto.LocalRules.{
  Row, LcRules, has_pair, get_full_rules, delete_from, initial_at, add_from, initial_rules_complete,
  is_at, full_tuple,
}
use atlanticwave_proto.LocalRules.Laws.{
  count-map, count_congr, count-false, at_with, listed, all_listed, listed_rows,
}

pub count-append {ℓ} :
    {A : Type ℓ} (q : A → Bool) (xs ys : List A) → count q (xs ++ ys) ≡ count q xs + count q ys
unfolding count
count-append q [] ys = ground arith
count-append q (x ∷ xs) ys = ground (arith, count-append q xs ys)

abbrev pub is_pair : ℤ → ℤ → ℤ × ℤ → Bool
is_pair c s t = t.0 == c && t.1 == s

has_pair-count : (ts : List (ℤ × ℤ)) (c s : ℤ) → has_pair ts (c, s) ≡ ltb 0 (count (is_pair c s) ts)
unfolding count
has_pair-count [] c s = refl
has_pair-count (t ∷ ts) c s = ground (
  arith,
  has_pair-count ts c s,
  int_eq.equals_iff c t.0,
  int_eq.equals_iff t.0 c,
  int_eq.equals_iff s t.1,
  int_eq.equals_iff t.1 s,
)

is_pair_eq : (c s : ℤ) (t : ℤ × ℤ) → is_pair c s t ≡ true → t ≡ (c, s)
is_pair_eq c s t h = ground (arith, int_eq.equals_iff t.0 c, int_eq.equals_iff t.1 s)

one_more : (k n : ℕ) → (1 + k) * n ≡ n + k * n
one_more k n = rw (add-mul 1 k n, one-mul n)

module _ {L : Type 0} (P : Pickle L) (D : Dataset (Row P.Text)) (same_rule : L → L → Bool) where
  -- an entry of a result list at the cookie and the switch, with a rule that passes the test
  abbrev pub entry_at : (L → Bool) → ℤ → ℤ → L × (ℤ × ℤ) → Bool
  entry_at q c s x = is_pair c s x.1 && q x.0

  -- how many initial rules at the cookie and the switch pass the test
  abbrev pub waiting : (L → Bool) → ℤ → ℤ → List ((ℤ × ℤ) × L) → ℕ
  waiting q c s initial = count (λ x. is_pair c s x.0 && q x.1) initial

  count-initial_at :
      (q : L → Bool) (c s : ℤ) (t : ℤ × ℤ) (initial : List ((ℤ × ℤ) × L))
      → count (entry_at q c s) (initial_at P D same_rule t initial)
        ≡ (if is_pair c s t then waiting q c s initial else 0)
  unfolding initial_at count
  count-initial_at q c s t [] = ground arith
  count-initial_at q c s t (x ∷ xs) = ground (
    arith,
    count-initial_at q c s t xs,
    int_eq.equals_iff t.0 x.0.0,
    int_eq.equals_iff t.1 x.0.1,
    int_eq.equals_iff t.0 c,
    int_eq.equals_iff t.1 s,
    int_eq.equals_iff x.0.0 c,
    int_eq.equals_iff x.0.1 s,
  )

  add_from_step :
      (q : L → Bool) (c s : ℤ) (installed : List (ℤ × ℤ)) (initial : List ((ℤ × ℤ) × L)) (t : ℤ × ℤ)
      (ts : List (ℤ × ℤ))
      → count (entry_at q c s) (add_from P D same_rule installed initial (t ∷ ts))
        ≡ (if has_pair installed t then 0 else (if is_pair c s t then waiting q c s initial else 0))
          + count (entry_at q c s) (add_from P D same_rule installed initial ts)
  unfolding add_from
  add_from_step q c s installed initial t ts = ground (
    arith,
    count-append (entry_at q c s) (initial_at P D same_rule t initial)
        (add_from P D same_rule installed initial ts),
    count-initial_at q c s t initial,
  )

  count-add_from :
      (q : L → Bool) (c s : ℤ) (installed : List (ℤ × ℤ)) (initial : List ((ℤ × ℤ) × L))
      (ts : List (ℤ × ℤ))
      → count (entry_at q c s) (add_from P D same_rule installed initial ts)
        ≡ (if has_pair installed (c, s) then 0 else count (is_pair c s) ts * waiting q c s initial)
  unfolding add_from count
  count-add_from q c s installed initial [] = ground (arith, zero-mul (waiting q c s initial))
  count-add_from q c s installed initial (t ∷ ts) = elim (Bool-cases (is_pair c s t)) [
    | inl here ↦
        add_from_step q c s installed initial t ts
        ∙ ground (
          arith,
          ap (has_pair installed) (is_pair_eq c s t here),
          count-add_from q c s installed initial ts,
          one_more (count (is_pair c s) ts) (waiting q c s initial),
        )
    | inr there ↦
        add_from_step q c s installed initial t ts
        ∙ ground (arith, count-add_from q c s installed initial ts)
  ]

  module _ (laws : IsLawful D) where
    -- what the delete list gets for one row's cookie and switch
    abbrev entries_at : ℤ × ℤ → LcRules P D same_rule → List (L × (ℤ × ℤ))
    entries_at t m =
        map (λ x. (x.1.0, x.0))
          (map (full_tuple P D same_rule) (D.find (is_at t.0 t.1) m.rule_table))

    count-entries_at :
        (q : L → Bool) (c s : ℤ) (t : ℤ × ℤ) (m : LcRules P D same_rule)
        → count (entry_at q c s) (entries_at t m)
          ≡ (if is_pair c s t then listed P D same_rule q c s m else 0)
    count-entries_at q c s t m =
        count-map (λ x. (x.1.0, x.0)) (entry_at q c s)
          (map (full_tuple P D same_rule) (D.find (is_at t.0 t.1) m.rule_table))
        ∙ count-map (full_tuple P D same_rule) _ (D.find (is_at t.0 t.1) m.rule_table)
        ∙ laws.count-find (is_at t.0 t.1) (at_with P D same_rule q c s) m.rule_table
        ∙ elim (Bool-cases (is_pair c s t)) [
          | inl here ↦
              count_congr _ (at_with P D same_rule q c s) (D.find (λ _. true) m.rule_table)
                (λ r. ground (arith, int_eq.equals_iff t.0 c, int_eq.equals_iff t.1 s))
              ∙ sym (listed_rows P D same_rule laws q c s m)
              ∙ rw here
          | inr there ↦
              count_congr _ (λ _. false) (D.find (λ _. true) m.rule_table)
                (λ r. ground (
                  arith,
                  int_eq.equals_iff t.0 c,
                  int_eq.equals_iff t.1 s,
                  int_eq.equals_iff r.cookie c,
                  int_eq.equals_iff r.switch_id s,
                  int_eq.equals_iff r.cookie t.0,
                  int_eq.equals_iff r.switch_id t.1,
                ))
              ∙ count-false (D.find (λ _. true) m.rule_table)
              ∙ rw there
        ]

    abbrev deleted : List (ℤ × ℤ) → List (ℤ × ℤ) → LcRules P D same_rule → List (L × (ℤ × ℤ))
    deleted initial [] m = []
    deleted initial (t ∷ ts) m =
        if has_pair initial (t.0, t.1)
        then deleted initial ts m
        else entries_at t m ++ deleted initial ts m

    delete_from-deleted :
        (initial installed : List (ℤ × ℤ)) (m : LcRules P D same_rule)
        → delete_from P D same_rule initial installed m ≡ (ok (deleted initial installed m), m)
    unfolding delete_from get_full_rules
    delete_from-deleted initial [] m = refl
    delete_from-deleted initial (t ∷ ts) m = ground (arith, delete_from-deleted initial ts m)

    count-deleted :
        (q : L → Bool) (c s : ℤ) (initial installed : List (ℤ × ℤ)) (m : LcRules P D same_rule)
        → count (entry_at q c s) (deleted initial installed m) ≡ (
            if has_pair initial (c, s)
            then 0
            else count (is_pair c s) installed * listed P D same_rule q c s m)
    unfolding count
    count-deleted q c s initial [] m = ground (arith, zero-mul (listed P D same_rule q c s m))
    count-deleted q c s initial (t ∷ ts) m = ground (
      arith,
      λ (h : is_pair c s t ≡ true). ap (has_pair initial) (is_pair_eq c s t h),
      count-append (entry_at q c s) (entries_at t m) (deleted initial ts m),
      count-entries_at q c s t m,
      count-deleted q c s initial ts m,
      one_more (count (is_pair c s) ts) (listed P D same_rule q c s m),
    )

    abbrev row_keys : LcRules P D same_rule → List (ℤ × ℤ)
    row_keys m = map (λ r. (r.cookie, r.switch_id)) (D.find (λ _. true) m.rule_table)

    abbrev initial_keys : LcRules P D same_rule → List (ℤ × ℤ)
    initial_keys m = map (λ x. x.0) m.initial_rules_list

    count-row_keys :
        (c s : ℤ) (m : LcRules P D same_rule)
        → count (is_pair c s) (row_keys m) ≡ listed P D same_rule (λ _. true) c s m
    count-row_keys c s m =
        count-map (λ r. (r.cookie, r.switch_id)) (is_pair c s) (D.find (λ _. true) m.rule_table)
        ∙ sym (all_listed P D same_rule laws c s m)

    count-initial_keys :
        (c s : ℤ) (m : LcRules P D same_rule)
        → count (is_pair c s) (initial_keys m) ≡ waiting (λ _. true) c s m.initial_rules_list
    count-initial_keys c s m =
        count-map (λ x. x.0) (is_pair c s) m.initial_rules_list
        ∙ count_congr _ _ m.initial_rules_list (λ x. ground arith)

    -- Every rule of the table waits for its deletion when no initial rule has its cookie and
    -- switch, and is then listed once for each row there; every initial rule waits for its addition
    -- when no row has its cookie and switch, and is then listed once for each initial rule there.
    -- Nothing else is listed, the call returns, and the state is as before.
    pub initial_rules_complete_lem :
        (q : L → Bool) (c s : ℤ) (m : LcRules P D same_rule)
        → (lists : List (L × (ℤ × ℤ)) × List (L × (ℤ × ℤ))) × (initial_rules_complete P D same_rule
              m
            ≡ (ok lists, m))
          × (count (entry_at q c s) lists.0 ≡ (
              if ltb 0 (waiting (λ _. true) c s m.initial_rules_list)
              then 0
              else listed P D same_rule (λ _. true) c s m * listed P D same_rule q c s m))
          × (count (entry_at q c s) lists.1 ≡ (
              if ltb 0 (listed P D same_rule (λ _. true) c s m)
              then 0
              else waiting (λ _. true) c s m.initial_rules_list
                * waiting q c s m.initial_rules_list))
    unfolding initial_rules_complete
    initial_rules_complete_lem q c s m = (
      (
        deleted (initial_keys m) (row_keys m) m,
        add_from P D same_rule (row_keys m) m.initial_rules_list (initial_keys m),
      ),
      ground (arith, delete_from-deleted (initial_keys m) (row_keys m) m),
      count-deleted q c s (initial_keys m) (row_keys m) m
          ∙ rw
              (has_pair-count (initial_keys m) c s, count-initial_keys c s m, count-row_keys c s m),
      count-add_from q c s (row_keys m) m.initial_rules_list (initial_keys m)
          ∙ rw (has_pair-count (row_keys m) c s, count-initial_keys c s m, count-row_keys c s m),
    )
