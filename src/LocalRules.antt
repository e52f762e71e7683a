-- ===== src/LocalRules.antt =====
-- The local controller's rule manager, `LCRuleManager` of localctlr/LCRuleManager.py: a table of
-- the rules with their status, and the list of rules received while the controller connects.
pub mod Laws
pub mod Status
pub mod Initial
pub mod Controller
pub mod Messages
mod Tests
use atlanticwave_proto.Prelude.{
  String, Option, none, some, List, [], ◌∷◌, ◌++◌, map, Bool, true, not, ◌&&◌, ◌||◌, if◌then◌else◌,
  ◌==◌, text_equality,
}
use atlanticwave_proto.Prelude.Lists.{contains}
use atlanticwave_proto.Prelude.Int.{ℤ, pos, int_eq}
use atlanticwave_proto.Prelude.Action.{
  Action, pure, raise, gets, modify, raise_if, type_error, lc_rule_manager_type_error,
  lc_rule_manager_validation_error, lc_rule_manager_deletion_error, ◌>>=◌, ◌>>◌,
}
use atlanticwave_proto.Database.{Dataset, Pickle}

abbrev pub rule_status_active : ℤ
rule_status_active = pos 1

abbrev pub rule_status_deleting : ℤ
rule_status_deleting = pos 2

abbrev pub rule_status_installing : ℤ
rule_status_installing = pos 3

abbrev pub rule_status_removed : ℤ
rule_status_removed = pos 4

abbrev pub valid_rule_statuses : List ℤ
valid_rule_statuses =
    rule_status_active ∷ rule_status_deleting ∷ rule_status_installing ∷ rule_status_removed ∷ []

-- a row of the table `lcrules`
pub record Row (Text : Type 0) : Type 0 where
  pub cookie : ℤ
  pub switch_id : ℤ
  pub status : ℤ
  pub rule : Text

-- `_valid_table_columns`
abbrev pub valid_table_columns : List String
valid_table_columns = "cookie" ∷ "switch_id" ∷ "status" ∷ "rule" ∷ []

-- Is the number the value of the column? The pickled rule is no number.
abbrev pub has_value : {Text : Type 0} → String → ℤ → Row Text → Bool
has_value key n r =
    if key == "cookie"
    then r.cookie == n
    else (if key == "switch_id" then r.switch_id == n else key == "status" && r.status == n)

-- a filter dictionary as keyword arguments of `find`
abbrev pub matches : {Text : Type 0} → List (String × ℤ) → Row Text → Bool
matches [] r = true
matches ((key, n) ∷ filter) r = has_value key n r && matches filter r

-- `cookie=cookie, switch_id=switch_id`
abbrev pub is_at : {Text : Type 0} → ℤ → ℤ → Row Text → Bool
is_at cookie switch_id r = r.cookie == cookie && r.switch_id == switch_id

-- `key not in self._valid_table_columns` for some key
abbrev pub has_bad_key : List (String × ℤ) → Bool
has_bad_key [] = not true
has_bad_key ((key, n) ∷ filter) =
    if contains valid_table_columns key then has_bad_key filter else true

-- `(c, s) in pairs`
abbrev pub has_pair : List (ℤ × ℤ) → ℤ × ℤ → Bool
has_pair [] t = not true
has_pair ((c, s) ∷ ts) t = (c == t.0 && s == t.1) || has_pair ts t

-- The rules have the class `L`, and `same_rule` is its `__eq__`.
module _ {L : Type 0} (P : Pickle L) (D : Dataset (Row P.Text)) (same_rule : L → L → Bool) where
  pub record LcRules : Type 0 where
    pub rule_table : D.Table
    pub initial_rules_list : List ((ℤ × ℤ) × L)

  -- `(cookie, switch_id, rule, status)` of a row
  abbrev pub full_tuple : Row P.Text → ((ℤ × ℤ) × (L × ℤ))
  full_tuple r = ((r.cookie, r.switch_id), (P.loads r.rule, r.status))

  unfoldable pub find_rules : Option (List (String × ℤ)) → Action LcRules (List ((ℤ × ℤ) × (L × ℤ)))
  find_rules none = raise type_error
  find_rules (some filter) = do
    raise_if (has_bad_key filter) lc_rule_manager_validation_error
    results ← gets (λ m. D.find (matches filter) m.rule_table)
    pure (map full_tuple results)

  -- the loop over the duplicates: has one of them the same rule?
  unfoldable pub has_dupe : L → List ((ℤ × ℤ) × (L × ℤ)) → Bool
  has_dupe lcrule [] = not true
  has_dupe lcrule (dupe ∷ dupes) = same_rule dupe.1.0 lcrule || has_dupe lcrule dupes

  unfoldable pub add_rule : ℤ → ℤ → L → ℤ → Action LcRules (Unit {0})
  add_rule cookie switch_id lcrule status = do
    raise_if (not (contains valid_rule_statuses status)) lc_rule_manager_type_error
    dupes ← find_rules (some (("cookie", cookie) ∷ ("switch_id", switch_id) ∷ []))
    raise_if (has_dupe lcrule dupes) lc_rule_manager_validation_error
    modify (λ m. record m {
      rule_table =
          D.insert
            (record {
              cookie = cookie;
              switch_id = switch_id;
              status = status;
              rule = P.dumps lcrule;
            })
            m.rule_table;
    })

  unfoldable pub rm_rule : ℤ → ℤ → Action LcRules (Unit {0})
  rm_rule cookie switch_id = do
    found ← gets (λ m. D.find_one (is_at cookie switch_id) m.rule_table)
    elim found [
      | none ↦ raise lc_rule_manager_deletion_error
      | some _ ↦
          modify (λ m. record m { rule_table = D.delete (is_at cookie switch_id) m.rule_table })
    ]

  -- `update` selects by the keys it is given, here `['cookie']`, and writes the other columns.
  unfoldable pub set_status : ℤ → ℤ → ℤ → Action LcRules (Unit {0})
  set_status cookie switch_id status = do
    raise_if (not (contains valid_rule_statuses status)) lc_rule_manager_validation_error
    found ← gets (λ m. D.find_one (is_at cookie switch_id) m.rule_table)
    elim found [
      | none ↦ pure tt
      | some _ ↦ modify (λ m. record m {
        rule_table =
            D.update (λ r. r.cookie == cookie)
              (λ r. record r { switch_id = switch_id; status = status }) m.rule_table;
      })
    ]

  -- `get_rules(cookie, switch_id, True)`
  unfoldable pub get_full_rules : ℤ → ℤ → Action LcRules (List ((ℤ × ℤ) × (L × ℤ)))
  get_full_rules cookie switch_id = do
    rules ← gets (λ m. D.find (is_at cookie switch_id) m.rule_table)
    pure (map full_tuple rules)

  -- `get_rules(cookie, switch_id)`
  unfoldable pub get_rules : ℤ → ℤ → Action LcRules (List L)
  get_rules cookie switch_id = do
    rules ← gets (λ m. D.find (is_at cookie switch_id) m.rule_table)
    pure (map (λ r. P.loads r.rule) rules)

  unfoldable pub add_initial_rule : L → ℤ → ℤ → Action LcRules (Unit {0})
  add_initial_rule rule cookie switch_id = modify (λ m. record m {
    initial_rules_list = m.initial_rules_list ++ ((cookie, switch_id), rule) ∷ [];
  })

  unfoldable pub clear_initial_rules : Action LcRules (Unit {0})
  clear_initial_rules = modify (λ m. record m { initial_rules_list = [] })

  -- the first loop of `initial_rules_complete`: the rows without an initial rule
  unfoldable pub delete_from : List (ℤ × ℤ) → List (ℤ × ℤ) → Action LcRules (List (L × (ℤ × ℤ)))
  delete_from initial [] = pure []
  delete_from initial ((c, s) ∷ installed) = do
    let rest = delete_from initial installed
    if has_pair initial (c, s) then rest else (do
      rules ← get_full_rules c s
      more ← rest
      pure (map (λ t. (t.1.0, t.0)) rules ++ more))

  -- the initial rules of one cookie and switch
  unfoldable pub initial_at : ℤ × ℤ → List ((ℤ × ℤ) × L) → List (L × (ℤ × ℤ))
  initial_at t [] = []
  initial_at t (x ∷ xs) =
      let rest = initial_at t xs in if t.0 == x.0.0 && t.1 == x.0.1 then (x.1, x.0) ∷ rest else rest

  -- the second loop: the initial rules without a row
  unfoldable pub add_from : List (ℤ × ℤ) → List ((ℤ × ℤ) × L) → List (ℤ × ℤ) → List (L × (ℤ × ℤ))
  add_from installed initial [] = []
  add_from installed initial (t ∷ ts) =
      let rest = add_from installed initial ts in
      if has_pair installed t then rest else initial_at t initial ++ rest

  unfoldable pub initial_rules_complete : Action LcRules (List (L × (ℤ × ℤ)) × List (L × (ℤ × ℤ)))
  initial_rules_complete = do
    rows ← gets (λ m. D.find (λ _. true) m.rule_table)
    initial ← gets (λ m. m.initial_rules_list)
    let installed = map (λ r. (r.cookie, r.switch_id)) rows
    let wanted = map (λ x. x.0) initial
    delete_list ← delete_from wanted installed
    pure (delete_list, add_from installed initial wanted)
