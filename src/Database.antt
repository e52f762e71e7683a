-- ===== src/Database.antt =====
-- The tables of the `dataset` package, which sdxctlr/RuleManager.py and localctlr/LCRuleManager.py
-- keep their rules in, and `pickle`. Both are parameters: the operations the code calls, and what
-- their documentation says of them. A keyword filter is a test on rows. SQL promises no order of
-- the rows of an unordered query, so the laws count rows.
pub mod Memory
use atlanticwave_proto.Prelude.{
  ℕ, ◌+◌, ◌≤◌, Option, none, some, List, [], ◌∷◌, ◌≡◌, Bool, true, not, ◌&&◌, if◌then◌else◌,
}

abbrev pub one_if : Bool → ℕ
one_if b = if b then 1 else 0

-- how many items pass the test
unfoldable pub count {ℓ} : {A : Type ℓ} → (A → Bool) → List A → ℕ
count q [] = 0
count q (x ∷ xs) = one_if (q x) + count q xs

pub record Dataset (Row : Type 0) : Type 1 where
  pub Table : Type 0
  pub find : (Row → Bool) → Table → List Row
  pub find_one : (Row → Bool) → Table → Option Row
  pub insert : Row → Table → Table
  pub delete : (Row → Bool) → Table → Table
  pub update : (Row → Bool) → (Row → Row) → Table → Table

-- how many rows of the table pass the test
abbrev pub rows_with : {Row : Type 0} (D : Dataset Row) → (Row → Bool) → D.Table → ℕ
rows_with D q t = count q (D.find (λ _. true) t)

-- What the package's documentation says: a query selects rows, and `insert`, `delete` and `update`
-- add one row, take the selected rows away and change the selected rows.
pub record IsLawful {Row : Type 0} (D : Dataset Row) : Type 0 where
  pub count-find :
      (p q : Row → Bool) (t : D.Table) → count q (D.find p t) ≡ rows_with D (λ r. p r && q r) t
  pub find_one-none : (p : Row → Bool) (t : D.Table) → D.find_one p t ≡ none → rows_with D p t ≡ 0
  pub find_one-some :
      (p : Row → Bool) (t : D.Table) (r : Row) → D.find_one p t ≡ some r → 1 ≤ rows_with D p t
  pub count-insert :
      (q : Row → Bool) (r : Row) (t : D.Table)
      → rows_with D q (D.insert r t) ≡ one_if (q r) + rows_with D q t
  pub count-delete :
      (p q : Row → Bool) (t : D.Table)
      → rows_with D q (D.delete p t) ≡ rows_with D (λ r. not (p r) && q r) t
  pub count-update :
      (p : Row → Bool) (f : Row → Row) (q : Row → Bool) (t : D.Table)
      → rows_with D q (D.update p f t) ≡ rows_with D (λ r. q (if p r then f r else r)) t

-- `pickle.dumps` and `pickle.loads`
pub record Pickle (A : Type 0) : Type 1 where
  pub Text : Type 0
  pub dumps : A → Text
  pub loads : Text → A
  pub loads-dumps : (a : A) → loads (dumps a) ≡ a
