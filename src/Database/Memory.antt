-- ===== src/Database/Memory.antt =====
-- A table held in memory, for the tests: it shows that the laws of a table can hold.
use atlanticwave_proto.Prelude.{
  Option, none, some, List, [], ◌∷◌, ◌++◌, ◌+◌, ◌≤◌, ◌≡◌, refl, arith, Bool, true, not, ◌&&◌,
  if◌then◌else◌,
}
use atlanticwave_proto.Database.{count, one_if, Dataset, IsLawful}

abbrev filter : {A : Type 0} → (A → Bool) → List A → List A
filter p [] = []
filter p (x ∷ xs) = if p x then x ∷ filter p xs else filter p xs

abbrev first : {A : Type 0} → (A → Bool) → List A → Option A
first p [] = none
first p (x ∷ xs) = if p x then some x else first p xs

abbrev change : {A : Type 0} → (A → Bool) → (A → A) → List A → List A
change p f [] = []
change p f (x ∷ xs) = (if p x then f x else x) ∷ change p f xs

abbrev pub memory_table : (Row : Type 0) → Dataset Row
memory_table Row = record {
  Table = List Row;
  find = filter;
  find_one = first;
  insert = λ r t. t ++ r ∷ [];
  delete = λ p t. filter (λ r. not (p r)) t;
  update = change;
}

module _ {A : Type 0} where
  count-filter : (p q : A → Bool) (xs : List A) → count q (filter p xs) ≡ count (λ x. p x && q x) xs
  unfolding count
  count-filter p q [] = refl
  count-filter p q (x ∷ xs) = ground (arith, count-filter p q xs)

  filter-all : (xs : List A) → filter (λ _. true) xs ≡ xs
  filter-all [] = refl
  filter-all (x ∷ xs) = rw (filter-all xs)

  first-none : (p : A → Bool) (xs : List A) → first p xs ≡ none → count p xs ≡ 0
  unfolding count
  first-none p [] h = refl
  first-none p (x ∷ xs) h = ground (arith, first-none p xs)

  first-some : (p : A → Bool) (xs : List A) (x : A) → first p xs ≡ some x → 1 ≤ count p xs
  unfolding count
  first-some p [] x h = ground arith
  first-some p (y ∷ xs) x h = ground (arith, first-some p xs x)

  count-append_one :
      (q : A → Bool) (x : A) (xs : List A) → count q (xs ++ x ∷ []) ≡ one_if (q x) + count q xs
  unfolding count
  count-append_one q x [] = refl
  count-append_one q x (y ∷ xs) = ground (arith, count-append_one q x xs)

  count-change :
      (p : A → Bool) (f : A → A) (q : A → Bool) (xs : List A)
      → count q (change p f xs) ≡ count (λ x. q (if p x then f x else x)) xs
  unfolding count
  count-change p f q [] = refl
  count-change p f q (x ∷ xs) = rw (count-change p f q xs)

pub memory_table-IsLawful : (Row : Type 0) → IsLawful (memory_table Row)
memory_table-IsLawful Row = record {
  count-find = λ p q t. rw (filter-all t, count-filter p q t);
  find_one-none = λ p t h. rw (filter-all t, first-none p t h);
  find_one-some = λ p t r h. rw (filter-all t) (first-some p t r h);
  count-insert = λ q r t. rw (filter-all t, filter-all (t ++ r ∷ []), count-append_one q r t);
  count-delete = λ p q t.
      rw (filter-all t, filter-all (filter (λ r. not (p r)) t), count-filter (λ r. not (p r)) q t);
  count-update = λ p f q t. rw (filter-all t, filter-all (change p f t), count-change p f q t);
}
