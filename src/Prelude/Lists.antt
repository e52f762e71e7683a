-- ===== src/Prelude/Lists.antt =====
-- Python's lists and dicts: `in`, `append`, `remove`, `d[k]`, `d[k] = v`, and `zip(p[0:-1], p[1:])`.
use Prim.Native.Nat.{ℕ, zero, suc}
use mathlib.Core.Path.{◌≡◌, refl}
use mathlib.Core.Logic.{◌≢◌}
use mathlib.Core.Bool.{Bool, true, false, ◌||◌}
use mathlib.Core.Option.{Option, none, some}
use mathlib.Core.List.{List, [], ◌∷◌, ◌++◌}
use native.Mathlib.Omega.{arith}
use atlanticwave_proto.Prelude.Tests.{if◌then◌else◌}
use atlanticwave_proto.Prelude.Equality.{Eq, ◌==◌}

-- A predicate of every item.
abbrev pub All {ℓ κ} : {A : Type ℓ} → (A → Type κ) → List A → Type κ
All P [] = Unit
All P (x ∷ xs) = P x × All P xs

pub All-map {ℓ κ μ} :
    {A : Type ℓ} {P : A → Type κ} {Q : A → Type μ} (f : (x : A) → P x → Q x) (xs : List A)
    → All P xs
    → All Q xs
All-map f [] h = tt
All-map f (x ∷ xs) h = (f x h.0, All-map f xs h.1)

abbrev pub replicate {ℓ} : {A : Type ℓ} → ℕ → A → List A
replicate zero a = []
replicate (suc n) a = a ∷ replicate n a

abbrev pub cons_some {ℓ} : {A : Type ℓ} → A → Option (List A) → Option (List A)
cons_some x none = none
cons_some x (some xs) = some (x ∷ xs)

-- The neighbouring pairs of a list, `zip(xs[0:-1], xs[1:])`.
abbrev pub pairs_from {ℓ} : {A : Type ℓ} → A → List A → List (A × A)
pairs_from x [] = []
pairs_from x (y ∷ ys) = (x, y) ∷ pairs_from y ys

abbrev pub pairs {ℓ} : {A : Type ℓ} → List A → List (A × A)
pairs [] = []
pairs (x ∷ xs) = pairs_from x xs

module _ {ℓ} {A : Type ℓ} ⦃e : Eq A⦄ where
  -- `a in xs`
  abbrev pub contains : List A → A → Bool
  contains [] a = false
  contains (x ∷ xs) a = a == x || contains xs a

  -- `xs.remove(a)`: the first occurrence goes; `none` is a `ValueError`.
  abbrev pub remove : List A → A → Option (List A)
  remove [] a = none
  remove (x ∷ xs) a = if a == x then some xs else cons_some x (remove xs a)

  pub contains-append :
      (xs ys : List A) (a : A) → contains (xs ++ ys) a ≡ (contains xs a || contains ys a)
  contains-append [] ys a = ground arith
  contains-append (x ∷ xs) ys a = ground (arith, contains-append xs ys a)

  pub contains-replicate_self : (k : ℕ) (a : A) → k ≢ 0 → contains (replicate k a) a ≡ true
  contains-replicate_self zero a h = absurd (h refl)
  contains-replicate_self (suc k) a h = ground (arith, e.equals_iff a a)

  pub contains-replicate_ne : (k : ℕ) (a b : A) → b ≢ a → contains (replicate k a) b ≡ false
  contains-replicate_ne zero a b h = refl
  contains-replicate_ne (suc k) a b h =
      ground (arith, e.equals_iff b a, contains-replicate_ne k a b h)

  -- What follows a list without it is what `remove` takes away.
  pub remove-append_new :
      (xs ys : List A) (a : A) → contains xs a ≡ false → remove (xs ++ a ∷ ys) a ≡ some (xs ++ ys)
  remove-append_new [] ys a h = ground (arith, e.equals_iff a a)
  remove-append_new (x ∷ xs) ys a h = ground (arith, remove-append_new xs ys a)

  pub remove-ne-none : (xs : List A) (a : A) → contains xs a ≡ true → remove xs a ≢ none
  remove-ne-none [] a h = λ _. cc
  remove-ne-none (x ∷ xs) a h = ground (arith, remove-ne-none xs a)

module _ {ℓ κ} {K : Type ℓ} {V : Type κ} ⦃e : Eq K⦄ where
  -- `d[k]` on an association list; `none` is a `KeyError`.
  abbrev pub lookup : K → List (K × V) → Option V
  lookup k [] = none
  lookup k ((j, v) ∷ d) = if k == j then some v else lookup k d

  -- `d[k] = v`
  abbrev pub insert : K → V → List (K × V) → List (K × V)
  insert k v [] = (k, v) ∷ []
  insert k v ((j, w) ∷ d) = if k == j then (k, v) ∷ d else (j, w) ∷ insert k v d

  pub lookup-insert :
      (j k : K) (v : V) (d : List (K × V))
      → lookup j (insert k v d) ≡ (if j == k then some v else lookup j d)
  lookup-insert j k v [] = refl
  lookup-insert j k v ((i, w) ∷ d) =
      ground (arith, e.equals_iff j k, e.equals_iff k i, e.equals_iff j i, lookup-insert j k v d)
