-- ===== src/Prelude/Action.antt =====
-- A Python method: it reads and writes the state, and returns or raises. The state comes back after
-- a raise too, since what was written stays written.
use mathlib.Core.Path.{◌≡◌, refl}
use mathlib.Core.Logic.{◌⊎◌, inl, inr}
use mathlib.Core.Bool.{Bool}
use mathlib.Core.Option.{Option, none, some}
use native.Mathlib.Omega.{arith}
use atlanticwave_proto.Prelude.Tests.{if◌then◌else◌}

-- The exception classes that the modelled files raise, and Python's own.
pub data Exception : Type 0 where
  key_error value_error type_error index_error attribute_error name_error unicode_encode_error :
      Exception
  topology_manager_error topology_manager_type_error topology_manager_value_error : Exception
  rule_manager_error rule_manager_validation_error rule_manager_breakdown_error : Exception
  rule_manager_authorization_error : Exception
  lc_rule_manager_type_error lc_rule_manager_validation_error : Exception
  lc_rule_manager_deletion_error : Exception
  user_policy_error user_policy_value_error user_policy_type_error : Exception
  network_x_no_path network_x_error : Exception
  sdx_message_value_error sdx_message_connection_failure : Exception
  sdx_controller_connection_type_error sdx_controller_connection_value_error : Exception
  lc_rule_type_error lc_rule_value_error lc_field_type_error lc_field_value_error : Exception
  sdx_match_value_error sdx_action_value_error : Exception

pub data Result {ℓ} (A : Type ℓ) : Type ℓ where
  ok : A → Result A
  err : Exception → Result A

pub Result-cases {ℓ} :
    {A : Type ℓ} (r : Result A) → ((a : A) × (r ≡ ok a)) ⊎ ((x : Exception) × (r ≡ err x))
Result-cases (ok a) = inl (a, refl)
Result-cases (err x) = inr (x, refl)

abbrev pub Action : Type 0 → Type 0 → Type 0
Action S A = S → Result A × S

module _ {S A : Type 0} where
  abbrev pub pure : A → Action S A
  pure a s = (ok a, s)

  abbrev pub raise : Exception → Action S A
  raise x s = (err x, s)

  abbrev pub gets : (S → A) → Action S A
  gets f s = (ok (f s), s)

  -- `none` raises.
  abbrev pub or_raise : Option A → Exception → Action S A
  or_raise none x = raise x
  or_raise (some a) x = pure a

  abbrev pub lift : Result A → Action S A
  lift r s = (r, s)

infixl 5 ◌>>=◌ ◌>>◌
abbrev pub ◌>>=◌ : {S A B : Type 0} → Action S A → (A → Action S B) → Action S B
◌>>=◌ m f s = let (r, s') = m s in elim r [ ok a ↦ f a s' | err x ↦ (err x, s') ]

abbrev pub ◌>>◌ : {S A B : Type 0} → Action S A → Action S B → Action S B
m >> k = m >>= λ _. k

module _ {S : Type 0} where
  abbrev pub raise_if : Bool → Exception → Action S (Unit {0})
  raise_if c x s = (if c then err x else ok tt, s)

  abbrev pub modify : (S → S) → Action S (Unit {0})
  modify f s = (ok tt, f s)

-- A check that changes nothing, and then a change: the check raises and that is all, or the change
-- runs from the same state.
pub checked-cases :
    {S A : Type 0} (check : Action S (Unit {0})) (change : Action S A) (s : S)
    → (check s).1 ≡ s
    → ((x : Exception) × ((check s).0 ≡ err x) × ((check >> change) s ≡ (err x, s)))
      ⊎ (((check s).0 ≡ ok tt) × ((check >> change) s ≡ change s))
checked-cases check change s same = elim (Result-cases (check s).0) [
  | inr (x, raised) ↦ inl (x, raised, ground arith)
  | inl (u, passed) ↦ inr (passed, ground arith)
]

-- A method that returns: its first part does, and the rest from the state that it leaves.
pub action_returns :
    {S A B : Type 0} (m : Action S A) (f : A → Action S B) (s : S) (b : B) (s' : S)
    → (m >>= f) s ≡ (ok b, s')
    → (a : A) × ((m s).0 ≡ ok a) × (f a (m s).1 ≡ (ok b, s'))
action_returns m f s b s' e = elim (Result-cases (m s).0) [
  | inl (a, h) ↦ (a, h, ground (arith, e))
  | inr (x, h) ↦ ground (arith, e)
]
