-- ===== src/Prelude/Outcome.antt =====
-- Python code that reads and may raise, but writes nothing: its result alone.
use mathlib.Core.Path.{◌≡◌, refl, ap}
use mathlib.Core.Option.{Option, none, some}
use native.Mathlib.Omega.{arith}
use atlanticwave_proto.Prelude.Action.{Result, Exception, ok, err}

infixl 5 ◌>>=◌
abbrev pub ◌>>=◌ : {A B : Type 0} → Result A → (A → Result B) → Result B
r >>= f = elim r [ ok a ↦ f a | err x ↦ err x ]

module _ {A : Type 0} where
  abbrev pub returns : A → Result A
  returns a = ok a

  -- `none` raises.
  abbrev pub get_or : Option A → Exception → Result A
  get_or none x = err x
  get_or (some a) x = ok a

  pub get_or_ok : (o : Option A) (x : Exception) (a : A) → get_or o x ≡ ok a → o ≡ some a
  get_or_ok none x a e = ground (arith, e)
  get_or_ok (some b) x a e = ground (arith, e)

pub ok-injective : {A : Type 0} (a b : A) → ok a ≡ ok b → a ≡ b
ok-injective a b e = cc

-- A chain that returns: its first part does, and the rest with it.
pub bind_returns :
    {A B : Type 0} (r : Result A) (f : A → Result B) (b : B)
    → (r >>= f) ≡ ok b
    → (a : A) × (r ≡ ok a) × (f a ≡ ok b)
bind_returns (ok a) f b e = (a, refl, e)
bind_returns (err x) f b e = ground (arith, e)

-- the rest of a chain whose first part returns
pub returns_bind :
    {A B : Type 0} (r : Result A) (f : A → Result B) (a : A) → r ≡ ok a → (r >>= f) ≡ f a
returns_bind (ok b) f a e = ap f (ok-injective b a e)
returns_bind (err x) f a e = ground (arith, e)
