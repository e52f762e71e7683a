-- ===== src/Prelude/Text.antt =====
-- Python's `int(text)` and `text.split(c)`, on the character codes of a text.
use Prim.Native.Char.{code}
use Prim.Native.String.{String}
use Prim.Native.Nat.{ℕ, ◌+◌, ◌-◌, ◌*◌}
use mathlib.Core.Path.{◌≡◌, refl}
use mathlib.Core.Bool.{Bool, true, ◌&&◌, ◌||◌}
use mathlib.Core.Option.{Option, none, some}
use mathlib.Core.List.{List, [], ◌∷◌, reverse}
use atlanticwave_proto.Prelude.Tests.{leb, eqb, if◌then◌else◌}
use atlanticwave_proto.Prelude.Int.{ℤ, pos, negsuc, ◌-ℤ◌}

abbrev pub codes : String → List ℕ
codes String.[] = []
codes (String.◌∷◌ c s) = code c ∷ codes s

-- Has the text ASCII characters only?
abbrev pub is_ascii : String → Bool
is_ascii String.[] = true
is_ascii (String.◌∷◌ c s) = leb (code c) 127 && is_ascii s

cons_first : ℕ → List (List ℕ) → List (List ℕ)
cons_first c [] = (c ∷ []) ∷ []
cons_first c (part ∷ parts) = (c ∷ part) ∷ parts

-- `text.split(c)`, which has at least one part
unfoldable pub split : ℕ → List ℕ → List (List ℕ)
unfolding cons_first
split sep [] = [] ∷ []
split sep (c ∷ cs) = let rest = split sep cs in if eqb c sep then [] ∷ rest else cons_first c rest

is_space : ℕ → Bool
is_space c = eqb c 32 || (leb 9 c && leb c 13)

drop_spaces : List ℕ → List ℕ
unfolding is_space
drop_spaces [] = []
drop_spaces (c ∷ cs) = let rest = drop_spaces cs in if is_space c then rest else c ∷ cs

-- decimal digits, most significant first
digits_from : ℕ → List ℕ → Option ℕ
digits_from acc [] = some acc
digits_from acc (c ∷ cs) =
    let rest = digits_from (acc * 10 + (c - 48)) cs in if leb 48 c && leb c 57 then rest else none

digits : List ℕ → Option ℕ
unfolding digits_from
digits [] = none
digits cs = digits_from 0 cs

negate : Option ℕ → Option ℤ
negate none = none
negate (some n) = some (pos 0 -ℤ pos n)

signed : List ℕ → Option ℤ
unfolding digits negate ◌-ℤ◌
signed [] = none
signed (c ∷ cs) =
    if eqb c b'-'
    then negate (digits cs)
    else if eqb c b'+'
    then to_int (digits cs)
    else to_int (digits (c ∷ cs))
  where
    to_int : Option ℕ → Option ℤ
    to_int none = none
    to_int (some n) = some (pos n)

-- `int(text)`: spaces around a signed decimal number; `none` is a `ValueError`
unfoldable pub int : List ℕ → Option ℤ
unfolding drop_spaces signed
int cs = signed (reverse (drop_spaces (reverse (drop_spaces cs))))

int_test : int (codes " -12") ≡ some (negsuc 11)
unfolding int
int_test = refl

split_test : split b',' (codes "1,2-3,") ≡ codes "1" ∷ codes "2-3" ∷ [] ∷ []
unfolding split
split_test = refl
