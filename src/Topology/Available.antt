-- ===== src/Topology/Available.antt =====
-- The VLANs that a manifest allows on a link, written as `1-20,100`: `_parse_available_vlans`,
-- `get_available_vlan_list` and `check_vlan_available` of sdxctlr/TopologyManager.py.
pub mod Ranges
pub mod Cache
use Prim.Native.Nat.{◌^◌}
use atlanticwave_proto.Prelude.{
  ℕ, zero, suc, ◌-◌, String, Option, none, some, List, [], ◌∷◌, ◌++◌, Bool, not, ◌&&◌, ◌||◌,
  if◌then◌else◌, ◌==◌, text_equality,
}
use atlanticwave_proto.Prelude.Lists.{lookup, insert, contains}
use atlanticwave_proto.Prelude.Int.{ℤ, pos, negsuc, pos_part, ◌+ℤ◌, ◌-ℤ◌, ltb_ℤ, int_eq}
use atlanticwave_proto.Prelude.Text.{codes, split, int}
use atlanticwave_proto.Prelude.Action.{
  Action, Result, ok, err, pure, gets, lift, modify, or_raise, key_error, value_error,
  topology_manager_type_error, topology_manager_value_error, ◌>>=◌, ◌>>◌,
}
use atlanticwave_proto.Topology.Graph.{NetworkX}
use atlanticwave_proto.Topology.Manager.{Manager}

-- `int(text)`, with its `ValueError`
abbrev pub parse_int : List ℕ → Result ℤ
parse_int cs = elim (int cs) [ none ↦ err value_error | some n ↦ ok n ]

-- `type(n) == int`: Python 2 makes a `long` of a number beyond the machine word.
abbrev pub is_int : ℤ → Bool
is_int n = not (ltb_ℤ n (negsuc (2 ^ 63 - 1))) && not (ltb_ℤ (pos (2 ^ 63 - 1)) n)

abbrev pub is_vlan : ℤ → Bool
is_vlan n = not (ltb_ℤ n (pos 0) || ltb_ℤ (pos 4095) n)

-- `k` numbers from `low`
unfoldable pub range_from : ℕ → ℤ → List ℤ
range_from zero low = []
range_from (suc k) low = low ∷ range_from k (low +ℤ pos 1)

-- `range(low, high)`
abbrev pub range : ℤ → ℤ → List ℤ
range low high = range_from (pos_part (high -ℤ low)) low

-- the checks on a single number
abbrev pub single : ℤ → Result (List ℤ)
single n =
    if not (is_int n)
    then err topology_manager_type_error
    else if not (is_vlan n)
    then err topology_manager_value_error
    else ok (n ∷ [])

-- the checks on `low-high`
abbrev pub between : ℤ → ℤ → Result (List ℤ)
between low high =
    if not (is_int low) || not (is_int high)
    then err topology_manager_type_error
    else if not (is_vlan low) || not (is_vlan high) || ltb_ℤ high low
    then err topology_manager_value_error
    else ok (range low (high +ℤ pos 1))

infixl 5 ◌then_do◌
abbrev pub ◌then_do◌ {ℓ κ} : {A : Type ℓ} {B : Type κ} → Result A → (A → Result B) → Result B
ok a then_do f = f a
err x then_do f = err x

-- One range, by the number of its parts; with three or more parts nothing is appended.
abbrev pub parse_parts : List (List ℕ) → Result (List ℤ)
parse_parts (p ∷ []) = parse_int p then_do single
parse_parts (p ∷ q ∷ []) = parse_int p then_do λ low. parse_int q then_do λ high. between low high
parse_parts _ = ok []

-- the loop over the ranges
unfoldable pub parse_ranges : List (List ℕ) → List ℤ → Result (List ℤ)
parse_ranges [] valid_vlans = ok valid_vlans
parse_ranges (r ∷ ranges) valid_vlans =
    parse_parts (split b'-' r) then_do λ vlans. parse_ranges ranges (valid_vlans ++ vlans)

-- what `_parse_available_vlans` computes, before it stores it
unfoldable pub available_vlans_of : String → Result (List ℤ)
available_vlans_of vlan_str = parse_ranges (split b',' (codes vlan_str)) []

module _ (N : NetworkX) where
  unfoldable pub parse_available_vlans : String → Action (Manager N) (Unit {0})
  parse_available_vlans vlan_str = do
    valid_vlans ← lift (available_vlans_of vlan_str)
    modify (λ m. record m { cached_vlans = insert vlan_str valid_vlans m.cached_vlans })

  unfoldable pub get_available_vlan_list : String → Action (Manager N) (List ℤ)
  get_available_vlan_list vlan_str = do
    cached ← gets (λ m. lookup vlan_str m.cached_vlans)
    elim cached [ none ↦ parse_available_vlans vlan_str | some vlans ↦ pure tt ]
    or_raise (← gets (λ m. lookup vlan_str m.cached_vlans)) key_error

  unfoldable pub check_vlan_available : String → ℤ → Action (Manager N) Bool
  check_vlan_available vlan_str vlan = do
    valid_vlans ← get_available_vlan_list vlan_str
    pure (contains valid_vlans vlan)
