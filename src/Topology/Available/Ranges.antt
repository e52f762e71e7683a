-- ===== src/Topology/Available/Ranges.antt =====
-- `_parse_available_vlans` (sdxctlr/TopologyManager.py) lists exactly the VLANs of the ranges.
use atlanticwave_proto.Prelude.{
  ℕ, zero, suc, String, none, some, List, [], ◌∷◌, ◌++◌, arith, ◌≡◌, ◌∙◌, ap, sym, Bool, true,
  false, not, ◌&&◌, ◌||◌, ◌==◌, Option-cases, Bool-cases, inl, inr,
}
use atlanticwave_proto.Prelude.Lists.{contains, contains-append}
use atlanticwave_proto.Prelude.Int.{
  ℤ, pos, pos_part, ◌+ℤ◌, ◌-ℤ◌, ltb_ℤ, int_eq, eqb_ℤ_iff, +ℤ_parts, -ℤ_parts,
}
use atlanticwave_proto.Prelude.Text.{codes, split, int}
use atlanticwave_proto.Prelude.Action.{Result-cases, ok}
use atlanticwave_proto.Topology.Available.{
  is_vlan, range_from, range, single, between, parse_parts, parse_ranges, available_vlans_of,
}

-- `low ≤ v ≤ high`
abbrev pub within : ℤ → ℤ → ℤ → Bool
within low high v = not (ltb_ℤ v low) && not (ltb_ℤ high v)

-- The VLAN is the number of a range, or lies between its two numbers.
abbrev pub covers : List (List ℕ) → ℤ → Bool
covers (p ∷ []) v = elim (int p) [ none ↦ false | some n ↦ v == n ]
covers (p ∷ q ∷ []) v = elim (int p) [
  | none ↦ false
  | some low ↦ elim (int q) [ none ↦ false | some high ↦ within low high v ]
]
covers _ v = false

abbrev pub covered : List (List ℕ) → ℤ → Bool
covered [] v = false
covered (r ∷ ranges) v = covers (split b'-' r) v || covered ranges v

pub contains-range_from :
    (k : ℕ) (low v : ℤ)
    → contains (range_from k low) v ≡ (not (ltb_ℤ v low) && ltb_ℤ v (low +ℤ pos k))
unfolding range_from
contains-range_from zero low v = ground (arith, +ℤ_parts low (pos 0))
contains-range_from (suc k) low v = ground (
  arith,
  contains-range_from k (low +ℤ pos 1) v,
  +ℤ_parts low (pos 1),
  +ℤ_parts (low +ℤ pos 1) (pos k),
  +ℤ_parts low (pos (suc k)),
  eqb_ℤ_iff v low,
)

single-within :
    (n v : ℤ) (l : List ℤ)
    → single n ≡ ok l
    → (contains l v ≡ (v == n)) × (contains l v ≡ true → is_vlan v ≡ true)
single-within n v l h = (ground arith, λ m. ground (arith, eqb_ℤ_iff v n))

contains-range :
    (low high v : ℤ)
    → ltb_ℤ high low ≡ false
    → contains (range low (high +ℤ pos 1)) v ≡ within low high v
contains-range low high v ordered =
    let k = pos_part (high +ℤ pos 1 -ℤ low) in
    contains-range_from k low v
    ∙ ground (arith, +ℤ_parts high (pos 1), -ℤ_parts (high +ℤ pos 1) low, +ℤ_parts low (pos k))

between-ok :
    (low high : ℤ) (l : List ℤ)
    → between low high ≡ ok l
    → (l ≡ range low (high +ℤ pos 1))
      × (ltb_ℤ high low ≡ false)
      × (is_vlan low ≡ true)
      × (is_vlan high ≡ true)
between-ok low high l h = ground arith

within-is_vlan :
    (low high v : ℤ)
    → is_vlan low ≡ true
    → is_vlan high ≡ true
    → within low high v ≡ true
    → is_vlan v ≡ true
within-is_vlan low high v hl hh hv = ground arith

between-within :
    (low high v : ℤ) (l : List ℤ)
    → between low high ≡ ok l
    → (contains l v ≡ within low high v) × (contains l v ≡ true → is_vlan v ≡ true)
between-within low high v l h =
    let (same, ordered, hl, hh) = between-ok low high l h in
    let inside = ap (λ l. contains l v) same ∙ contains-range low high v ordered in
    (inside, λ m. within-is_vlan low high v hl hh (sym inside ∙ m))

parse_parts-covers :
    (parts : List (List ℕ)) (v : ℤ) (l : List ℤ)
    → parse_parts parts ≡ ok l
    → (contains l v ≡ covers parts v) × (contains l v ≡ true → is_vlan v ≡ true)
parse_parts-covers [] v l h = (ground arith, λ m. absurd (ground arith))
parse_parts-covers (p ∷ []) v l h = elim (Option-cases (int p)) [
  | inl bad ↦ absurd (ground arith)
  | inr (n, good) ↦
      let made : single n ≡ ok l = ground arith in rw (good, covers) (single-within n v l made)
]
parse_parts-covers (p ∷ q ∷ []) v l h = elim (Option-cases (int p)) [
  | inl bad ↦ absurd (ground arith)
  | inr (low, good) ↦ elim (Option-cases (int q)) [
    | inl bad ↦ absurd (ground arith)
    | inr (high, fine) ↦
        let made : between low high ≡ ok l = ground arith in
        rw (good, fine, covers) (between-within low high v l made)
  ]
]
parse_parts-covers (p ∷ q ∷ r ∷ parts) v l h = (ground arith, λ m. absurd (ground arith))

parse_ranges-covered :
    (ranges : List (List ℕ)) (acc l : List ℤ) (v : ℤ)
    → parse_ranges ranges acc ≡ ok l
    → (contains acc v ≡ true → is_vlan v ≡ true)
    → (contains l v ≡ (contains acc v || covered ranges v))
      × (contains l v ≡ true → is_vlan v ≡ true)
unfolding parse_ranges
parse_ranges-covered [] acc l v h a = (ground arith, λ m. ground arith)
parse_ranges-covered (r ∷ ranges) acc l v h a = elim (Result-cases (parse_parts (split b'-' r))) [
  | inr (x, bad) ↦ absurd (ground arith)
  | inl (vlans, good) ↦
      let (inside, bound) = parse_parts-covers (split b'-' r) v vlans good in
      let more = contains-append acc vlans v in
      let (all, ends) =
        parse_ranges-covered ranges (acc ++ vlans) l v (ground arith) (λ m. ground arith) in
      (all ∙ rw (more, inside) (ground arith), ends)
]

-- A list that `_parse_available_vlans` accepts holds exactly the VLANs that some range of the text
-- covers, and these lie between 0 and 4095.
pub available_vlans_of-covered :
    (vlan_str : String) (l : List ℤ) (v : ℤ)
    → available_vlans_of vlan_str ≡ ok l
    → contains l v ≡ (covered (split b',' (codes vlan_str)) v && within (pos 0) (pos 4095) v)
unfolding available_vlans_of
available_vlans_of-covered vlan_str l v h =
    let (all, bound) = parse_ranges-covered (split b',' (codes vlan_str)) [] l v h (λ m. cc) in
    elim (Bool-cases (contains l v)) [
      | inl there ↦ let fits = bound there in ground arith
      | inr not_there ↦ ground arith
    ]
