-- ===== src/Connection/RoundTrip.antt =====
-- A message that is sent as JSON is read back: shared/SDXControllerConnectionManagerConnection.py.
use atlanticwave_proto.Prelude.{
  String, Option, none, some, List, [], ◌∷◌, ◌≡◌, ◌≢◌, refl, sym, ap, ◌∙◌, subst, true, ◌==◌,
  text_equality, Option-cases, inl, inr, arith, Bool-cases,
}
use atlanticwave_proto.Prelude.Lists.{lookup, All}
use atlanticwave_proto.Prelude.Action.{ok}
use atlanticwave_proto.Connection.{MessageClass, sdx_message_name_to_class}
use atlanticwave_proto.Connection.Message.{
  class_of, SdxMessage, Fields, stages_known, check_fields, or_none, get_json, parse_json,
  new_from_json, message_of,
}

-- The table has the class under its own name, and the class knows its stages.
abbrev IsKnown : String × MessageClass → Type 0
IsKnown e = (e.1.name ≡ e.0) × (stages_known e.1.validity ≡ true)

pair_eq {ℓ} :
    {V : Type ℓ} (name j : String) (w v : V)
    → name ≡ j
    → w ≡ v
    → ◌≡◌ {A = String × V} (j, w) (name, v)
pair_eq name j w v e f = rw (e, f) refl

lookup-All {ℓ κ} :
    {V : Type ℓ} (P : String × V → Type κ) (name : String) (d : List (String × V)) (v : V)
    → All P d
    → lookup name d ≡ some v
    → P (name, v)
lookup-All P name [] v h e = cc
lookup-All P name ((j, w) ∷ d) v h e = elim (Bool-cases (name == j)) [
  | inl same ↦
      subst P (pair_eq name j w v ((text_equality.equals_iff name j).0 same) (ground arith)) h.0
  | inr other ↦ lookup-All P name d v h.1 (ground arith)
]

All-IsKnown : All IsKnown sdx_message_name_to_class
All-IsKnown = ground arith

class_of-IsKnown : (name : String) (c : MessageClass) → class_of name ≡ some c → IsKnown (name, c)
unfolding class_of
class_of-IsKnown name c h = lookup-All IsKnown name sdx_message_name_to_class c All-IsKnown h

module _ {L : Type 0} where
  -- A message of a class in the table, with keys that its class knows; no data is `None`, not `{}`.
  abbrev pub IsMessage : SdxMessage L → Type 0
  IsMessage m =
      (class_of m.of_class.name ≡ some m.of_class)
      × (check_fields m.of_class.data_json_name m.fields ≡ ok tt)
      × (m.fields ≢ some [])

  or_none_same : (fields : Option (Fields L)) → fields ≢ some [] → or_none fields ≡ fields
  or_none_same none h = refl
  or_none_same (some []) h = absurd (h refl)
  or_none_same (some (x ∷ xs)) h = refl

  -- A message whose class is in the table, with keys that the class knows and data that is not
  -- empty, is read back from its JSON.
  pub message_of-get_json : (m : SdxMessage L) → IsMessage m → message_of (get_json m) ≡ ok m
  unfolding message_of get_json new_from_json parse_json
  message_of-get_json m (known, keys, full) = ground (
    arith,
    class_of-IsKnown m.of_class.name m.of_class known,
    text_equality.equals_iff m.of_class.name m.of_class.name,
    or_none_same m.fields full,
  )

  or_none_full : (fields : Option (Fields L)) → or_none fields ≢ some []
  or_none_full none = λ e. cc
  or_none_full (some []) = λ e. cc
  or_none_full (some (x ∷ xs)) = λ e. cc

  check_fields-or_none :
      (names : Option (List String)) (fields : Option (Fields L))
      → check_fields names fields ≡ ok tt
      → check_fields names (or_none fields) ≡ ok tt
  check_fields-or_none names none h = h
  check_fields-or_none names (some []) h = refl
  check_fields-or_none names (some (x ∷ xs)) h = h

  read_shape :
      (name : String) (fields : Option (Fields L)) (m : SdxMessage L) (c : MessageClass)
      → class_of name ≡ some c
      → message_of ((name, fields) ∷ []) ≡ ok m
      → (check_fields c.data_json_name fields ≡ ok tt)
        × (m ≡ record { of_class = c; fields = or_none fields })
  unfolding message_of new_from_json parse_json
  read_shape name fields m c e h =
      ground (arith, class_of-IsKnown name c e, text_equality.equals_iff name name)

  -- What is read is a message, of the class under the received name, and its JSON is what was
  -- received but for empty data, which becomes none.
  pub message_of-IsMessage :
      (name : String) (fields : Option (Fields L)) (m : SdxMessage L)
      → message_of ((name, fields) ∷ []) ≡ ok m
      → IsMessage m × (get_json m ≡ (name, or_none fields) ∷ [])
  unfolding message_of get_json new_from_json parse_json
  message_of-IsMessage name fields m h = elim (Option-cases (class_of name)) [
    | inl e ↦ ground arith
    | inr (c, e) ↦
        let (keys, shape) = read_shape name fields m c e h in
        let same = (class_of-IsKnown name c e).0 in
        subst (λ (x : SdxMessage L). IsMessage x × (get_json x ≡ (name, or_none fields) ∷ []))
          (sym shape)
          (
            (
              ap class_of same ∙ e,
              check_fields-or_none c.data_json_name fields keys,
              or_none_full fields,
            ),
            ap (λ n. (n, or_none fields) ∷ []) same,
          )
  ]
