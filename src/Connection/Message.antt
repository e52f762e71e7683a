-- ===== src/Connection/Message.antt =====
-- `SDXMessage` of shared/SDXControllerConnectionManagerConnection.py: building a message, its JSON
-- dictionary, and reading it back.
use atlanticwave_proto.Prelude.{
  String, Option, none, some, List, [], ◌∷◌, Bool, true, false, text_equality, if◌then◌else◌,
}
use atlanticwave_proto.Prelude.Lists.{contains, lookup}
use atlanticwave_proto.Prelude.Action.{
  Result, ok, err, type_error, key_error, sdx_message_value_error,
}
use atlanticwave_proto.Connection.{
  MessageClass, Value, state_machine_stages, sdx_message_name_to_class,
}

-- the dictionary with the data of a message
abbrev pub Fields : Type 0 → Type 0
Fields L = List (String × Value L)

-- An instance: `of_class` holds its name, its keys and its stages.
pub record SdxMessage (L : Type 0) : Type 0 where
  pub of_class : MessageClass
  pub fields : Option (Fields L)

-- `entry in STATE_MACHINE_STAGES` for every entry
abbrev pub stages_known : List String → Bool
stages_known [] = true
stages_known (stage ∷ validity) =
    if contains state_machine_stages stage then stages_known validity else false

-- The loop over the keys: `entry in None` is a `TypeError`.
abbrev pub check_keys : {L : Type 0} → Option (List String) → Fields L → Result (Unit {0})
check_keys names [] = ok tt
check_keys none (field ∷ fields) = err type_error
check_keys (some names) (field ∷ fields) =
    if contains names field.0 then check_keys (some names) fields else err sdx_message_value_error

-- `{}` is read as `None`.
abbrev pub or_none : {L : Type 0} → Option (Fields L) → Option (Fields L)
or_none (some []) = none
or_none fields = fields

-- the checks on `json_msg[self.name]`
abbrev pub check_fields :
    {L : Type 0} → Option (List String) → Option (Fields L) → Result (Unit {0})
check_fields names none = ok tt
check_fields names (some fields) = check_keys names fields

-- a JSON message: what is under each name
abbrev pub JsonMessage : Type 0 → Type 0
JsonMessage L = List (String × Option (Fields L))

-- `SDX_MESSAGE_NAME_TO_CLASS[msgtype]`
unfoldable pub class_of : String → Option MessageClass
class_of msgtype = lookup msgtype sdx_message_name_to_class

module _ {L : Type 0} where
  unfoldable pub get_json : SdxMessage L → JsonMessage L
  get_json m = (m.of_class.name, m.fields) ∷ []

  unfoldable pub parse_json : MessageClass → JsonMessage L → Result (SdxMessage L)
  parse_json of_class json_msg = elim (lookup of_class.name json_msg) [
    | none ↦ err sdx_message_value_error
    | some fields ↦ elim (check_fields of_class.data_json_name fields) [
      | err x ↦ err x
      | ok _ ↦ ok (record { of_class = of_class; fields = or_none fields })
    ]
  ]

  -- the constructor with data, and with JSON
  unfoldable pub new_message : MessageClass → Option (Fields L) → Result (SdxMessage L)
  new_message of_class fields =
      if stages_known of_class.validity
      then ok (record { of_class = of_class; fields = fields })
      else err sdx_message_value_error

  unfoldable pub new_from_json : MessageClass → JsonMessage L → Result (SdxMessage L)
  new_from_json of_class json_msg =
      let parsed = parse_json of_class json_msg in
      if stages_known of_class.validity then parsed else err sdx_message_value_error

  -- the part of `recv_protocol` that makes the message of a received dictionary
  unfoldable pub message_of : JsonMessage L → Result (SdxMessage L)
  message_of ((msgtype, fields) ∷ []) = elim (class_of msgtype) [
    | none ↦ err key_error
    | some of_class ↦ new_from_json of_class ((msgtype, fields) ∷ [])
  ]
  message_of _ = err sdx_message_value_error
