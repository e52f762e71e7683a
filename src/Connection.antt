-- ===== src/Connection.antt =====
-- The connection of a local controller to the SDX controller:
-- shared/SDXControllerConnectionManagerConnection.py. This file has `SDXMessage`, its subclasses and
-- the table of their names.
pub mod Message
pub mod RoundTrip
pub mod Local
pub mod Sdx
pub mod Handshake
pub mod Phases
pub mod Runs
pub mod Outcome
mod Tests
use atlanticwave_proto.Prelude.{
  ℕ, String, Option, none, some, List, [], ◌∷◌, Bool, true, false, ◌==◌, text_equality,
  if◌then◌else◌,
}
use atlanticwave_proto.Prelude.Lists.{contains, lookup}
use atlanticwave_proto.Prelude.Action.{
  Result, ok, err, type_error, key_error, sdx_message_value_error,
}

-- `STATE_MACHINE_STAGES`
abbrev pub state_machine_stages : List String
state_machine_stages =
    "UNCONNECTED" ∷ "INITIALIZING" ∷ "CAPABILITIES" ∷ "INITIAL_RULES" ∷ "INITIAL_RULES_COMPLETE"
    ∷ "MAIN_PHASE" ∷ []

-- What a subclass of `SDXMessage` gives to its constructor: `name`, `data_json_name`, `validity`.
pub record MessageClass : Type 0 where
  pub name : String
  pub data_json_name : Option (List String)
  pub validity : List String

-- a value in a message; a rule has the type `L`
pub data Value (L : Type 0) : Type 0 where
  missing : Value L
  number : ℕ → Value L
  text : String → Value L
  rule : L → Value L

abbrev pub sdx_message_hello : MessageClass
sdx_message_hello = record {
  name = "HELLO";
  data_json_name = some ("name" ∷ []);
  validity = "INITIALIZING" ∷ [];
}

abbrev pub sdx_message_heartbeat_request : MessageClass
sdx_message_heartbeat_request = record {
  name = "HBREQ";
  data_json_name = none;
  validity = "MAIN_PHASE" ∷ [];
}

abbrev pub sdx_message_heartbeat_response : MessageClass
sdx_message_heartbeat_response = record {
  name = "HBRESP";
  data_json_name = none;
  validity = "MAIN_PHASE" ∷ [];
}

abbrev pub sdx_message_capabilities_request : MessageClass
sdx_message_capabilities_request = record {
  name = "CAPREQ";
  data_json_name = none;
  validity = "CAPABILITIES" ∷ [];
}

abbrev pub sdx_message_capabilities_response : MessageClass
sdx_message_capabilities_response = record {
  name = "CAPRESP";
  data_json_name = some ("capabilities" ∷ []);
  validity = "CAPABILITIES" ∷ [];
}

abbrev pub sdx_message_initial_rule_count : MessageClass
sdx_message_initial_rule_count = record {
  name = "INITRC";
  data_json_name = some ("initial_rule_count" ∷ []);
  validity = "INITIAL_RULES" ∷ [];
}

abbrev pub sdx_message_initial_rule_request : MessageClass
sdx_message_initial_rule_request = record {
  name = "INITRREQ";
  data_json_name = some ("rules_to_go" ∷ []);
  validity = "INITIAL_RULES" ∷ [];
}

abbrev pub sdx_message_initial_rules_complete : MessageClass
sdx_message_initial_rules_complete = record {
  name = "INITCOMP";
  data_json_name = none;
  validity = "INITIAL_RULES" ∷ [];
}

abbrev pub sdx_message_transition_to_main_phase : MessageClass
sdx_message_transition_to_main_phase = record {
  name = "TRANSMP";
  data_json_name = none;
  validity = "INITIAL_RULES_COMPLETE" ∷ [];
}

abbrev pub sdx_message_install_rule : MessageClass
sdx_message_install_rule = record {
  name = "INSTALL";
  data_json_name = some ("rule" ∷ "switch_id" ∷ []);
  validity = "INITIAL_RULES" ∷ "MAIN_PHASE" ∷ [];
}

abbrev pub sdx_message_install_rule_complete : MessageClass
sdx_message_install_rule_complete = record {
  name = "INSTCOMP";
  data_json_name = some ("cookie" ∷ []);
  validity = "MAIN_PHASE" ∷ [];
}

abbrev pub sdx_message_install_rule_failure : MessageClass
sdx_message_install_rule_failure = record {
  name = "INSTFAIL";
  data_json_name = some ("cookie" ∷ "failure_reason" ∷ []);
  validity = "MAIN_PHASE" ∷ [];
}

abbrev pub sdx_message_remove_rule : MessageClass
sdx_message_remove_rule = record {
  name = "REMOVE";
  data_json_name = some ("cookie" ∷ "switch_id" ∷ []);
  validity = "INITIAL_RULES" ∷ "MAIN_PHASE" ∷ [];
}

abbrev pub sdx_message_remove_rule_complete : MessageClass
sdx_message_remove_rule_complete = record {
  name = "RMCOMP";
  data_json_name = some ("cookie" ∷ []);
  validity = "MAIN_PHASE" ∷ [];
}

abbrev pub sdx_message_remove_rule_failure : MessageClass
sdx_message_remove_rule_failure = record {
  name = "RMFAIL";
  data_json_name = some ("cookie" ∷ "failure_reason" ∷ []);
  validity = "MAIN_PHASE" ∷ [];
}

abbrev pub sdx_message_unknown_source : MessageClass
sdx_message_unknown_source = record {
  name = "UNKNOWN";
  data_json_name = some ("mac_address" ∷ "port" ∷ "switch" ∷ []);
  validity = "MAIN_PHASE" ∷ [];
}

abbrev pub sdx_message_switch_change_callback : MessageClass
sdx_message_switch_change_callback = record {
  name = "CALLBACK";
  data_json_name = some ("cookie" ∷ "data" ∷ []);
  validity = "MAIN_PHASE" ∷ [];
}

-- `SDX_MESSAGE_NAME_TO_CLASS`
abbrev pub sdx_message_name_to_class : List (String × MessageClass)
sdx_message_name_to_class =
    ("HELLO", sdx_message_hello)
    ∷ ("HBREQ", sdx_message_heartbeat_request)
    ∷ ("HBRESP", sdx_message_heartbeat_response)
    ∷ ("CAPREQ", sdx_message_capabilities_request)
    ∷ ("CAPRESP", sdx_message_capabilities_response)
    ∷ ("INITRC", sdx_message_initial_rule_count)
    ∷ ("INITRREQ", sdx_message_initial_rule_request)
    ∷ ("INITCOMP", sdx_message_initial_rules_complete)
    ∷ ("TRANSMP", sdx_message_transition_to_main_phase)
    ∷ ("INSTALL", sdx_message_install_rule)
    ∷ ("INSTCOMP", sdx_message_install_rule_complete)
    ∷ ("INSTFAIL", sdx_message_install_rule_failure)
    ∷ ("REMOVE", sdx_message_remove_rule)
    ∷ ("RMCOMP", sdx_message_remove_rule_complete)
    ∷ ("RMFAIL", sdx_message_remove_rule_failure)
    ∷ ("UNKNOWN", sdx_message_unknown_source)
    ∷ ("CALLBACK", sdx_message_switch_change_callback)
    ∷ []
