-- ===== src/Connection/Local.antt =====
-- `transition_to_main_phase_LC` of shared/SDXControllerConnectionManagerConnection.py: what the local
-- controller does between two blocking receives. Every message it sends is sent.
use atlanticwave_proto.Prelude.{
  ◌-◌, String, Option, none, some, List, [], ◌∷◌, ◌++◌, Bool, true, false, ◌==◌, text_equality,
  if◌then◌else◌, ltb,
}
use atlanticwave_proto.Prelude.Lists.{lookup}
use atlanticwave_proto.Prelude.Action.{
  Exception, key_error, type_error, sdx_controller_connection_type_error,
  sdx_controller_connection_value_error,
}
use atlanticwave_proto.Connection.{
  MessageClass, Value, missing, number, text, sdx_message_hello, sdx_message_heartbeat_request,
  sdx_message_heartbeat_response, sdx_message_capabilities_request,
  sdx_message_capabilities_response, sdx_message_initial_rule_count,
  sdx_message_initial_rule_request, sdx_message_initial_rules_complete, sdx_message_install_rule,
  sdx_message_transition_to_main_phase,
}
use atlanticwave_proto.Connection.Message.{SdxMessage, Fields}

-- `isinstance(msg, cls)`; the classes have different names.
abbrev pub is_instance : {L : Type 0} → SdxMessage L → MessageClass → Bool
is_instance m cls = m.of_class.name == cls.name

abbrev pub message : {L : Type 0} → MessageClass → Option (Fields L) → SdxMessage L
message cls fields = record { of_class = cls; fields = fields }

-- Where the method waits: for which message, or with how many rules to go. At `lc_completing` it has
-- sent the message that the rules are complete, and has not called back yet.
pub data LcPoint (L : Type 0) : Type 0 where
  lc_idle lc_await_request lc_await_count lc_completing lc_await_transition lc_main : LcPoint L
  lc_await_rule : Value L → LcPoint L
  lc_raised : Exception → LcPoint L

-- The connection object of the local controller. `installed` has the messages that
-- `install_rule_callback` got, and `completed` says that `initial_rules_complete_callback` was called.
pub record LcSide (L : Type 0) : Type 0 where
  pub lc_point : LcPoint L
  pub lc_state : String
  pub lc_name : Option String
  pub installed : List (SdxMessage L)
  pub completed : Bool

-- `rule_count_left > 0`, where None is below and a text above every number
abbrev pub is_positive : {L : Type 0} → Value L → Bool
is_positive (number k) = ltb 0 k
is_positive missing = false
is_positive _ = true

abbrev pub Answer : Type 0 → Type 0
Answer L = LcSide L × List (SdxMessage L)

module _ {L : Type 0} where
  abbrev pub lc_raise : Exception → LcSide L → Answer L
  lc_raise x side = (record side { lc_point = lc_raised x }, [])

  unfoldable pub lc_begin : String → LcSide L → Answer L
  lc_begin name side = (
    record side { lc_point = lc_await_request; lc_state = "CAPABILITIES"; lc_name = some name },
    message sdx_message_hello (some (("name", text name) ∷ [])) ∷ [],
  )

  -- the test of the loop over the initial rules, and what follows it
  unfoldable pub lc_loop : Value L → LcSide L → Answer L
  lc_loop rule_count_left side =
      if is_positive rule_count_left
      then (
        record side { lc_point = lc_await_rule rule_count_left },
        message sdx_message_initial_rule_request (some (("rules_to_go", rule_count_left) ∷ []))
            ∷ [],
      )
      else (
        record side { lc_point = lc_completing },
        message sdx_message_initial_rules_complete none ∷ [],
      )

  -- What follows the send: the call of `initial_rules_complete_callback`, which does not raise, where
  -- one was given. The method runs once for a connection.
  unfoldable pub lc_complete : Bool → LcSide L → Answer L
  lc_complete has_callback side = (
    record side {
      lc_point = lc_await_transition;
      lc_state = "INITIAL_RULES_COMPLETE";
      completed = has_callback;
    },
    [],
  )

  unfoldable pub lc_on_request : SdxMessage L → LcSide L → Answer L
  lc_on_request reqcap side =
      if is_instance reqcap sdx_message_capabilities_request
      then (
        record side { lc_point = lc_await_count; lc_state = "INITIAL_RULES" },
        message sdx_message_capabilities_response (some (("capabilities", missing) ∷ [])) ∷ [],
      )
      else lc_raise sdx_controller_connection_type_error side

  -- `irc.get_data()['initial_rule_count']`
  abbrev pub lc_count : Option (Fields L) → LcSide L → Answer L
  lc_count none side = lc_raise type_error side
  lc_count (some fields) side = elim (lookup "initial_rule_count" fields) [
    | none ↦ lc_raise key_error side
    | some v ↦ lc_loop v side
  ]

  unfoldable pub lc_on_count : SdxMessage L → LcSide L → Answer L
  lc_on_count irc side =
      let answer = lc_count irc.fields side in
      if is_instance irc sdx_message_initial_rule_count
      then answer
      else lc_raise sdx_controller_connection_type_error side

  -- `rule_count_left -= 1`, and back to the test
  abbrev pub lc_decrement : Value L → LcSide L → Answer L
  lc_decrement (number k) side = lc_loop (number (k - 1)) side
  lc_decrement _ side = lc_raise type_error side

  unfoldable pub lc_on_rule : Value L → SdxMessage L → LcSide L → Answer L
  lc_on_rule rule_count_left msg side =
      let answer =
        lc_decrement rule_count_left (record side { installed = side.installed ++ msg ∷ [] }) in
      if is_instance msg sdx_message_install_rule
      then answer
      else lc_raise sdx_controller_connection_type_error side

  unfoldable pub lc_on_transition : SdxMessage L → LcSide L → Answer L
  lc_on_transition tmp side =
      if is_instance tmp sdx_message_transition_to_main_phase
      then (record side { lc_point = lc_main; lc_state = "MAIN_PHASE" }, [])
      else lc_raise sdx_controller_connection_type_error side

  -- what the method does with a message, by where it waits
  unfoldable pub lc_handle : LcPoint L → SdxMessage L → LcSide L → Answer L
  lc_handle lc_await_request m side = lc_on_request m side
  lc_handle lc_await_count m side = lc_on_count m side
  lc_handle (lc_await_rule k) m side = lc_on_rule k m side
  lc_handle lc_await_transition m side = lc_on_transition m side
  lc_handle _ m side = (side, [])

  -- `recv_protocol` answers a heartbeat request itself and returns None, which is no instance of the
  -- class that is waited for; a heartbeat response without a request raises.
  unfoldable pub lc_receive : SdxMessage L → LcSide L → Answer L
  lc_receive m side =
      let answer = lc_handle side.lc_point m side in
      if is_instance m sdx_message_heartbeat_request
      then (
        (lc_raise sdx_controller_connection_type_error side).0,
        message sdx_message_heartbeat_response none ∷ [],
      )
      else (if is_instance m sdx_message_heartbeat_response
          then lc_raise sdx_controller_connection_value_error side
          else answer)
