-- ===== src/Connection/Sdx.antt =====
-- `transition_to_main_phase_SDX` of shared/SDXControllerConnectionManagerConnection.py: what the SDX
-- controller does between two blocking receives. Every message it sends is sent.
use atlanticwave_proto.Prelude.{
  ℕ, zero, suc, String, Option, none, some, List, [], ◌∷◌, text_equality, if◌then◌else◌,
}
use atlanticwave_proto.Prelude.Lists.{lookup}
use atlanticwave_proto.Prelude.Action.{
  Exception, key_error, type_error, index_error, sdx_controller_connection_type_error,
  sdx_controller_connection_value_error,
}
use atlanticwave_proto.Connection.{
  Value, number, rule, sdx_message_hello, sdx_message_heartbeat_request,
  sdx_message_heartbeat_response, sdx_message_capabilities_request,
  sdx_message_capabilities_response, sdx_message_initial_rule_count,
  sdx_message_initial_rule_request, sdx_message_initial_rules_complete, sdx_message_install_rule,
  sdx_message_transition_to_main_phase,
}
use atlanticwave_proto.Connection.Message.{SdxMessage, Fields}
use atlanticwave_proto.Connection.Local.{is_instance, message}

-- where the method waits, with the initial rules that are left
pub data SdxPoint (L : Type 0) : Type 0 where
  sdx_idle sdx_await_hello sdx_main : SdxPoint L
  sdx_await_capabilities sdx_await_request : List L → SdxPoint L
  sdx_raised : Exception → SdxPoint L

-- The connection object of the SDX controller; `sdx_name` is what `set_name_callback` got.
pub record SdxSide (L : Type 0) : Type 0 where
  pub sdx_point : SdxPoint L
  pub sdx_state : String
  pub sdx_name : Option (Value L)

abbrev pub length : {A : Type 0} → List A → ℕ
length [] = zero
length (x ∷ xs) = suc (length xs)

-- `get_initial_rule_callback` and `get_switch_id` of a rule
module _ {L : Type 0} (initial_rules : Value L → List L) (switch_id : L → ℕ) where
  abbrev pub SdxAnswer : Type 0
  SdxAnswer = SdxSide L × List (SdxMessage L)

  abbrev pub sdx_raise : Exception → SdxSide L → SdxAnswer
  sdx_raise x side = (record side { sdx_point = sdx_raised x }, [])

  unfoldable pub sdx_begin : SdxSide L → SdxAnswer
  sdx_begin side = (record side { sdx_point = sdx_await_hello; sdx_state = "INITIALIZING" }, [])

  -- after the name was read
  abbrev pub sdx_named : Value L → SdxSide L → SdxAnswer
  sdx_named name side = (
    record side {
      sdx_point = sdx_await_capabilities (initial_rules name);
      sdx_state = "CAPABILITIES";
      sdx_name = some name;
    },
    message sdx_message_capabilities_request none ∷ [],
  )

  -- `hello.get_data()['name']`
  abbrev pub sdx_hello : Option (Fields L) → SdxSide L → SdxAnswer
  sdx_hello none side = sdx_raise type_error side
  sdx_hello (some fields) side = elim (lookup "name" fields) [
    | none ↦ sdx_raise key_error side
    | some name ↦ sdx_named name side
  ]

  unfoldable pub sdx_on_hello : SdxMessage L → SdxSide L → SdxAnswer
  sdx_on_hello hello side =
      let answer = sdx_hello hello.fields side in
      if is_instance hello sdx_message_hello
      then answer
      else sdx_raise sdx_controller_connection_type_error side

  unfoldable pub sdx_on_capabilities : List L → SdxMessage L → SdxSide L → SdxAnswer
  sdx_on_capabilities rules respcap side =
      if is_instance respcap sdx_message_capabilities_response
      then (
        record side { sdx_point = sdx_await_request rules; sdx_state = "INITIAL_RULES" },
        message sdx_message_initial_rule_count
              (some (("initial_rule_count", number (length rules)) ∷ []))
            ∷ [],
      )
      else sdx_raise sdx_controller_connection_type_error side

  abbrev pub install_message : L → SdxMessage L
  install_message r =
      message sdx_message_install_rule
        (some (("rule", rule r) ∷ ("switch_id", number (switch_id r)) ∷ []))

  -- a rule is asked for: `initial_rules[0]`
  abbrev pub sdx_send_rule : List L → SdxSide L → SdxAnswer
  sdx_send_rule [] side = sdx_raise index_error side
  sdx_send_rule (r ∷ rules) side =
      (record side { sdx_point = sdx_await_request rules }, install_message r ∷ [])

  -- no more rules are asked for
  abbrev pub sdx_finish : List L → SdxSide L → SdxAnswer
  sdx_finish [] side = (
    record side { sdx_point = sdx_main; sdx_state = "MAIN_PHASE" },
    message sdx_message_transition_to_main_phase none ∷ [],
  )
  sdx_finish (r ∷ rules) side = sdx_raise sdx_controller_connection_value_error side

  unfoldable pub sdx_on_request : List L → SdxMessage L → SdxSide L → SdxAnswer
  sdx_on_request rules msg side =
      if is_instance msg sdx_message_initial_rule_request
      then sdx_send_rule rules side
      else (if is_instance msg sdx_message_initial_rules_complete
          then sdx_finish rules side
          else sdx_raise sdx_controller_connection_type_error side)

  -- what the method does with a message, by where it waits
  unfoldable pub sdx_handle : SdxPoint L → SdxMessage L → SdxSide L → SdxAnswer
  sdx_handle sdx_await_hello m side = sdx_on_hello m side
  sdx_handle (sdx_await_capabilities rules) m side = sdx_on_capabilities rules m side
  sdx_handle (sdx_await_request rules) m side = sdx_on_request rules m side
  sdx_handle _ m side = (side, [])

  -- with the heartbeats that `recv_protocol` handles itself
  unfoldable pub sdx_receive : SdxMessage L → SdxSide L → SdxAnswer
  sdx_receive m side =
      let answer = sdx_handle side.sdx_point m side in
      if is_instance m sdx_message_heartbeat_request
      then (
        (sdx_raise sdx_controller_connection_type_error side).0,
        message sdx_message_heartbeat_response none ∷ [],
      )
      else (if is_instance m sdx_message_heartbeat_response
          then sdx_raise sdx_controller_connection_value_error side
          else answer)
