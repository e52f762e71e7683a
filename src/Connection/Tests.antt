-- ===== src/Connection/Tests.antt =====
-- Two rules for the local controller "site", and the theorems about the handshake at it.
use atlanticwave_proto.Prelude.{ℕ, some, List, [], ◌∷◌, ◌+◌, ◌*◌, ◌≤◌, ◌≡◌, refl, true, false}
use atlanticwave_proto.Prelude.Action.{ok}
use atlanticwave_proto.Connection.{
  Value, number, text, sdx_message_install_rule_complete, sdx_message_hello,
}
use atlanticwave_proto.Connection.Message.{
  SdxMessage, message_of, get_json, class_of, new_from_json, parse_json,
}
use atlanticwave_proto.Connection.RoundTrip.{IsMessage, message_of-get_json, message_of-IsMessage}
use atlanticwave_proto.Connection.Local.{
  message, lc_begin, lc_complete, lc_receive, lc_handle, lc_on_request, lc_on_count, lc_on_rule,
  lc_on_transition, lc_loop,
}
use atlanticwave_proto.Connection.Sdx.{
  length, sdx_begin, sdx_receive, sdx_handle, sdx_on_hello, sdx_on_capabilities, sdx_on_request,
}
use atlanticwave_proto.Connection.Handshake.{
  Net, Move, lc_starts, sdx_starts, lc_reads, sdx_reads, lc_completes, step, run, can_move, new_net,
}
use atlanticwave_proto.Connection.Outcome.{
  connected, IsInOrder, installs, run-connected, length-run, run-IsInOrder, run_complete,
}

abbrev initial_rules : Value ℕ → List ℕ
initial_rules name = 10 ∷ 20 ∷ []

abbrev switch_id : ℕ → ℕ
switch_id r = r + 1

-- the message that rule 7 is installed
abbrev complete_message : SdxMessage ℕ
complete_message = message sdx_message_install_rule_complete (some (("cookie", number 7) ∷ []))

message_of-get_json_example : message_of (get_json complete_message) ≡ ok complete_message
unfolding class_of
message_of-get_json_example = message_of-get_json complete_message (refl, refl, λ e. cc)

abbrev hello_message : SdxMessage ℕ
hello_message = message sdx_message_hello (some (("name", text "site") ∷ []))

message_of-IsMessage_example :
    IsMessage hello_message × (get_json hello_message ≡ ("HELLO", hello_message.fields) ∷ [])
unfolding message_of class_of new_from_json parse_json
message_of-IsMessage_example = message_of-IsMessage "HELLO" hello_message.fields hello_message refl

abbrev all_moves : List Move
all_moves =
    sdx_starts ∷ lc_starts ∷ sdx_reads ∷ lc_reads ∷ sdx_reads ∷ lc_reads ∷ sdx_reads ∷ lc_reads
    ∷ sdx_reads ∷ lc_reads ∷ sdx_reads ∷ lc_completes ∷ lc_reads ∷ []

abbrev site_connected : Net ℕ
site_connected = connected initial_rules switch_id "site" true

site_connects : run initial_rules switch_id "site" true all_moves (new_net ℕ) ≡ some site_connected
unfolding run step lc_begin lc_complete lc_receive lc_handle lc_on_request lc_on_count lc_on_rule
    lc_on_transition lc_loop sdx_begin sdx_receive sdx_handle sdx_on_hello sdx_on_capabilities
    sdx_on_request
site_connects = refl

site_rests : can_move initial_rules switch_id "site" true site_connected ≡ false
unfolding can_move step
site_rests = refl

run-connected_example :
    site_connected ≡ connected initial_rules switch_id "site" true
    × length all_moves ≡ 2 * length (initial_rules (text "site")) + 9
run-connected_example =
    run-connected initial_rules switch_id "site" true all_moves site_connected site_connects
      site_rests

length-run_example : length all_moves ≤ 2 * length (initial_rules (text "site")) + 9
length-run_example =
    length-run initial_rules switch_id "site" true all_moves site_connected site_connects

run-IsInOrder_example : IsInOrder initial_rules switch_id "site" true site_connected
run-IsInOrder_example =
    run-IsInOrder initial_rules switch_id "site" true all_moves site_connected site_connects

run_complete_example :
    site_connected.lc.installed
      ≡ installs initial_rules switch_id "site" true (initial_rules (text "site"))
    × site_connected.lc.completed ≡ true
run_complete_example =
    run_complete initial_rules switch_id "site" true all_moves site_connected site_connects refl
