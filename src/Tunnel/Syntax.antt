-- ===== src/Tunnel/Syntax.antt =====
-- `check_syntax` and `_parse_json` of shared/L2TunnelPolicy.py.
use atlanticwave_proto.Prelude.{
  ℕ, String, Option, none, List, [], ◌||◌, text_equality, if◌then◌else◌,
}
use atlanticwave_proto.Prelude.Lists.{lookup}
use atlanticwave_proto.Prelude.Text.{codes, int, is_ascii}
use atlanticwave_proto.Prelude.Int.{ℤ, pos, ltb_ℤ}
use atlanticwave_proto.Prelude.Action.{
  Result, ok, err, key_error, value_error, type_error, name_error, unicode_encode_error,
  user_policy_value_error,
}
use atlanticwave_proto.Prelude.Outcome.{get_or, returns, ◌>>=◌}
use atlanticwave_proto.Topology.Graph.{NetworkX}
use atlanticwave_proto.Tunnel.{Field, text, number, L2TunnelPolicy}

-- the dictionary of a rule
abbrev pub Fields : Type 0
Fields = List (String × Field)

-- `json_rule`: dictionaries under the names of policies
abbrev pub JsonRule : Type 0
JsonRule = List (String × Fields)

-- `get_policy_name` of the class `L2TunnelPolicy`
abbrev pub policy_name : String
policy_name = "L2Tunnel"

-- `json_rule[jsonstring][name]`
abbrev pub value_at : String → Fields → Result Field
value_at name fields = get_or (lookup name fields) key_error

-- `int(value)`
abbrev pub to_int : Field → Result ℤ
to_int (text t) = get_or (int (codes t)) value_error
to_int (number n) = ok n

-- `int(json_rule[jsonstring][name])`
unfoldable pub int_at : String → Fields → Result ℤ
int_at name fields = do v ← value_at name fields; to_int v

-- the check of a number against 0 and a limit
unfoldable pub in_range : ℕ → ℤ → Result (Unit {0})
in_range limit n =
    if ltb_ℤ n (pos 0) || ltb_ℤ (pos limit) n then err user_policy_value_error else ok tt

-- `datetime.strptime` with the format of shared/constants.py, in seconds, and `str` of a number
module _ (strptime : String → Option ℤ) (str : ℤ → String) where
  abbrev pub to_time : Field → Result ℤ
  to_time (text t) = get_or (strptime t) value_error
  to_time (number n) = err type_error

  abbrev pub time_at : String → Fields → Result ℤ
  time_at name fields = do v ← value_at name fields; to_time v

  -- `str(value)`. A text of a dictionary is a unicode text, as `json.loads` gives it, and `str` encodes
  -- it in ASCII.
  abbrev pub to_text : Field → Result String
  to_text (text t) = if is_ascii t then ok t else err unicode_encode_error
  to_text (number n) = ok (str n)

  -- `str(json_rule[jsonstring][name])`
  abbrev pub text_at : String → Fields → Result String
  text_at name fields = do v ← value_at name fields; to_text v

  -- the body of the `try` block, for the dictionary of the policy
  unfoldable pub checks : Fields → Result (Unit {0})
  checks fields = do
    starttime ← time_at "starttime" fields
    endtime ← time_at "endtime" fields
    src_switch ← value_at "srcswitch" fields
    dst_switch ← value_at "dstswitch" fields
    src_port ← int_at "srcport" fields
    dst_port ← int_at "dstport" fields
    src_vlan ← int_at "srcvlan" fields
    dst_vlan ← int_at "dstvlan" fields
    bandwidth ← int_at "bandwidth" fields
    in_order ← (if ltb_ℤ endtime starttime then err user_policy_value_error else ok (tt {0}))
    ports ← in_range 24 src_port
    dst_ports ← in_range 24 dst_port
    vlans ← in_range 4090 src_vlan
    in_range 4090 dst_vlan

  -- `sys` is not imported, so the handler of every exception raises a `NameError` of its own.
  abbrev pub handled : Result (Unit {0}) → Result (Unit {0})
  handled (ok _) = ok tt
  handled (err x) = err name_error

  unfoldable pub check_syntax : JsonRule → Result (Unit {0})
  check_syntax json_rule =
      handled (do fields ← get_or (lookup policy_name json_rule) key_error; checks fields)

  -- `_parse_json`, for a dictionary
  unfoldable pub parse_json : {N : NetworkX} → JsonRule → Result (L2TunnelPolicy N)
  parse_json json_rule = do
    fields ← get_or (lookup policy_name json_rule) user_policy_value_error
    start_time ← value_at "starttime" fields
    stop_time ← value_at "endtime" fields
    src_switch ← text_at "srcswitch" fields
    dst_switch ← text_at "dstswitch" fields
    src_port ← int_at "srcport" fields
    dst_port ← int_at "dstport" fields
    src_vlan ← int_at "srcvlan" fields
    dst_vlan ← int_at "dstvlan" fields
    bandwidth ← int_at "bandwidth" fields
    returns (record {
      start_time = start_time;
      stop_time = stop_time;
      src = record { switch = src_switch; port = src_port; vlan = src_vlan };
      dst = record { switch = dst_switch; port = dst_port; vlan = dst_vlan };
      bandwidth = bandwidth;
      intermediate_vlan = none;
      fullpath = none;
      endpoints = [];
      breakdown = none;
      resources = [];
    })
