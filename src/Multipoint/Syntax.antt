-- ===== src/Multipoint/Syntax.antt =====
-- `check_syntax` and `_parse_json` of shared/L2MultipointPolicy.py.
use atlanticwave_proto.Prelude.{String, Option, none, List, [], ◌∷◌, text_equality, if◌then◌else◌}
use atlanticwave_proto.Prelude.Lists.{lookup}
use atlanticwave_proto.Prelude.Int.{ℤ, ltb_ℤ}
use atlanticwave_proto.Prelude.Action.{Result, ok, err, key_error, user_policy_value_error}
use atlanticwave_proto.Prelude.Outcome.{get_or, returns, ◌>>=◌}
use atlanticwave_proto.Topology.Graph.{NetworkX}
use atlanticwave_proto.Tunnel.{TunnelEnd}
use atlanticwave_proto.Tunnel.Syntax.{Fields, value_at, int_at, in_range, time_at, text_at, handled}
use atlanticwave_proto.Multipoint.{L2MultipointPolicy}

-- The dictionary of a rule: its texts and numbers, and the list of endpoints.
pub record MultipointFields : Type 0 where
  pub plain : Fields
  pub listed : Option (List Fields)

abbrev pub JsonRule : Type 0
JsonRule = List (String × MultipointFields)

-- `get_policy_name` of the class `L2MultipointPolicy`
abbrev pub policy_name : String
policy_name = "L2Multipoint"

module _ (strptime : String → Option ℤ) (str : ℤ → String) where
  -- the loop over the endpoints in `check_syntax`
  unfoldable pub check_ends : List Fields → Result (Unit {0})
  check_ends [] = ok tt
  check_ends (endpoint ∷ endpoints) = do
    let rest = check_ends endpoints
    switch ← value_at "switch" endpoint
    port ← int_at "port" endpoint
    vlan ← int_at "vlan" endpoint
    port_checked ← in_range 24 port
    vlan_checked ← in_range 4090 vlan
    rest

  -- the body of the `try` block, for the dictionary of the policy
  unfoldable pub checks : MultipointFields → Result (Unit {0})
  checks fields = do
    starttime ← time_at strptime str "starttime" fields.plain
    endtime ← time_at strptime str "endtime" fields.plain
    bandwidth ← int_at "bandwidth" fields.plain
    in_order ← (if ltb_ℤ endtime starttime then err user_policy_value_error else ok (tt {0}))
    endpoints ← get_or fields.listed key_error
    check_ends endpoints

  -- The handler raises a `NameError`, as that of shared/L2TunnelPolicy.py does.
  unfoldable pub check_syntax : JsonRule → Result (Unit {0})
  check_syntax json_rule =
      handled strptime str
        (do fields ← get_or (lookup policy_name json_rule) key_error; checks fields)

  -- the loop over the endpoints in `_parse_json`
  unfoldable pub parse_ends : List Fields → Result (List TunnelEnd)
  parse_ends [] = returns []
  parse_ends (endpoint ∷ endpoints) = do
    let rest = parse_ends endpoints
    switch ← text_at strptime str "switch" endpoint
    port ← int_at "port" endpoint
    vlan ← int_at "vlan" endpoint
    ends ← rest
    returns (record { switch = switch; port = port; vlan = vlan } ∷ ends)

  -- `_parse_json`, for a dictionary
  unfoldable pub parse_json : {N : NetworkX} → JsonRule → Result (L2MultipointPolicy N)
  parse_json json_rule = do
    fields ← get_or (lookup policy_name json_rule) user_policy_value_error
    start_time ← value_at "starttime" fields.plain
    stop_time ← value_at "endtime" fields.plain
    bandwidth ← int_at "bandwidth" fields.plain
    listed ← get_or fields.listed key_error
    endpoints ← parse_ends listed
    returns (record {
      start_time = start_time;
      stop_time = stop_time;
      endpoints = endpoints;
      bandwidth = bandwidth;
      intermediate_vlan = none;
      tree = none;
      external_endpoints = [];
      breakdown = none;
      resources = [];
    })
