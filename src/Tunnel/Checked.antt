-- ===== src/Tunnel/Checked.antt =====
-- What `check_syntax` of shared/L2TunnelPolicy.py lets through, `_parse_json` makes a policy of.
use atlanticwave_proto.Prelude.{
  ℕ, String, Option, none, some, [], Bool, true, ◌≡◌, refl, sym, ap, ◌∙◌, arith, text_equality,
  if◌then◌else◌,
}
use atlanticwave_proto.Prelude.Lists.{lookup}
use atlanticwave_proto.Prelude.Int.{ℤ, pos, ◌≤ℤ◌, ltb_ℤ}
use atlanticwave_proto.Prelude.Action.{Result, ok, err, key_error, user_policy_value_error}
use atlanticwave_proto.Prelude.Outcome.{get_or, get_or_ok, bind_returns, returns_bind}
use atlanticwave_proto.Topology.Graph.{NetworkX}
use atlanticwave_proto.Prelude.Text.{is_ascii}
use atlanticwave_proto.Tunnel.{Field, text, number, L2TunnelPolicy}
use atlanticwave_proto.Tunnel.Syntax.{
  Fields, JsonRule, policy_name, value_at, int_at, in_range, to_time, time_at, checks, text_at,
  to_text, check_syntax, handled, parse_json,
}

in_range-ok : (limit : ℕ) (n : ℤ) → in_range limit n ≡ ok tt → (pos 0 ≤ℤ n) × (n ≤ℤ pos limit)
unfolding in_range
in_range-ok limit n e = ground (arith, e)

module _ (strptime : String → Option ℤ) (str : ℤ → String) where
  -- Ports from 0 to 24, VLANs from 0 to 4090, and two times of which the first is not later.
  unfoldable pub IsBounded : {N : NetworkX} → L2TunnelPolicy N → Type 0
  IsBounded policy =
      (pos 0 ≤ℤ policy.src.port)
      × (policy.src.port ≤ℤ pos 24)
      × (pos 0 ≤ℤ policy.dst.port)
      × (policy.dst.port ≤ℤ pos 24)
      × (pos 0 ≤ℤ policy.src.vlan)
      × (policy.src.vlan ≤ℤ pos 4090)
      × (pos 0 ≤ℤ policy.dst.vlan)
      × (policy.dst.vlan ≤ℤ pos 4090)
      × ((start : ℤ) × (stop : ℤ) × (to_time strptime str policy.start_time ≡ ok start)
          × (to_time strptime str policy.stop_time ≡ ok stop)
          × (start ≤ℤ stop))

  handled-ok : (r : Result (Unit {0})) → handled strptime str r ≡ ok tt → r ≡ ok tt
  handled-ok (ok tt) e = refl
  handled-ok (err x) e = ground (arith, e)

  order_ok :
      (start stop : ℤ)
      → (if ltb_ℤ stop start then err user_policy_value_error else ok (tt {0})) ≡ ok tt
      → start ≤ℤ stop
  order_ok start stop e = ground (arith, e)

  -- A value has ASCII characters only; a number has.
  abbrev is_ascii_field : Option Field → Bool
  is_ascii_field none = true
  is_ascii_field (some (number n)) = true
  is_ascii_field (some (text t)) = is_ascii t

  abbrev is_ascii_in : String → Option Fields → Bool
  is_ascii_in name none = true
  is_ascii_in name (some fields) = is_ascii_field (lookup name fields)

  -- the same of what a rule has under a name
  abbrev pub is_ascii_at : String → JsonRule → Bool
  is_ascii_at name json_rule = is_ascii_in name (lookup policy_name json_rule)

  to_text_total :
      (v : Field) → is_ascii_field (some v) ≡ true → (t : String) × (to_text strptime str v ≡ ok t)
  to_text_total (number n) e = (str n, refl)
  to_text_total (text t) e = (t, rw e refl)

  -- the text of a value that is there, in ASCII
  text_at_total :
      (name : String) (json_rule : JsonRule) (fields : Fields) (v : Field)
      → lookup policy_name json_rule ≡ some fields
      → value_at name fields ≡ ok v
      → is_ascii_at name json_rule ≡ true
      → (t : String) × (text_at strptime str name fields ≡ ok t)
  text_at_total name json_rule fields v found at e =
      let there : lookup name fields ≡ some v = get_or_ok (lookup name fields) key_error v at in
      let plain : is_ascii_field (some v) ≡ true =
        ap is_ascii_field (sym there) ∙ ap (is_ascii_in name) (sym found) ∙ e in
      let (t, reads) = to_text_total v plain in
      (t, returns_bind (value_at name fields) (to_text strptime str) v at ∙ reads)

  -- A rule that passes the check of its syntax, and whose switches have names in ASCII, is parsed to a
  -- policy with ports from 0 to 24, VLANs from 0 to 4090 and times in order.
  pub check_syntax-parse_json :
      (N : NetworkX) (json_rule : JsonRule)
      → check_syntax strptime str json_rule ≡ ok tt
      → is_ascii_at "srcswitch" json_rule ≡ true
      → is_ascii_at "dstswitch" json_rule ≡ true
      → (policy : L2TunnelPolicy N) × (parse_json strptime str json_rule ≡ ok policy)
        × IsBounded policy
  unfolding check_syntax checks parse_json IsBounded
  check_syntax-parse_json N json_rule passed src_plain dst_plain =
      let (fields, found, e0) =
        bind_returns (get_or (lookup policy_name json_rule) key_error) _ tt (handled-ok _ passed) in
      let (start, at_start, e1) = bind_returns (time_at strptime str "starttime" fields) _ tt e0 in
      let (stop, at_stop, e2) = bind_returns (time_at strptime str "endtime" fields) _ tt e1 in
      let (src_switch, at_src, e3) = bind_returns (value_at "srcswitch" fields) _ tt e2 in
      let (dst_switch, at_dst, e4) = bind_returns (value_at "dstswitch" fields) _ tt e3 in
      let (src_port, at_src_port, e5) = bind_returns (int_at "srcport" fields) _ tt e4 in
      let (dst_port, at_dst_port, e6) = bind_returns (int_at "dstport" fields) _ tt e5 in
      let (src_vlan, at_src_vlan, e7) = bind_returns (int_at "srcvlan" fields) _ tt e6 in
      let (dst_vlan, at_dst_vlan, e8) = bind_returns (int_at "dstvlan" fields) _ tt e7 in
      let (bandwidth, at_bandwidth, e9) = bind_returns (int_at "bandwidth" fields) _ tt e8 in
      let (_, ordered, e10) =
        bind_returns (if ltb_ℤ stop start then err user_policy_value_error else ok (tt {0})) _ tt
          e9 in
      let (_, src_ports, e11) = bind_returns (in_range 24 src_port) _ tt e10 in
      let (_, dst_ports, e12) = bind_returns (in_range 24 dst_port) _ tt e11 in
      let (_, src_vlans, dst_vlans) = bind_returns (in_range 4090 src_vlan) _ tt e12 in
      let (start_time, at_start_time, start_read) =
        bind_returns (value_at "starttime" fields) _ start at_start in
      let (stop_time, at_stop_time, stop_read) =
        bind_returns (value_at "endtime" fields) _ stop at_stop in
      let there = get_or_ok (lookup policy_name json_rule) key_error fields found in
      let (src_name, src_text) =
        text_at_total "srcswitch" json_rule fields src_switch there at_src src_plain in
      let (dst_name, dst_text) =
        text_at_total "dstswitch" json_rule fields dst_switch there at_dst dst_plain in
      let src_ports_in = in_range-ok 24 src_port src_ports in
      let dst_ports_in = in_range-ok 24 dst_port dst_ports in
      let src_vlans_in = in_range-ok 4090 src_vlan src_vlans in
      let dst_vlans_in = in_range-ok 4090 dst_vlan dst_vlans in
      (
        record {
          start_time = start_time;
          stop_time = stop_time;
          src = record { switch = src_name; port = src_port; vlan = src_vlan };
          dst = record { switch = dst_name; port = dst_port; vlan = dst_vlan };
          bandwidth = bandwidth;
          intermediate_vlan = none;
          fullpath = none;
          endpoints = [];
          breakdown = none;
          resources = [];
        },
        returns_bind (get_or (lookup policy_name json_rule) user_policy_value_error) _ fields (
              ap (λ o. get_or o user_policy_value_error)
                (get_or_ok (lookup policy_name json_rule) key_error fields found))
            ∙ returns_bind _ _ start_time at_start_time
            ∙ returns_bind _ _ stop_time at_stop_time
            ∙ returns_bind _ _ src_name src_text
            ∙ returns_bind _ _ dst_name dst_text
            ∙ returns_bind _ _ src_port at_src_port
            ∙ returns_bind _ _ dst_port at_dst_port
            ∙ returns_bind _ _ src_vlan at_src_vlan
            ∙ returns_bind _ _ dst_vlan at_dst_vlan
            ∙ returns_bind _ _ bandwidth at_bandwidth,
        (
          src_ports_in.0,
          src_ports_in.1,
          dst_ports_in.0,
          dst_ports_in.1,
          src_vlans_in.0,
          src_vlans_in.1,
          dst_vlans_in.0,
          dst_vlans_in.1,
          (start, stop, start_read, stop_read, order_ok start stop ordered),
        ),
      )
