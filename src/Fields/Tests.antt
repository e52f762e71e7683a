-- ===== src/Fields/Tests.antt =====
-- Fields and actions at concrete values.
use atlanticwave_proto.Prelude.{none, some, ◌≡◌, refl, true, false}
use atlanticwave_proto.Prelude.Int.{ℤ, pos, ◌+ℤ◌}
use atlanticwave_proto.Prelude.Action.{
  Result, ok, err, name_error, type_error, lc_field_type_error, lc_field_value_error,
}
use atlanticwave_proto.Tunnel.{Field, number}
use atlanticwave_proto.Fields.Participant.{
  lookup_match_type, new_action, match_tcp_src, action_drop,
}
use atlanticwave_proto.Fields.{
  equals_field, check_validity, number_field, address_field, in_port, eth_dst, tcp_src, vlan_vid,
  metadata,
}
use atlanticwave_proto.Fields.Actions.{equals_action, set_field, forward, drop}

in_port_test : check_validity (in_port (some (pos 0))) ≡ err lc_field_value_error
unfolding check_validity number_field
in_port_test = refl

vlan_test : check_validity (vlan_vid (pos 4095) 1 none) ≡ ok tt
unfolding check_validity number_field ◌+ℤ◌
vlan_test = refl

no_value_test : check_validity (tcp_src none) ≡ err lc_field_type_error
unfolding check_validity number_field
no_value_test = refl

-- A number that is a `long` is refused, also within the range of the field.
long_test :
    check_validity (metadata (some (pos 9223372036854775808)) (pos 1)) ≡ err lc_field_type_error
unfolding check_validity number_field
long_test = refl

-- Fields that differ in their masks are equal.
mask_test : equals_field (metadata (some (pos 5)) (pos 1)) (metadata (some (pos 5)) (pos 2)) ≡ true
unfolding equals_field number_field
mask_test = refl

abbrev no_address : Field → Result ℤ
no_address value = ok (pos 0)

no_address_test : eth_dst no_address no_address none none ≡ err name_error
unfolding address_field
no_address_test = refl

action_test : equals_action (set_field (in_port none)) (forward (number (pos 1))) ≡ false
unfolding equals_action
action_test = refl

drop_test : equals_action drop drop ≡ true
unfolding equals_action
drop_test = refl

-- The name `udp_src` stands for the match on TCP.
udp_test : lookup_match_type "udp_src" ≡ ok match_tcp_src
unfolding lookup_match_type
udp_test = refl

match_drop_test : new_action no_address no_address action_drop (number (pos 1)) ≡ err type_error
unfolding new_action
match_drop_test = refl
