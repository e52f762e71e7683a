-- ===== src/Fields/Participant.antt =====
-- The matches and actions of participants' policies, shared/SDXMatches.py and shared/SDXActions.py.
use atlanticwave_proto.Prelude.{String, Option, none, some, List, [], ◌∷◌, text_equality}
use atlanticwave_proto.Prelude.Lists.{lookup}
use atlanticwave_proto.Prelude.Int.{ℤ}
use atlanticwave_proto.Prelude.Action.{
  Result, ok, err, type_error, lc_field_type_error, sdx_match_value_error, sdx_action_value_error,
}
use atlanticwave_proto.Prelude.Outcome.{get_or, ◌>>=◌}
use atlanticwave_proto.Tunnel.{Field, text, number}
use atlanticwave_proto.Fields.{
  LcField, eth_src, eth_dst, ipv4_src, ipv4_dst, tcp_src, tcp_dst, udp_src, udp_dst, ip_proto,
  eth_type, vlan_vid,
}
use atlanticwave_proto.Fields.Actions.{LcAction, forward, set_field}

-- the subclasses of `SDXMatch`
pub data MatchClass : Type 0 where
  match_src_mac match_dst_mac match_src_ip match_dst_ip : MatchClass
  match_tcp_src match_tcp_dst match_udp_src match_udp_dst : MatchClass
  match_ip_proto match_eth_type match_vlan : MatchClass

-- the subclasses of `SDXAction`
pub data ActionClass : Type 0 where
  modify_src_mac modify_dst_mac modify_src_ip modify_dst_ip : ActionClass
  modify_tcp_src modify_tcp_dst modify_udp_src modify_udp_dst modify_vlan : ActionClass
  action_forward action_drop action_continue : ActionClass

pub record SdxMatch : Type 0 where
  pub name : String
  pub value : Field
  pub field : LcField

pub record SdxAction : Type 0 where
  pub name : String
  pub value : Field
  pub action : LcAction

-- a number field with this value; a text is refused
abbrev pub with_number : (Option ℤ → LcField) → Field → Result LcField
with_number make (text t) = err lc_field_type_error
with_number make (number n) = ok (make (some n))

-- `VLAN_VID(value)`, which adds to the value first
abbrev pub with_vlan : Field → Result LcField
with_vlan (text t) = err type_error
with_vlan (number n) = ok (vlan_vid n 1 none)

abbrev pub named_match : String → Field → Result LcField → Result SdxMatch
named_match name value made = do
  field ← made
  ok (record { name = name; value = value; field = field })

abbrev pub named_action : String → Field → Result LcField → Result SdxAction
named_action name value made = do
  field ← made
  ok (record { name = name; value = value; action = set_field field })

module _ (eui ip_address : Field → Result ℤ) where
  unfoldable pub new_match : MatchClass → Field → Result SdxMatch
  new_match match_src_mac v = named_match "SRCMAC" v (eth_src eui ip_address (some v) none)
  new_match match_dst_mac v = named_match "DSTMAC" v (eth_dst eui ip_address (some v) none)
  new_match match_src_ip v = named_match "SRCIP" v (ipv4_src eui ip_address (some v) none)
  new_match match_dst_ip v = named_match "DSTIP" v (ipv4_dst eui ip_address (some v) none)
  new_match match_tcp_src v = named_match "TCPSRC" v (with_number tcp_src v)
  new_match match_tcp_dst v = named_match "TCPDST" v (with_number tcp_dst v)
  new_match match_udp_src v = named_match "UDPSRC" v (with_number udp_src v)
  new_match match_udp_dst v = named_match "UDPDST" v (with_number udp_dst v)
  new_match match_ip_proto v = named_match "IPPROTO" v (with_number ip_proto v)
  new_match match_eth_type v = named_match "ETHTYPE" v (with_number eth_type v)
  new_match match_vlan v = named_match "VLAN" v (with_vlan v)

  -- `Drop` and `Continue` take no argument but are given one.
  unfoldable pub new_action : ActionClass → Field → Result SdxAction
  new_action modify_src_mac v = named_action "ModifySRCMAC" v (eth_src eui ip_address (some v) none)
  new_action modify_dst_mac v = named_action "ModifyDSTMAC" v (eth_dst eui ip_address (some v) none)
  new_action modify_src_ip v = named_action "ModifySRCIP" v (ipv4_src eui ip_address (some v) none)
  new_action modify_dst_ip v = named_action "ModifyDSTIP" v (ipv4_dst eui ip_address (some v) none)
  new_action modify_tcp_src v = named_action "ModifyTCPSRC" v (with_number tcp_src v)
  new_action modify_tcp_dst v = named_action "ModifyTCPDST" v (with_number tcp_dst v)
  new_action modify_udp_src v = named_action "ModifyUDPSRC" v (with_number udp_src v)
  new_action modify_udp_dst v = named_action "ModifyUDPDST" v (with_number udp_dst v)
  new_action modify_vlan v = named_action "ModifyVLAN" v (with_vlan v)
  new_action action_forward v = ok (record { name = "Forward"; value = v; action = forward v })
  new_action action_drop v = err type_error
  new_action action_continue v = err type_error

-- `SDXMATCH_TO_CLASS`
abbrev pub sdxmatch_to_class : List (String × MatchClass)
sdxmatch_to_class =
    ("src_mac", match_src_mac)
    ∷ ("dst_mac", match_dst_mac)
    ∷ ("src_ip", match_src_ip)
    ∷ ("dst_ip", match_dst_ip)
    ∷ ("tcp_src", match_tcp_src)
    ∷ ("tcp_dst", match_tcp_dst)
    ∷ ("udp_src", match_tcp_src)
    ∷ ("udp_dst", match_tcp_dst)
    ∷ ("ip_proto", match_ip_proto)
    ∷ ("eth_type", match_eth_type)
    ∷ ("vlan", match_vlan)
    ∷ []

unfoldable pub lookup_match_type : String → Result MatchClass
lookup_match_type name = get_or (lookup name sdxmatch_to_class) sdx_match_value_error

-- `SDXACTION_TO_CLASS`
abbrev pub sdxaction_to_class : List (String × ActionClass)
sdxaction_to_class =
    ("ModifySRCMAC", modify_src_mac)
    ∷ ("ModifyDSTMAC", modify_dst_mac)
    ∷ ("ModifySRCIP", modify_src_ip)
    ∷ ("ModifyDSTIP", modify_dst_ip)
    ∷ ("ModifyTCPSRC", modify_tcp_src)
    ∷ ("ModifyTCPDST", modify_tcp_dst)
    ∷ ("ModifyUDPSRC", modify_udp_src)
    ∷ ("ModifyUDPDST", modify_udp_dst)
    ∷ ("ModifyVLAN", modify_vlan)
    ∷ ("Forward", action_forward)
    ∷ ("Drop", action_drop)
    ∷ ("Continue", action_continue)
    ∷ []

unfoldable pub lookup_action_type : String → Result ActionClass
lookup_action_type name = get_or (lookup name sdxaction_to_class) sdx_action_value_error
