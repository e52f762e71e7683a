-- ===== src/Fields.antt =====
-- The fields that rules match on, shared/LCFields.py. The parsers of addresses in the netaddr package
-- are parameters.
pub mod Actions
pub mod Participant
mod Tests
use atlanticwave_proto.Prelude.{
  ℕ, ◌*◌, ◌-◌, ◌^◌, String, Option, none, some, List, [], ◌∷◌, Bool, true, false, ◌&&◌, ◌||◌, ◌==◌,
  text_equality, if◌then◌else◌,
}
use atlanticwave_proto.Prelude.Lists.{contains}
use atlanticwave_proto.Prelude.Int.{ℤ, pos, negsuc, ◌+ℤ◌, ltb_ℤ, int_eq}
use atlanticwave_proto.Prelude.Action.{
  Result, ok, err, name_error, lc_field_type_error, lc_field_value_error,
}
use atlanticwave_proto.Prelude.Outcome.{◌>>=◌}
use atlanticwave_proto.Tunnel.{Field}

-- An instance of a class of fields: a field without a mask has the mask False there. A field that
-- is required is known by its class and its value.
pub record LcField : Type 0 where
  pub of_class : String
  pub name : String
  pub value : Option ℤ
  pub mask : Option ℤ
  pub minval : ℤ
  pub maxval : ℤ
  pub others : List ℤ
  pub prereqs : List (String × ℤ)

abbrev pub same_value : Option ℤ → Option ℤ → Bool
same_value none none = true
same_value (some a) (some b) = a == b
same_value _ _ = false

-- `__eq__`: the second definition in the class, which replaces the first one
unfoldable pub equals_field : LcField → LcField → Bool
equals_field self other =
    self.of_class == other.of_class
    && (self.name == other.name && same_value self.value other.value)

-- `isinstance(self.value, int)`: a greater number is a `long`.
abbrev pub is_int : ℤ → Bool
is_int (pos n) = ltb_ℤ (pos n) (pos (2 ^ 63))
is_int (negsuc n) = ltb_ℤ (pos n) (pos (2 ^ 63))

abbrev pub is_empty : List ℤ → Bool
is_empty [] = true
is_empty (x ∷ xs) = false

-- the range and the other values of a number
abbrev pub check_range : LcField → ℤ → Result (Unit {0})
check_range field v =
    if ltb_ℤ v field.minval || ltb_ℤ field.maxval v
    then (if is_empty field.others
        then err lc_field_value_error
        else (if contains field.others v then ok tt else err lc_field_value_error))
    else ok tt

-- `number_field.check_validity`
abbrev pub check_value : LcField → Option ℤ → Result (Unit {0})
check_value field none = err lc_field_type_error
check_value field (some v) =
    let checked = check_range field v in if is_int v then checked else err lc_field_type_error

unfoldable pub check_validity : LcField → Result (Unit {0})
check_validity field = check_value field field.value

-- `number_field.__init__`, for a number or None
unfoldable pub number_field :
    String → String → ℤ → ℤ → Option ℤ → Option ℤ → List (String × ℤ) → LcField
number_field of_class name minval maxval value mask prereqs = record {
  of_class = of_class;
  name = name;
  value = value;
  mask = mask;
  minval = minval;
  maxval = maxval;
  others = [];
  prereqs = prereqs;
}

-- `mac_field.__init__` and `ipv4_field.__init__`, with the parser of the address: without a value the
-- variable that is converted is not bound.
unfoldable pub address_field :
    (Field → Result ℤ)
    → String
    → String
    → ℕ
    → Option Field
    → Option ℤ
    → List (String × ℤ)
    → Result LcField
address_field parse of_class name bits none mask prereqs = err name_error
address_field parse of_class name bits (some address) mask prereqs = do
  v ← parse address
  ok (number_field of_class name (pos 0) (pos (2 ^ bits - 1)) (some v) mask prereqs)

abbrev pub ip_type : String × ℤ
ip_type = ("ETH_TYPE", pos 2048)

abbrev pub in_port : Option ℤ → LcField
in_port value = number_field "IN_PORT" "in_port" (pos 1) (pos 4294967040) value none []

abbrev pub eth_type : Option ℤ → LcField
eth_type value = number_field "ETH_TYPE" "eth_type" (pos 0) (pos (2 ^ 16 - 1)) value none []

abbrev pub ip_proto : Option ℤ → LcField
ip_proto value =
    number_field "IP_PROTO" "ip_proto" (pos 0) (pos (2 ^ 8 - 1)) value none (ip_type ∷ [])

abbrev pub port_field : String → String → ℤ → Option ℤ → LcField
port_field of_class name protocol value =
    number_field of_class name (pos 0) (pos (2 ^ 16 - 1)) value none
      (("IP_PROTO", protocol) ∷ ip_type ∷ [])

abbrev pub tcp_src : Option ℤ → LcField
tcp_src value = port_field "TCP_SRC" "tcp_src" (pos 6) value

abbrev pub tcp_dst : Option ℤ → LcField
tcp_dst value = port_field "TCP_DST" "tcp_dst" (pos 6) value

abbrev pub udp_src : Option ℤ → LcField
udp_src value = port_field "UDP_SRC" "udp_src" (pos 17) value

abbrev pub udp_dst : Option ℤ → LcField
udp_dst value = port_field "UDP_DST" "udp_dst" (pos 17) value

-- `0x1000*cfi`
abbrev pub shifted : ℕ → ℤ
shifted cfi = pos (4096 * cfi)

abbrev pub vlan_vid : ℤ → ℕ → Option ℤ → LcField
vlan_vid value cfi mask =
    number_field "VLAN_VID" "vlan_vid" (pos 0) (pos (2 ^ 13 - 1)) (some (value +ℤ shifted cfi)) mask
      []

abbrev pub metadata : Option ℤ → ℤ → LcField
metadata value mask =
    number_field "METADATA" "metadata" (pos 0) (pos (2 ^ 64 - 1)) value (some mask) []

-- `int(EUI(value))` and `int(IPAddress(value))`
module _ (eui ip_address : Field → Result ℤ) where
  abbrev pub eth_dst : Option Field → Option ℤ → Result LcField
  eth_dst value mask = address_field eui "ETH_DST" "eth_dst" 48 value mask []

  abbrev pub eth_src : Option Field → Option ℤ → Result LcField
  eth_src value mask = address_field eui "ETH_SRC" "eth_src" 48 value mask []

  abbrev pub ipv4_src : Option Field → Option ℤ → Result LcField
  ipv4_src value mask = address_field ip_address "IPV4_SRC" "ipv4_src" 32 value mask (ip_type ∷ [])

  abbrev pub ipv4_dst : Option Field → Option ℤ → Result LcField
  ipv4_dst value mask = address_field ip_address "IPV4_DST" "ipv4_dst" 32 value mask (ip_type ∷ [])

-- `VALID_MATCH_FIELDS`, by the names of the classes
abbrev pub valid_match_fields : List String
valid_match_fields =
    "IN_PORT" ∷ "ETH_DST" ∷ "ETH_SRC" ∷ "ETH_TYPE" ∷ "IP_PROTO" ∷ "IPV4_SRC" ∷ "IPV4_DST"
    ∷ "TCP_SRC" ∷ "TCP_DST" ∷ "UDP_SRC" ∷ "UDP_DST" ∷ "VLAN_VID" ∷ "METADATA" ∷ []

-- `MATCH_NAME_TO_CLASS`: the class and what it requires
abbrev pub match_name_to_class : List (String × String × Option (List String))
match_name_to_class =
    ("in_port", "IN_PORT", none)
    ∷ ("eth_dst", "ETH_DST", some ("mask" ∷ []))
    ∷ ("eth_src", "ETH_SRC", some ("mask" ∷ []))
    ∷ ("eth_type", "ETH_TYPE", none)
    ∷ ("ip_proto", "IP_PROTO", none)
    ∷ ("ipv4_src", "IPV4_SRC", some ("mask" ∷ []))
    ∷ ("ipv4_dst", "IPV4_DST", some ("mask" ∷ []))
    ∷ ("tcp_src", "TCP_SRC", none)
    ∷ ("tcp_dst", "TCP_DST", none)
    ∷ ("udp_src", "UDP_SRC", none)
    ∷ ("udp_dst", "UDP_DST", none)
    ∷ ("vlan_vid", "VLAN_VID", none)
    ∷ ("metadata", "METADATA", some ("mask" ∷ []))
    ∷ []
