-- ===== src/Fields/Actions.antt =====
-- The actions of rules, shared/LCAction.py.
use atlanticwave_proto.Prelude.{Bool, true, false, ◌&&◌, ◌==◌}
use atlanticwave_proto.Prelude.Int.{ℤ, int_eq}
use atlanticwave_proto.Tunnel.{Field, field_eq}
use atlanticwave_proto.Fields.{LcField, equals_field}

pub data LcAction : Type 0 where
  forward : Field → LcAction
  set_field : LcField → LcAction
  write_metadata : ℤ → ℤ → LcAction
  push_vlan pop_vlan continue drop : LcAction

-- `__eq__`: the same class and the same `get()`
unfoldable pub equals_action : LcAction → LcAction → Bool
equals_action (forward a) (forward b) = b == a
equals_action (set_field a) (set_field b) = equals_field b a
equals_action (write_metadata a m) (write_metadata b n) = b == a && n == m
equals_action push_vlan push_vlan = true
equals_action pop_vlan pop_vlan = true
equals_action continue continue = true
equals_action drop drop = true
equals_action _ _ = false
