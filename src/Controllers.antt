-- ===== src/Controllers.antt =====
-- The local controllers that the SDX controller knows: `LocalControllerManager` of
-- sdxctlr/LocalControllerManager.py, and the credentials that it gives to
-- sdxctlr/AuthenticationInspector.py. A dictionary lists its keys in the order of its iteration.
pub mod Credentials
mod Tests
use atlanticwave_proto.Prelude.{
  String, Option, none, some, List, [], ◌∷◌, Bool, true, false, if◌then◌else◌, ◌==◌, text_equality,
}
use atlanticwave_proto.Prelude.Lists.{lookup, insert}
use atlanticwave_proto.Prelude.Action.{
  Action, pure, gets, modify, or_raise, name_error, ◌>>=◌, ◌>>◌,
}

-- `LCRecord`
pub record LcRecord : Type 0 where
  pub shortname : String
  pub credentials : String
  pub lcip : String
  pub switchips : List String
  pub connected : Bool

pub record LocalControllerManager : Type 0 where
  pub localctlr_db : List (String × LcRecord)
  pub credential_store : List (String × String)

abbrev pub set_connected : LcRecord → LcRecord
set_connected entry = record entry { connected = true }

-- as the source writes it
abbrev pub set_disconnected : LcRecord → LcRecord
set_disconnected entry = record entry { connected = true }

unfoldable pub send_to_ai : LcRecord → Action LocalControllerManager (Unit {0})
send_to_ai ctlr =
    modify (λ m. record m {
      credential_store = insert ctlr.shortname ctlr.credentials m.credential_store;
    })

-- a record that is not connected yet
abbrev pub new_record : String → String → String → List String → LcRecord
new_record controller credentials lcip switchips = record {
  shortname = controller;
  credentials = credentials;
  lcip = lcip;
  switchips = switchips;
  connected = false;
}

unfoldable pub add_controller :
    String → String → String → List String → Action LocalControllerManager (Unit {0})
add_controller controller credentials lcip switchips = do
  let rec = new_record controller credentials lcip switchips
  modify (λ m. record m { localctlr_db = insert controller rec m.localctlr_db })
  send_to_ai rec

unfoldable pub get_controller : String → Action LocalControllerManager (Option LcRecord)
get_controller controllername = gets (λ m. lookup controllername m.localctlr_db)

abbrev pub cons_entry :
    String × LcRecord → Option (List (String × LcRecord)) → Option (List (String × LcRecord))
cons_entry entry none = none
cons_entry entry (some entries) = some (entry ∷ entries)

-- the loop over the entries: the first one with the address is changed
unfoldable pub change_at :
    (LcRecord → LcRecord) → String → List (String × LcRecord) → Option (List (String × LcRecord))
change_at change controllerip [] = none
change_at change controllerip (entry ∷ entries) =
    let rest = change_at change controllerip entries in
    if entry.1.lcip == controllerip
    then some ((entry.0, change entry.1) ∷ entries)
    else cons_entry entry rest

-- The source raises a class that it does not define, which is a `NameError`.
abbrev pub change_connection :
    (LcRecord → LcRecord) → String → Action LocalControllerManager (Unit {0})
change_connection change controllerip = do
  db ← or_raise (← gets (λ m. change_at change controllerip m.localctlr_db)) name_error
  modify (λ m. record m { localctlr_db = db })

unfoldable pub new_controller_connection : String → Action LocalControllerManager (Unit {0})
new_controller_connection controllerip = change_connection set_connected controllerip

unfoldable pub remove_controller_connection : String → Action LocalControllerManager (Unit {0})
remove_controller_connection controllerip = change_connection set_disconnected controllerip
