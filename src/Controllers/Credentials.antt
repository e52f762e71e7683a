-- ===== src/Controllers/Credentials.antt =====
-- The controllers of sdxctlr/LocalControllerManager.py and the credentials kept for them.
use atlanticwave_proto.Prelude.{
  String, Option, none, some, List, [], ◌∷◌, ◌≡◌, refl, true, if◌then◌else◌, ◌==◌, text_equality,
  arith, ◌⊎◌, Option-cases, inl, inr,
}
use atlanticwave_proto.Prelude.Lists.{lookup, lookup-insert}
use atlanticwave_proto.Prelude.{Bool}
use atlanticwave_proto.Prelude.Action.{Result, ok, err, name_error}
use atlanticwave_proto.Controllers.{
  LcRecord, LocalControllerManager, new_record, add_controller, send_to_ai, change_at,
  set_connected, set_disconnected, new_controller_connection, remove_controller_connection,
}

-- the credentials in the record of a controller
abbrev pub credentials_of : String → List (String × LcRecord) → Option String
credentials_of name db = elim (lookup name db) [ none ↦ none | some rec ↦ some rec.credentials ]

-- A controller that is known has its credentials in the store.
abbrev pub IsAuthenticated : LocalControllerManager → Type 0
IsAuthenticated m =
    (name : String)
    → (credentials_of name m.localctlr_db ≡ none)
      ⊎ (credentials_of name m.localctlr_db ≡ lookup name m.credential_store)

-- Adding a controller keeps the credentials of every known controller in the store.
pub add_controller-IsAuthenticated :
    (controller credentials lcip : String) (switchips : List String) (m : LocalControllerManager)
    → IsAuthenticated m
    → IsAuthenticated (add_controller controller credentials lcip switchips m).1
unfolding add_controller send_to_ai
add_controller-IsAuthenticated controller credentials lcip switchips m h name = ground (
  arith,
  lookup-insert name controller (new_record controller credentials lcip switchips) m.localctlr_db,
  lookup-insert name controller credentials m.credential_store,
  h name,
)

-- whether the controller at an address is marked as connected
abbrev pub connected_at : String → List (String × LcRecord) → Option Bool
connected_at ip [] = none
connected_at ip (entry ∷ db) =
    if entry.1.lcip == ip then some entry.1.connected else connected_at ip db

-- the mark of a controller that was found
abbrev pub marked : Option Bool → Option Bool
marked none = none
marked (some connected) = some true

-- no controller is found at the address
abbrev pub found_at : Option Bool → Result (Unit {0})
found_at none = err name_error
found_at (some connected) = ok tt

-- The change at an address fails where no controller has it, and changes no mark at another address.
change_at-none :
    (ip : String) (db : List (String × LcRecord))
    → change_at set_connected ip db ≡ none
    → connected_at ip db ≡ none
unfolding change_at
change_at-none ip [] e = refl
change_at-none ip (entry ∷ db) e = elim (Option-cases (change_at set_connected ip db)) [
  | inl f ↦ ground (arith, change_at-none ip db f)
  | inr (entries, f) ↦ ground arith
]

change_at-some :
    (ip other : String) (db after : List (String × LcRecord))
    → change_at set_connected ip db ≡ some after
    → (found_at (connected_at ip db) ≡ ok tt)
      × (connected_at other after
          ≡ (if other == ip then marked (connected_at ip db) else connected_at other db))
unfolding change_at
change_at-some ip other [] after e = cc
change_at-some ip other (entry ∷ db) after e = elim (Option-cases (change_at set_connected ip db)) [
  | inl f ↦ ground (
    arith,
    text_equality.equals_iff entry.1.lcip ip,
    text_equality.equals_iff other ip,
    text_equality.equals_iff entry.1.lcip other,
  )
  | inr (entries, f) ↦ ground (
    arith,
    change_at-some ip other db entries f,
    text_equality.equals_iff entry.1.lcip ip,
    text_equality.equals_iff other ip,
    text_equality.equals_iff entry.1.lcip other,
  )
]

connected_at-change_at :
    (ip : String) (db after : List (String × LcRecord))
    → change_at set_disconnected ip db ≡ some after
    → connected_at ip after ≡ some true
unfolding change_at
connected_at-change_at ip [] after h = cc
connected_at-change_at ip (entry ∷ db) after h =
    elim (Option-cases (change_at set_disconnected ip db)) [
      | inl e ↦ ground arith
      | inr (entries, e) ↦ ground (arith, connected_at-change_at ip db entries e)
    ]

-- Where `remove_controller_connection` returns, the controller at the address is marked as
-- connected.
pub remove_controller_connection_connected :
    (ip : String) (m : LocalControllerManager)
    → (remove_controller_connection ip m).0 ≡ ok tt
    → connected_at ip (remove_controller_connection ip m).1.localctlr_db ≡ some true
unfolding remove_controller_connection
remove_controller_connection_connected ip m returned =
    elim (Option-cases (change_at set_disconnected ip m.localctlr_db)) [
      | inl e ↦ ground arith
      | inr (entries, e) ↦ ground (arith, connected_at-change_at ip m.localctlr_db entries e)
    ]

-- `new_controller_connection` returns where a controller has the address, and raises a `NameError`
-- where none has. Then the controller at the address is marked as connected, the mark at every other
-- address is as before, and so is the store of credentials.
pub new_controller_connection_lem :
    (ip other : String) (m : LocalControllerManager)
    → ((new_controller_connection ip m).0 ≡ found_at (connected_at ip m.localctlr_db))
      × (connected_at other (new_controller_connection ip m).1.localctlr_db ≡ (
          if other == ip
          then marked (connected_at ip m.localctlr_db)
          else connected_at other m.localctlr_db))
      × ((new_controller_connection ip m).1.credential_store ≡ m.credential_store)
unfolding new_controller_connection
new_controller_connection_lem ip other m =
    elim (Option-cases (change_at set_connected ip m.localctlr_db)) [
      | inl e ↦
          ground (arith, change_at-none ip m.localctlr_db e, text_equality.equals_iff other ip)
      | inr (entries, e) ↦ ground (arith, change_at-some ip other m.localctlr_db entries e)
    ]
