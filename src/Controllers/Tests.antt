-- ===== src/Controllers/Tests.antt =====
-- One local controller, and the theorems about the local controller manager at it.
use atlanticwave_proto.Prelude.{
  arith, some, [], ◌∷◌, ◌≡◌, refl, true, inl, inr, Bool-cases, ◌==◌, text_equality,
}
use atlanticwave_proto.Prelude.Action.{ok}
use atlanticwave_proto.Controllers.{
  LocalControllerManager, new_record, add_controller, new_controller_connection,
  remove_controller_connection, change_at,
}
use atlanticwave_proto.Controllers.Credentials.{
  IsAuthenticated, connected_at, add_controller-IsAuthenticated, new_controller_connection_lem,
  remove_controller_connection_connected,
}

abbrev manager : LocalControllerManager
manager = record {
  localctlr_db = ("atl", new_record "atl" "secret" "10.0.0.1" []) ∷ [];
  credential_store = ("atl", "secret") ∷ [];
}

authenticated : IsAuthenticated manager
authenticated name = elim (Bool-cases (name == "atl")) [
  | inl same ↦ inr (ground arith)
  | inr other ↦ inl (ground arith)
]

add_controller-IsAuthenticated_example :
    IsAuthenticated (add_controller "mia" "other" "10.0.0.2" [] manager).1
add_controller-IsAuthenticated_example =
    add_controller-IsAuthenticated "mia" "other" "10.0.0.2" [] manager authenticated

new_controller_connection_lem_example :
    ((new_controller_connection "10.0.0.1" manager).0 ≡ ok tt)
    × (connected_at "10.0.0.1" (new_controller_connection "10.0.0.1" manager).1.localctlr_db
        ≡ some true)
    × ((new_controller_connection "10.0.0.1" manager).1.credential_store ≡ manager.credential_store)
new_controller_connection_lem_example = new_controller_connection_lem "10.0.0.1" "10.0.0.1" manager

returns : (remove_controller_connection "10.0.0.1" manager).0 ≡ ok tt
unfolding remove_controller_connection change_at
returns = refl

remove_controller_connection_connected_example :
    connected_at "10.0.0.1" (remove_controller_connection "10.0.0.1" manager).1.localctlr_db
    ≡ some true
remove_controller_connection_connected_example =
    remove_controller_connection_connected "10.0.0.1" manager returns
