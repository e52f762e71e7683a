-- ===== src/Connection/Phases.antt =====
-- The phases of the handshake of shared/SDXControllerConnectionManagerConnection.py: every state of the
-- network that two new connections reach.
use atlanticwave_proto.Prelude.{
  ℕ, suc, ◌-◌, String, Option, none, some, List, [], ◌∷◌, ◌++◌, map, ◌≡◌, refl, sym, ap, arith,
  Bool, true, false, ltb,
}
use atlanticwave_proto.Connection.{
  Value, missing, number, text, sdx_message_hello, sdx_message_capabilities_request,
  sdx_message_capabilities_response, sdx_message_initial_rule_count,
  sdx_message_initial_rule_request, sdx_message_initial_rules_complete,
  sdx_message_transition_to_main_phase,
}
use atlanticwave_proto.Connection.Message.{SdxMessage}
use atlanticwave_proto.Connection.Local.{
  message, LcPoint, LcSide, lc_await_request, lc_await_count, lc_await_rule, lc_await_transition,
  lc_main, lc_completing, lc_begin, lc_complete, lc_receive, lc_handle, lc_on_request, lc_on_count,
  lc_on_rule, lc_on_transition, lc_loop,
}
use atlanticwave_proto.Connection.Sdx.{
  SdxPoint, SdxSide, sdx_await_hello, sdx_await_capabilities, sdx_await_request, sdx_main, length,
  install_message, sdx_begin, sdx_receive, sdx_handle, sdx_on_hello, sdx_on_capabilities,
  sdx_on_request,
}
use atlanticwave_proto.Connection.Handshake.{
  Net, Move, lc_starts, sdx_starts, lc_reads, sdx_reads, lc_completes, lc_did, step, new_net,
}

-- What is under way; with the rules that the local controller has, and those that it does not. From
-- `complete_sent` the local controller goes on to `told`, or the SDX controller to `untold`.
pub data Phase (L : Type 0) : Type 0 where
  start lc_only sdx_only hello_sent request_sent response_sent count_sent : Phase L
  rule_asked : List L → L → List L → Phase L
  rule_sent : List L → L → List L → Phase L
  complete_sent told untold transition_sent main_phase : List L → Phase L

ltb-suc : (n : ℕ) → ltb 0 (suc n) ≡ true
ltb-suc n = ground arith

pred-suc : (n : ℕ) → suc n - 1 ≡ n
pred-suc n = omega arith

module _ {L : Type 0} (initial_rules : Value L → List L) (switch_id : L → ℕ) (name : String)
    (has_callback : Bool) where
  abbrev pub all_rules : List L
  all_rules = initial_rules (text name)

  abbrev pub install : L → SdxMessage L
  install r = install_message initial_rules switch_id r

  abbrev local_at : LcPoint L → String → List L → Bool → LcSide L
  local_at point state done completed = record {
    lc_point = point;
    lc_state = state;
    lc_name = some name;
    installed = map install done;
    completed = completed;
  }

  abbrev sdx_at : SdxPoint L → String → SdxSide L
  sdx_at point state = record { sdx_point = point; sdx_state = state; sdx_name = some (text name) }

  abbrev between : LcSide L → SdxSide L → List (SdxMessage L) → List (SdxMessage L) → Net L
  between lc sdx to_lc to_sdx = record { lc = lc; sdx = sdx; to_lc = to_lc; to_sdx = to_sdx }

  abbrev hello : SdxMessage L
  hello = message sdx_message_hello (some (("name", text name) ∷ []))

  abbrev count_message : SdxMessage L
  count_message =
      message sdx_message_initial_rule_count
        (some (("initial_rule_count", number (length all_rules)) ∷ []))

  abbrev ask : ℕ → SdxMessage L
  ask k = message sdx_message_initial_rule_request (some (("rules_to_go", number k) ∷ []))

  abbrev waiting_sdx : SdxSide L
  waiting_sdx = record (new_net L).sdx { sdx_point = sdx_await_hello; sdx_state = "INITIALIZING" }

  abbrev started_lc : LcSide L
  started_lc = local_at lc_await_request "CAPABILITIES" [] false

  -- the network in a phase
  unfoldable pub net_of : Phase L → Net L
  net_of start = new_net L
  net_of lc_only = between started_lc (new_net L).sdx [] (hello ∷ [])
  net_of sdx_only = between (new_net L).lc waiting_sdx [] []
  net_of hello_sent = between started_lc waiting_sdx [] (hello ∷ [])
  net_of request_sent =
      between started_lc (sdx_at (sdx_await_capabilities all_rules) "CAPABILITIES")
        (message sdx_message_capabilities_request none ∷ []) []
  net_of response_sent =
      between (local_at lc_await_count "INITIAL_RULES" [] false)
        (sdx_at (sdx_await_capabilities all_rules) "CAPABILITIES") []
        (message sdx_message_capabilities_response (some (("capabilities", missing) ∷ [])) ∷ [])
  net_of count_sent =
      between (local_at lc_await_count "INITIAL_RULES" [] false)
        (sdx_at (sdx_await_request all_rules) "INITIAL_RULES") (count_message ∷ []) []
  net_of (rule_asked done r todo) =
      between (local_at (lc_await_rule (number (suc (length todo)))) "INITIAL_RULES" done false)
        (sdx_at (sdx_await_request (r ∷ todo)) "INITIAL_RULES") [] (ask (suc (length todo)) ∷ [])
  net_of (rule_sent done r todo) =
      between (local_at (lc_await_rule (number (suc (length todo)))) "INITIAL_RULES" done false)
        (sdx_at (sdx_await_request todo) "INITIAL_RULES") (install r ∷ []) []
  net_of (complete_sent done) =
      between (local_at lc_completing "INITIAL_RULES" done false)
        (sdx_at (sdx_await_request []) "INITIAL_RULES") []
        (message sdx_message_initial_rules_complete none ∷ [])
  net_of (told done) =
      between (local_at lc_await_transition "INITIAL_RULES_COMPLETE" done has_callback)
        (sdx_at (sdx_await_request []) "INITIAL_RULES") []
        (message sdx_message_initial_rules_complete none ∷ [])
  net_of (untold done) =
      between (local_at lc_completing "INITIAL_RULES" done false) (sdx_at sdx_main "MAIN_PHASE")
        (message sdx_message_transition_to_main_phase none ∷ []) []
  net_of (transition_sent done) =
      between (local_at lc_await_transition "INITIAL_RULES_COMPLETE" done has_callback)
        (sdx_at sdx_main "MAIN_PHASE") (message sdx_message_transition_to_main_phase none ∷ []) []
  net_of (main_phase done) =
      between (local_at lc_main "MAIN_PHASE" done has_callback) (sdx_at sdx_main "MAIN_PHASE") [] []

  -- the local controller asks for the next rule, or is done
  abbrev pub asking : List L → List L → Phase L
  asking done [] = complete_sent done
  asking done (r ∷ todo) = rule_asked done r todo

  abbrev pub next : Phase L → Move → Option (Phase L)
  next start lc_starts = some lc_only
  next start sdx_starts = some sdx_only
  next lc_only sdx_starts = some hello_sent
  next sdx_only lc_starts = some hello_sent
  next hello_sent sdx_reads = some request_sent
  next request_sent lc_reads = some response_sent
  next response_sent sdx_reads = some count_sent
  next count_sent lc_reads = some (asking [] all_rules)
  next (rule_asked done r todo) sdx_reads = some (rule_sent done r todo)
  next (rule_sent done r todo) lc_reads = some (asking (done ++ r ∷ []) todo)
  next (complete_sent done) sdx_reads = some (untold done)
  next (complete_sent done) lc_completes = some (told done)
  next (told done) sdx_reads = some (transition_sent done)
  next (untold done) lc_completes = some (transition_sent done)
  next (transition_sent done) lc_reads = some (main_phase done)
  next _ _ = none

  abbrev pub map_net : Option (Phase L) → Option (Net L)
  map_net none = none
  map_net (some p) = some (net_of p)

  map-snoc :
      (done : List L) (r : L) → map install (done ++ r ∷ []) ≡ map install done ++ install r ∷ []
  map-snoc [] r = refl
  map-snoc (x ∷ done) r = rw (map-snoc done r)

  -- The loop of the local controller, with the rules `todo` to go, leads to the phase `asking`.
  loop_asks :
      (point : LcPoint L) (before : LcSide L) (done todo : List L)
      → lc_did initial_rules switch_id name has_callback
          (lc_loop (number (length todo)) (local_at point "INITIAL_RULES" done false))
          (between before (sdx_at (sdx_await_request todo) "INITIAL_RULES") [] [])
        ≡ net_of (asking done todo)
  unfolding lc_loop net_of
  loop_asks point before done [] = refl
  loop_asks point before done (r ∷ todo) = rw (ltb-suc (length todo)) refl

  -- the same after the rule `r` came
  loop_asks_next :
      (point : LcPoint L) (before : LcSide L) (done : List L) (r : L) (todo : List L)
      → lc_did initial_rules switch_id name has_callback
          (lc_loop
            (number (suc (length todo) - 1))
            (record (local_at point "INITIAL_RULES" done false) {
              installed = map install done ++ install r ∷ [];
            }))
          (between before (sdx_at (sdx_await_request todo) "INITIAL_RULES") [] [])
        ≡ net_of (asking (done ++ r ∷ []) todo)
  loop_asks_next point before done r todo =
      rw (pred-suc (length todo), sym (map-snoc done r))
        (loop_asks point before (done ++ r ∷ []) todo)

  -- A move leads from a phase to the next one.
  pub step-net_of :
      (p : Phase L) (c : Move)
      → step initial_rules switch_id name has_callback c (net_of p) ≡ map_net (next p c)
  unfolding step net_of lc_begin lc_complete lc_receive lc_handle lc_on_request lc_on_count
      lc_on_rule lc_on_transition sdx_begin sdx_receive sdx_handle sdx_on_hello sdx_on_capabilities
      sdx_on_request
  step-net_of start lc_starts = refl
  step-net_of start sdx_starts = refl
  step-net_of start lc_reads = refl
  step-net_of start sdx_reads = refl
  step-net_of start lc_completes = refl
  step-net_of lc_only lc_starts = refl
  step-net_of lc_only sdx_starts = refl
  step-net_of lc_only lc_reads = refl
  step-net_of lc_only sdx_reads = refl
  step-net_of lc_only lc_completes = refl
  step-net_of sdx_only lc_starts = refl
  step-net_of sdx_only sdx_starts = refl
  step-net_of sdx_only lc_reads = refl
  step-net_of sdx_only sdx_reads = refl
  step-net_of sdx_only lc_completes = refl
  step-net_of hello_sent lc_starts = refl
  step-net_of hello_sent sdx_starts = refl
  step-net_of hello_sent lc_reads = refl
  step-net_of hello_sent sdx_reads = refl
  step-net_of hello_sent lc_completes = refl
  step-net_of request_sent lc_starts = refl
  step-net_of request_sent sdx_starts = refl
  step-net_of request_sent lc_reads = refl
  step-net_of request_sent sdx_reads = refl
  step-net_of request_sent lc_completes = refl
  step-net_of response_sent lc_starts = refl
  step-net_of response_sent sdx_starts = refl
  step-net_of response_sent lc_reads = refl
  step-net_of response_sent sdx_reads = refl
  step-net_of response_sent lc_completes = refl
  step-net_of count_sent lc_starts = refl
  step-net_of count_sent sdx_starts = refl
  step-net_of count_sent lc_reads =
      ap some
        (loop_asks lc_await_count (local_at lc_await_count "INITIAL_RULES" [] false) [] all_rules)
  step-net_of count_sent sdx_reads = refl
  step-net_of count_sent lc_completes = refl
  step-net_of (rule_asked done r todo) lc_starts = refl
  step-net_of (rule_asked done r todo) sdx_starts = refl
  step-net_of (rule_asked done r todo) lc_reads = refl
  step-net_of (rule_asked done r todo) sdx_reads = refl
  step-net_of (rule_asked done r todo) lc_completes = refl
  step-net_of (rule_sent done r todo) lc_starts = refl
  step-net_of (rule_sent done r todo) sdx_starts = refl
  step-net_of (rule_sent done r todo) lc_reads = ap some (
      loop_asks_next (lc_await_rule (number (suc (length todo))))
        (local_at (lc_await_rule (number (suc (length todo)))) "INITIAL_RULES" done false) done r
        todo)
  step-net_of (rule_sent done r todo) sdx_reads = refl
  step-net_of (rule_sent done r todo) lc_completes = refl
  step-net_of (complete_sent done) lc_starts = refl
  step-net_of (complete_sent done) sdx_starts = refl
  step-net_of (complete_sent done) lc_reads = refl
  step-net_of (complete_sent done) sdx_reads = refl
  step-net_of (complete_sent done) lc_completes = refl
  step-net_of (told done) lc_starts = refl
  step-net_of (told done) sdx_starts = refl
  step-net_of (told done) lc_reads = refl
  step-net_of (told done) sdx_reads = refl
  step-net_of (told done) lc_completes = refl
  step-net_of (untold done) lc_starts = refl
  step-net_of (untold done) sdx_starts = refl
  step-net_of (untold done) lc_reads = refl
  step-net_of (untold done) sdx_reads = refl
  step-net_of (untold done) lc_completes = refl
  step-net_of (transition_sent done) lc_starts = refl
  step-net_of (transition_sent done) sdx_starts = refl
  step-net_of (transition_sent done) lc_reads = refl
  step-net_of (transition_sent done) sdx_reads = refl
  step-net_of (transition_sent done) lc_completes = refl
  step-net_of (main_phase done) lc_starts = refl
  step-net_of (main_phase done) sdx_starts = refl
  step-net_of (main_phase done) lc_reads = refl
  step-net_of (main_phase done) sdx_reads = refl
  step-net_of (main_phase done) lc_completes = refl
