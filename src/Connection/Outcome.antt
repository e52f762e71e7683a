-- ===== src/Connection/Outcome.antt =====
-- What the handshake of shared/SDXControllerConnectionManagerConnection.py comes to: it ends, in the
-- main phase on both sides, and no initial rule is lost, repeated or out of order.
use atlanticwave_proto.Prelude.{
  ℕ, ◌+◌, ◌*◌, ◌≤◌, String, some, List, [], ◌∷◌, ◌++◌, map, append-nil, ◌≡◌, refl, sym, ap, ◌∙◌,
  arith, Bool, true, false, ◌||◌,
}
use atlanticwave_proto.Connection.{Value, text}
use atlanticwave_proto.Connection.Message.{SdxMessage}
use atlanticwave_proto.Connection.Local.{LcPoint, lc_completing, lc_main, lc_raised}
use atlanticwave_proto.Connection.Sdx.{SdxPoint, length, sdx_main, sdx_raised, install_message}
use atlanticwave_proto.Connection.Handshake.{Net, Move, step, run, can_move, new_net}
use atlanticwave_proto.Connection.Phases.{
  Phase, start, lc_only, sdx_only, hello_sent, request_sent, response_sent, count_sent, rule_asked,
  rule_sent, complete_sent, told, untold, transition_sent, main_phase, net_of,
}
use atlanticwave_proto.Connection.Runs.{weight, IsPhase, IsReached, phase_net, run-IsReached}

-- a side has raised an exception
abbrev lc_has_raised : {L : Type 0} → LcPoint L → Bool
lc_has_raised (lc_raised x) = true
lc_has_raised _ = false

abbrev sdx_has_raised : {L : Type 0} → SdxPoint L → Bool
sdx_has_raised (sdx_raised x) = true
sdx_has_raised _ = false

abbrev has_raised : {L : Type 0} → Net L → Bool
has_raised n = lc_has_raised n.lc.lc_point || sdx_has_raised n.sdx.sdx_point

module _ {L : Type 0} (initial_rules : Value L → List L) (switch_id : L → ℕ) (name : String)
    (has_callback : Bool) where
  -- the messages that install the rules of the switch's name
  abbrev pub installs : List L → List (SdxMessage L)
  installs = map (λ r. install_message initial_rules switch_id r)

  abbrev initial : List L
  initial = initial_rules (text name)

  -- both sides in the main phase, every initial rule installed, nothing under way
  abbrev pub connected : Net L
  connected = record {
    lc = record {
      lc_point = lc_main;
      lc_state = "MAIN_PHASE";
      lc_name = some name;
      installed = installs initial;
      completed = has_callback;
    };
    sdx = record { sdx_point = sdx_main; sdx_state = "MAIN_PHASE"; sdx_name = some (text name) };
    to_lc = [];
    to_sdx = [];
  }

  main-connected :
      (p : Phase L)
      → IsPhase initial_rules switch_id name has_callback p
      → can_move initial_rules switch_id name has_callback
          (phase_net initial_rules switch_id name has_callback p)
        ≡ false
      → phase_net initial_rules switch_id name has_callback p ≡ connected
        × weight initial_rules switch_id name has_callback p ≡ 0
  unfolding can_move step net_of IsPhase
  main-connected start v e = ground (arith, e)
  main-connected lc_only v e = ground (arith, e)
  main-connected sdx_only v e = ground (arith, e)
  main-connected hello_sent v e = ground (arith, e)
  main-connected request_sent v e = ground (arith, e)
  main-connected response_sent v e = ground (arith, e)
  main-connected count_sent v e = ground (arith, e)
  main-connected (rule_asked done r todo) v e = ground (arith, e)
  main-connected (rule_sent done r todo) v e = ground (arith, e)
  main-connected (complete_sent done) v e = ground (arith, e)
  main-connected (told done) v e = ground (arith, e)
  main-connected (untold done) v e = ground (arith, e)
  main-connected (transition_sent done) v e = ground (arith, e)
  main-connected (main_phase done) v e = rw v (refl, refl)

  new-IsReached :
      (cs : List Move) (n : Net L)
      → run initial_rules switch_id name has_callback cs (new_net L) ≡ some n
      → IsReached initial_rules switch_id name has_callback (length cs) (2 * length initial + 9) n
  unfolding net_of IsPhase
  new-IsReached cs n e = run-IsReached initial_rules switch_id name has_callback cs start tt n e

  -- Two new connections that can make no more move have made two for every initial rule and nine more,
  -- are both in the main phase, and the local controller has installed every initial rule, in order, and
  -- has called back that they are complete where a callback was given.
  pub run-connected :
      (cs : List Move) (n : Net L)
      → run initial_rules switch_id name has_callback cs (new_net L) ≡ some n
      → can_move initial_rules switch_id name has_callback n ≡ false
      → n ≡ connected × length cs ≡ 2 * length initial + 9
  unfolding IsReached
  run-connected cs n e stuck =
      let (p, v, h, f) = new-IsReached cs n e in
      let (g, w) = main-connected p v (rw (sym h) stuck) in (h ∙ g, omega arith)

  -- Two new connections make at most two moves for every initial rule, and nine more.
  pub length-run :
      (cs : List Move) (n : Net L)
      → run initial_rules switch_id name has_callback cs (new_net L) ≡ some n
      → length cs ≤ 2 * length initial + 9
  unfolding IsReached
  length-run cs n e = let (p, v, h, f) = new-IsReached cs n e in omega arith

  -- neither side has raised, and the rules installed so far are the first of the initial ones
  pub IsInOrder : Net L → Type 0
  IsInOrder n =
      has_raised n ≡ false × ((rest : List L) × n.lc.installed ++ installs rest ≡ installs initial)

  map-append : (f : L → SdxMessage L) (xs ys : List L) → map f (xs ++ ys) ≡ map f xs ++ map f ys
  map-append f [] ys = refl
  map-append f (x ∷ xs) ys = rw (map-append f xs ys) refl

  phase-IsInOrder :
      (p : Phase L)
      → IsPhase initial_rules switch_id name has_callback p
      → IsInOrder (phase_net initial_rules switch_id name has_callback p)
  unfolding net_of IsPhase IsInOrder
  phase-IsInOrder start v = (refl, (initial, refl))
  phase-IsInOrder lc_only v = (refl, (initial, refl))
  phase-IsInOrder sdx_only v = (refl, (initial, refl))
  phase-IsInOrder hello_sent v = (refl, (initial, refl))
  phase-IsInOrder request_sent v = (refl, (initial, refl))
  phase-IsInOrder response_sent v = (refl, (initial, refl))
  phase-IsInOrder count_sent v = (refl, (initial, refl))
  phase-IsInOrder (rule_asked done r todo) v =
      (refl, (r ∷ todo, sym (map-append _ done (r ∷ todo)) ∙ ap installs v))
  phase-IsInOrder (rule_sent done r todo) v =
      (refl, (r ∷ todo, sym (map-append _ done (r ∷ todo)) ∙ ap installs v))
  phase-IsInOrder (complete_sent done) v = (refl, ([], append-nil _ ∙ ap installs v))
  phase-IsInOrder (told done) v = (refl, ([], append-nil _ ∙ ap installs v))
  phase-IsInOrder (untold done) v = (refl, ([], append-nil _ ∙ ap installs v))
  phase-IsInOrder (transition_sent done) v = (refl, ([], append-nil _ ∙ ap installs v))
  phase-IsInOrder (main_phase done) v = (refl, ([], append-nil _ ∙ ap installs v))

  -- However two new connections move, neither side raises, and the rules that the local controller has
  -- installed are the first of the initial rules, in order.
  pub run-IsInOrder :
      (cs : List Move) (n : Net L)
      → run initial_rules switch_id name has_callback cs (new_net L) ≡ some n
      → IsInOrder n
  unfolding IsReached
  run-IsInOrder cs n e = let (p, v, h, f) = new-IsReached cs n e in rw h (phase-IsInOrder p v)

  -- whether the local controller has got past its callback, once it has sent that the rules are complete
  abbrev pub is_past_callback : LcPoint L → Bool
  is_past_callback lc_completing = false
  is_past_callback _ = has_callback

  -- the same of a phase
  phase_complete :
      (p : Phase L)
      → IsPhase initial_rules switch_id name has_callback p
      → (phase_net initial_rules switch_id name has_callback p).sdx.sdx_point ≡ sdx_main
      → (phase_net initial_rules switch_id name has_callback p).lc.installed ≡ installs initial
        × (phase_net initial_rules switch_id name has_callback p).lc.completed
          ≡ is_past_callback (phase_net initial_rules switch_id name has_callback p).lc.lc_point
  unfolding net_of IsPhase
  phase_complete start v e = ground (arith, e)
  phase_complete lc_only v e = ground (arith, e)
  phase_complete sdx_only v e = ground (arith, e)
  phase_complete hello_sent v e = ground (arith, e)
  phase_complete request_sent v e = ground (arith, e)
  phase_complete response_sent v e = ground (arith, e)
  phase_complete count_sent v e = ground (arith, e)
  phase_complete (rule_asked done r todo) v e = ground (arith, e)
  phase_complete (rule_sent done r todo) v e = ground (arith, e)
  phase_complete (complete_sent done) v e = ground (arith, e)
  phase_complete (told done) v e = ground (arith, e)
  phase_complete (untold done) v e = (ap installs v, refl)
  phase_complete (transition_sent done) v e = (ap installs v, refl)
  phase_complete (main_phase done) v e = (ap installs v, refl)

  -- When the SDX controller is in its main phase, the local controller has installed every initial rule
  -- in order. It has also called back that they are complete, where a callback was given, unless it
  -- still stands between the message that says so and that call.
  pub run_complete :
      (cs : List Move) (n : Net L)
      → run initial_rules switch_id name has_callback cs (new_net L) ≡ some n
      → n.sdx.sdx_point ≡ sdx_main
      → n.lc.installed ≡ installs initial × n.lc.completed ≡ is_past_callback n.lc.lc_point
  unfolding IsReached
  run_complete cs n e main =
      let (p, v, h, f) = new-IsReached cs n e in
      rw h (phase_complete p v (ap (λ m. m.sdx.sdx_point) (sym h) ∙ main))
