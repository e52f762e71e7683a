-- ===== src/Connection/Runs.antt =====
-- Runs of the handshake of shared/SDXControllerConnectionManagerConnection.py: which networks two new
-- connections reach, in how many moves.
use atlanticwave_proto.Prelude.{
  ℕ, suc, ◌+◌, ◌*◌, String, Option, none, some, List, [], ◌∷◌, Bool, ◌++◌, append-nil, append_assoc,
  ◌≡◌, refl, sym, ap, ◌∙◌, arith,
}
use atlanticwave_proto.Connection.{Value}
use atlanticwave_proto.Connection.Sdx.{length}
use atlanticwave_proto.Connection.Handshake.{
  Net, Move, lc_starts, sdx_starts, lc_reads, sdx_reads, lc_completes, step, run,
}
use atlanticwave_proto.Connection.Phases.{
  Phase, start, lc_only, sdx_only, hello_sent, request_sent, response_sent, count_sent, rule_asked,
  rule_sent, complete_sent, told, untold, transition_sent, main_phase, all_rules, net_of, asking,
  next, map_net, step-net_of,
}

module _ {L : Type 0} (initial_rules : Value L → List L) (switch_id : L → ℕ) (name : String)
    (has_callback : Bool) where
  abbrev pub rules : List L
  rules = all_rules initial_rules switch_id name has_callback

  -- the phase is one of this list of rules
  unfoldable pub IsPhase : Phase L → Type 0
  IsPhase (rule_asked done r todo) = done ++ r ∷ todo ≡ rules
  IsPhase (rule_sent done r todo) = done ++ r ∷ todo ≡ rules
  IsPhase (complete_sent done) = done ≡ rules
  IsPhase (told done) = done ≡ rules
  IsPhase (untold done) = done ≡ rules
  IsPhase (transition_sent done) = done ≡ rules
  IsPhase (main_phase done) = done ≡ rules
  IsPhase _ = Unit

  -- how many moves are left
  abbrev pub weight : Phase L → ℕ
  weight start = 2 * length rules + 9
  weight lc_only = 2 * length rules + 8
  weight sdx_only = 2 * length rules + 8
  weight hello_sent = 2 * length rules + 7
  weight request_sent = 2 * length rules + 6
  weight response_sent = 2 * length rules + 5
  weight count_sent = 2 * length rules + 4
  weight (rule_asked done r todo) = 2 * length todo + 5
  weight (rule_sent done r todo) = 2 * length todo + 4
  weight (complete_sent done) = 3
  weight (told done) = 2
  weight (untold done) = 2
  weight (transition_sent done) = 1
  weight (main_phase done) = 0

  -- the network is that of a phase with `k` moves less to go than `w`
  unfoldable pub IsReached : ℕ → ℕ → Net L → Type 0
  IsReached k w n =
      (p : Phase L) × IsPhase p
      × n ≡ net_of initial_rules switch_id name has_callback p
      × k + weight p ≡ w

  abbrev pub following : Phase L → Move → Option (Phase L)
  following = next initial_rules switch_id name has_callback

  -- what `next` gives is a phase of this list with one move less to go
  IsNext : Phase L → Option (Phase L) → Type 0
  IsNext p none = Unit
  IsNext p (some q) = IsPhase q × suc (weight q) ≡ weight p

  asking-IsPhase :
      (done todo : List L)
      → done ++ todo ≡ rules
      → IsPhase (asking initial_rules switch_id name has_callback done todo)
  unfolding IsPhase
  asking-IsPhase done [] e = sym (append-nil done) ∙ e
  asking-IsPhase done (r ∷ todo) e = e

  weight-asking :
      (done todo : List L)
      → suc (weight (asking initial_rules switch_id name has_callback done todo))
        ≡ 2 * length todo + 4
  weight-asking done [] = refl
  weight-asking done (r ∷ todo) = omega arith

  following-IsNext : (p : Phase L) (c : Move) → IsPhase p → IsNext p (following p c)
  unfolding IsPhase IsNext
  following-IsNext start lc_starts v = (tt, omega arith)
  following-IsNext start sdx_starts v = (tt, omega arith)
  following-IsNext start lc_reads v = tt
  following-IsNext start sdx_reads v = tt
  following-IsNext start lc_completes v = tt
  following-IsNext lc_only lc_starts v = tt
  following-IsNext lc_only sdx_starts v = (tt, omega arith)
  following-IsNext lc_only lc_reads v = tt
  following-IsNext lc_only sdx_reads v = tt
  following-IsNext lc_only lc_completes v = tt
  following-IsNext sdx_only lc_starts v = (tt, omega arith)
  following-IsNext sdx_only sdx_starts v = tt
  following-IsNext sdx_only lc_reads v = tt
  following-IsNext sdx_only sdx_reads v = tt
  following-IsNext sdx_only lc_completes v = tt
  following-IsNext hello_sent lc_starts v = tt
  following-IsNext hello_sent sdx_starts v = tt
  following-IsNext hello_sent lc_reads v = tt
  following-IsNext hello_sent sdx_reads v = (tt, omega arith)
  following-IsNext hello_sent lc_completes v = tt
  following-IsNext request_sent lc_starts v = tt
  following-IsNext request_sent sdx_starts v = tt
  following-IsNext request_sent lc_reads v = (tt, omega arith)
  following-IsNext request_sent sdx_reads v = tt
  following-IsNext request_sent lc_completes v = tt
  following-IsNext response_sent lc_starts v = tt
  following-IsNext response_sent sdx_starts v = tt
  following-IsNext response_sent lc_reads v = tt
  following-IsNext response_sent sdx_reads v = (tt, omega arith)
  following-IsNext response_sent lc_completes v = tt
  following-IsNext count_sent lc_starts v = tt
  following-IsNext count_sent sdx_starts v = tt
  following-IsNext count_sent lc_reads v = (asking-IsPhase [] rules refl, weight-asking [] rules)
  following-IsNext count_sent sdx_reads v = tt
  following-IsNext count_sent lc_completes v = tt
  following-IsNext (rule_asked done r todo) lc_starts v = tt
  following-IsNext (rule_asked done r todo) sdx_starts v = tt
  following-IsNext (rule_asked done r todo) lc_reads v = tt
  following-IsNext (rule_asked done r todo) sdx_reads v = (v, omega arith)
  following-IsNext (rule_asked done r todo) lc_completes v = tt
  following-IsNext (rule_sent done r todo) lc_starts v = tt
  following-IsNext (rule_sent done r todo) sdx_starts v = tt
  following-IsNext (rule_sent done r todo) lc_reads v = (
    asking-IsPhase (done ++ r ∷ []) todo (append_assoc done (r ∷ []) todo ∙ v),
    weight-asking (done ++ r ∷ []) todo,
  )
  following-IsNext (rule_sent done r todo) sdx_reads v = tt
  following-IsNext (rule_sent done r todo) lc_completes v = tt
  following-IsNext (complete_sent done) lc_starts v = tt
  following-IsNext (complete_sent done) sdx_starts v = tt
  following-IsNext (complete_sent done) lc_reads v = tt
  following-IsNext (complete_sent done) sdx_reads v = (v, refl)
  following-IsNext (complete_sent done) lc_completes v = (v, refl)
  following-IsNext (told done) lc_starts v = tt
  following-IsNext (told done) sdx_starts v = tt
  following-IsNext (told done) lc_reads v = tt
  following-IsNext (told done) sdx_reads v = (v, refl)
  following-IsNext (told done) lc_completes v = tt
  following-IsNext (untold done) lc_starts v = tt
  following-IsNext (untold done) sdx_starts v = tt
  following-IsNext (untold done) lc_reads v = tt
  following-IsNext (untold done) sdx_reads v = tt
  following-IsNext (untold done) lc_completes v = (v, refl)
  following-IsNext (transition_sent done) lc_starts v = tt
  following-IsNext (transition_sent done) sdx_starts v = tt
  following-IsNext (transition_sent done) lc_reads v = (v, refl)
  following-IsNext (transition_sent done) sdx_reads v = tt
  following-IsNext (transition_sent done) lc_completes v = tt
  following-IsNext (main_phase done) lc_starts v = tt
  following-IsNext (main_phase done) sdx_starts v = tt
  following-IsNext (main_phase done) lc_reads v = tt
  following-IsNext (main_phase done) sdx_reads v = tt
  following-IsNext (main_phase done) lc_completes v = tt

  abbrev pub run_all : List Move → Net L → Option (Net L)
  run_all = run initial_rules switch_id name has_callback

  abbrev pub phase_net : Phase L → Net L
  phase_net = net_of initial_rules switch_id name has_callback

  abbrev pub continue : List Move → Option (Net L) → Option (Net L)
  continue cs none = none
  continue cs (some n) = run_all cs n

  run-continue :
      (c : Move) (cs : List Move) (n : Net L)
      → run_all (c ∷ cs) n ≡ continue cs (step initial_rules switch_id name has_callback c n)
  unfolding run
  run-continue c cs n = elim (step initial_rules switch_id name has_callback c n) [
    | none ↦ refl
    | some n' ↦ refl
  ]

  abbrev pub map_phase : Option (Phase L) → Option (Net L)
  map_phase = map_net initial_rules switch_id name has_callback

  run-next :
      (c : Move) (cs : List Move) (p : Phase L)
      → run_all (c ∷ cs) (phase_net p) ≡ continue cs (map_phase (following p c))
  run-next c cs p =
      run-continue c cs (phase_net p)
      ∙ ap (continue cs) (step-net_of initial_rules switch_id name has_callback p c)

  more-IsReached : (k v w : ℕ) (n : Net L) → suc v ≡ w → IsReached k v n → IsReached (suc k) w n
  unfolding IsReached
  more-IsReached k v w n e (q, u, h, f) = (q, u, h, omega arith)

  -- a run goes on from the next phase, with what is known of the rest of the run
  continue-IsReached :
      (cs : List Move) (p : Phase L) (o : Option (Phase L))
      → IsNext p o
      → (n : Net L)
      → ((q : Phase L)
          → IsPhase q
          → run_all cs (phase_net q) ≡ some n
          → IsReached (length cs) (weight q) n)
      → continue cs (map_phase o) ≡ some n
      → IsReached (suc (length cs)) (weight p) n
  unfolding IsNext
  continue-IsReached cs p none v n rest e = ground (arith, e)
  continue-IsReached cs p (some q) v n rest e =
      more-IsReached (length cs) (weight q) (weight p) n v.1 (rest q v.0 e)

  pub run-IsReached :
      (cs : List Move) (p : Phase L)
      → IsPhase p
      → (n : Net L) → run_all cs (phase_net p) ≡ some n
      → IsReached (length cs) (weight p) n
  unfolding run IsReached
  run-IsReached [] p v n e = (p, v, cc, omega arith)
  run-IsReached (c ∷ cs) p v n e =
      continue-IsReached cs p (following p c) (following-IsNext p c v) n
        (λ q u h. run-IsReached cs q u n h) (sym (run-next c cs p) ∙ e)
