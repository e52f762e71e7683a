-- ===== src/Connection/Handshake.antt =====
-- The two controllers of shared/SDXControllerConnectionManagerConnection.py while they connect: both
-- sides, and the messages under way in each direction of the TCP connection, which keeps their order.
use atlanticwave_proto.Prelude.{
  ℕ, String, Option, none, some, List, [], ◌∷◌, ◌++◌, Bool, true, false, ◌||◌,
}
use atlanticwave_proto.Connection.{Value}
use atlanticwave_proto.Connection.Message.{SdxMessage}
use atlanticwave_proto.Connection.Local.{
  LcSide, LcPoint, lc_idle, lc_await_request, lc_await_count, lc_await_rule, lc_await_transition,
  lc_completing, lc_begin, lc_complete, lc_receive,
}
use atlanticwave_proto.Connection.Sdx.{
  SdxSide, SdxPoint, sdx_idle, sdx_await_hello, sdx_await_capabilities, sdx_await_request,
  sdx_begin, sdx_receive,
}

pub record Net (L : Type 0) : Type 0 where
  pub lc : LcSide L
  pub sdx : SdxSide L
  pub to_lc : List (SdxMessage L)
  pub to_sdx : List (SdxMessage L)

-- What happens next: a side starts, or it takes the first message that is under way to it, or the
-- local controller goes on after it has sent that the rules are complete.
pub data Move : Type 0 where
  lc_starts sdx_starts lc_reads sdx_reads lc_completes : Move

abbrev pub lc_waits : {L : Type 0} → LcPoint L → Bool
lc_waits lc_await_request = true
lc_waits lc_await_count = true
lc_waits (lc_await_rule k) = true
lc_waits lc_await_transition = true
lc_waits _ = false

abbrev pub sdx_waits : {L : Type 0} → SdxPoint L → Bool
sdx_waits sdx_await_hello = true
sdx_waits (sdx_await_capabilities rules) = true
sdx_waits (sdx_await_request rules) = true
sdx_waits _ = false

module _ {L : Type 0} (initial_rules : Value L → List L) (switch_id : L → ℕ) (name : String)
    (has_callback : Bool) where
  -- the local controller's state and messages after a call
  abbrev pub lc_did : LcSide L × List (SdxMessage L) → Net L → Net L
  lc_did answer n = record n { lc = answer.0; to_sdx = n.to_sdx ++ answer.1 }

  abbrev pub sdx_did : SdxSide L × List (SdxMessage L) → Net L → Net L
  sdx_did answer n = record n { sdx = answer.0; to_lc = n.to_lc ++ answer.1 }

  abbrev pub lc_start : LcPoint L → Net L → Option (Net L)
  lc_start lc_idle n = some (lc_did (lc_begin name n.lc) n)
  lc_start _ n = none

  abbrev pub sdx_start : SdxPoint L → Net L → Option (Net L)
  sdx_start sdx_idle n = some (sdx_did (sdx_begin initial_rules switch_id n.sdx) n)
  sdx_start _ n = none

  abbrev pub lc_go_on : LcPoint L → Net L → Option (Net L)
  lc_go_on lc_completing n = some (lc_did (lc_complete has_callback n.lc) n)
  lc_go_on _ n = none

  abbrev pub lc_read : Bool → List (SdxMessage L) → Net L → Option (Net L)
  lc_read true (m ∷ ms) n = some (lc_did (lc_receive m n.lc) (record n { to_lc = ms }))
  lc_read _ _ n = none

  abbrev pub sdx_read : Bool → List (SdxMessage L) → Net L → Option (Net L)
  sdx_read true (m ∷ ms) n =
      some (sdx_did (sdx_receive initial_rules switch_id m n.sdx) (record n { to_sdx = ms }))
  sdx_read _ _ n = none

  -- `none`: the move is not possible now.
  unfoldable pub step : Move → Net L → Option (Net L)
  step lc_starts n = lc_start n.lc.lc_point n
  step sdx_starts n = sdx_start n.sdx.sdx_point n
  step lc_reads n = lc_read (lc_waits n.lc.lc_point) n.to_lc n
  step sdx_reads n = sdx_read (sdx_waits n.sdx.sdx_point) n.to_sdx n
  step lc_completes n = lc_go_on n.lc.lc_point n

  -- the network after some moves
  unfoldable pub run : List Move → Net L → Option (Net L)
  run [] n = some n
  run (c ∷ cs) n = elim (step c n) [ none ↦ none | some n' ↦ run cs n' ]

  abbrev pub is_some : Option (Net L) → Bool
  is_some none = false
  is_some (some n) = true

  -- some move is possible
  unfoldable pub can_move : Net L → Bool
  can_move n =
      is_some (step lc_starts n)
      || (is_some (step sdx_starts n)
          || (is_some (step lc_reads n)
              || (is_some (step sdx_reads n) || is_some (step lc_completes n))))

-- two new connection objects, and nothing under way
abbrev pub new_net : (L : Type 0) → Net L
new_net L = record {
  lc = record {
    lc_point = lc_idle;
    lc_state = "UNCONNECTED";
    lc_name = none;
    installed = [];
    completed = false;
  };
  sdx = record { sdx_point = sdx_idle; sdx_state = "UNCONNECTED"; sdx_name = none };
  to_lc = [];
  to_sdx = [];
}
