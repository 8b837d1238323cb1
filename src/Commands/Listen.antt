-- ===== src/Commands/Listen.antt =====
-- src/commands/cmd_types/listen.rs: the party that waits for the other.
pub mod Strangers
use mw_btc_swap.Prelude.{
  ℕ, Text, codes, text_eq, eq_ignore_ascii_case, Bool, true, false, not, ◌&&◌, List, [], ◌∷◌,
  Outcome, ok, ltb, Profile, add_u64, if◌then◌else◌,
}
use mw_btc_swap.Prelude.Results.{◌>>=◌ as ◌>>=ₒ◌}
use mw_btc_swap.Prelude.Actions.{pure, fail, lift, modify, ◌>>=◌, ◌>>◌}
use mw_btc_swap.Enums.{is_initialized, is_offered, is_setup}
use mw_btc_swap.Net.Tcp.{Stream}
use mw_btc_swap.Bitcoin.Crate.{BitcoinLib}
use mw_btc_swap.Bitcoin.Types.{BtcInput}
use mw_btc_swap.Grin.Types.{MwCoin}
use mw_btc_swap.Grin.Ops.{GrinOps}
use mw_btc_swap.Swap.Types.{SwapSlate}
use mw_btc_swap.Swap.World.{Clients, Step}
use mw_btc_swap.Swap.Calls.{send, receive, get_slate}
use mw_btc_swap.Swap.Locking.{locking_phase_swap_mw, locking_phase_swap_btc}
use mw_btc_swap.Swap.Execution.{exec_phase_swap_mw, exec_phase_swap_btc}
use mw_btc_swap.Swap.Refund.{refund_phase_swap_mw, refund_phase_swap_btc}

-- The loops over the imported inputs.
unfoldable pub grin_value : Profile → ℕ → List MwCoin → Outcome ℕ
grin_value p value [] = ok value
grin_value p value (inp ∷ rest) = add_u64 p value inp.value >>=ₒ λ sum. grin_value p sum rest

unfoldable pub btc_value : Profile → ℕ → List BtcInput → Outcome ℕ
btc_value p value [] = ok value
btc_value p value (inp ∷ rest) = add_u64 p value inp.value >>=ₒ λ sum. btc_value p sum rest

module _ {Tx : Type 0} where
  -- The value that is imported of the offered currency.
  abbrev pub imported_value : Profile → SwapSlate Tx → Outcome ℕ
  imported_value p slate =
      if is_offered slate.pub_slate.mw.swap_type
      then grin_value p 0 slate.prv_slate.mw.inputs
      else btc_value p 0 slate.prv_slate.btc.inputs

  abbrev pub from_amount : SwapSlate Tx → ℕ
  from_amount slate =
      if is_offered slate.pub_slate.mw.swap_type
      then slate.pub_slate.mw.amount
      else slate.pub_slate.btc.amount

module _ {lib : BitcoinLib} {ops : GrinOps lib} (cl : Clients) (checksum : Text) where
  -- The side of this party, which offers its currency: the opposite of that in Commands/Connect.
  abbrev by_side : Step lib ops Unit → Step lib ops Unit → Step lib ops Unit
  by_side btc mw = do
    slate ← get_slate
    if is_offered slate.pub_slate.btc.swap_type then btc else mw

  -- What the peer asks for, and whether the loop is left.
  unfoldable pub run_phase : Step lib ops Bool
  run_phase = do
    slate ← get_slate
    if is_initialized slate.pub_slate.status
        then (do by_side (locking_phase_swap_btc cl) (locking_phase_swap_mw cl); pure true)
        else if is_setup slate.pub_slate.status
        then (do
          msg ← receive cl
          if text_eq msg (codes "EXECUTE")
              then by_side (exec_phase_swap_btc cl) (exec_phase_swap_mw cl)
              else by_side (refund_phase_swap_btc cl) (refund_phase_swap_mw cl)
          pure true)
        else pure false

  -- One client: the checksum is compared, and answered.
  unfoldable pub serve_client : Step lib ops Bool
  serve_client = do
    msg ← receive cl
    if eq_ignore_ascii_case msg checksum
        then (do send cl (codes "OK"); run_phase)
        else (do send cl (codes "FAULT"); pure false)

  -- The loop over the clients that will connect; `false` where it still waits for another.
  unfoldable pub serve : List Stream → Step lib ops Bool
  serve [] = pure false
  serve (client ∷ clients) =
      let later = serve clients in
      do
        modify (λ w. record w { stream = client })
        left ← serve_client
        if left then pure true else later

  unfoldable pub listen : List Stream → Step lib ops Bool
  unfolding grin_value btc_value
  listen clients = do
    slate ← get_slate
    value ← lift (imported_value cl.profile slate)
    if not (is_setup slate.pub_slate.status) && ltb value (from_amount slate)
        then fail (codes "Not enough value in inputs, please import more Coins")
        else serve clients
