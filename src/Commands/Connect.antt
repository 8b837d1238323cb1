-- ===== src/Commands/Connect.antt =====
-- src/commands/cmd_types/{lock, execute, cancel}.rs: the party that connects to the other. Each
-- sends the checksum of the public slate, waits for OK, and runs its phase.
pub mod Disagreement
pub mod Handshake
use mw_btc_swap.Prelude.{Text, codes, eq_ignore_ascii_case, not, if◌then◌else◌}
use mw_btc_swap.Prelude.Actions.{fail, ◌>>=◌, ◌>>◌}
use mw_btc_swap.Enums.{is_initialized, is_offered, is_setup}
use mw_btc_swap.Bitcoin.Crate.{BitcoinLib}
use mw_btc_swap.Grin.Ops.{GrinOps}
use mw_btc_swap.Swap.World.{Clients, Step}
use mw_btc_swap.Swap.Calls.{send, receive, get_slate}
use mw_btc_swap.Swap.Locking.{locking_phase_swap_mw, locking_phase_swap_btc}
use mw_btc_swap.Swap.Execution.{exec_phase_swap_mw, exec_phase_swap_btc}
use mw_btc_swap.Swap.Refund.{refund_phase_swap_mw, refund_phase_swap_btc}

-- The slate is read and the peer connected before; `checksum` is that of the public file.
module _ {lib : BitcoinLib} {ops : GrinOps lib} (cl : Clients) (checksum : Text) where
  -- The phase of the side on which this party is: it was offered the other currency.
  abbrev by_side : Step lib ops Unit → Step lib ops Unit → Step lib ops Unit
  by_side mw btc = do
    slate ← get_slate
    if is_offered slate.pub_slate.btc.swap_type then mw else btc

  unfoldable pub lock : Step lib ops Unit
  lock = do
    send cl checksum
    resp ← receive cl
    if not (eq_ignore_ascii_case resp (codes "OK"))
        then fail (codes "Checksums didn't match!")
        else (do
          slate ← get_slate
          if not (is_initialized slate.pub_slate.status)
              then fail (codes "Slate is not in initialized state!")
              else by_side (locking_phase_swap_mw cl) (locking_phase_swap_btc cl))

  unfoldable pub execute : Step lib ops Unit
  execute = do
    send cl checksum
    resp ← receive cl
    if not (eq_ignore_ascii_case resp (codes "OK"))
        then fail (codes "Checksums didn't match")
        else (do
          slate ← get_slate
          if not (is_setup slate.pub_slate.status)
              then fail (codes "Slate must be in state SETUP to be executed")
              else (do
                send cl (codes "EXECUTE")
                by_side (exec_phase_swap_mw cl) (exec_phase_swap_btc cl)))

  unfoldable pub cancel : Step lib ops Unit
  cancel = do
    send cl checksum
    resp ← receive cl
    if not (eq_ignore_ascii_case resp (codes "OK"))
        then fail (codes "Checksums didn't match")
        else (do
          slate ← get_slate
          if not (is_setup slate.pub_slate.status)
              then fail (codes "Slate must be in state SETUP to be executed")
              else (do
                send cl (codes "CANCEL")
                by_side (refund_phase_swap_mw cl) (refund_phase_swap_btc cl)))
