-- ===== src/Swap/Calls.antt =====
-- The calls that src/swap/protocol.rs makes on its clients and its stream, at the swap's state.
use mw_btc_swap.Prelude.{ℕ, Text, Option, ok, unwrap_option}
use mw_btc_swap.Prelude.Actions.{lift, gets, ◌>>=◌}
use mw_btc_swap.Net.Tcp.{send_msg, receive_msg}
use mw_btc_swap.Bitcoin.Crate.{BitcoinLib, PrivateKey}
use mw_btc_swap.Bitcoin.Core.{
  import_btc_address, get_address_final_balance, get_current_block_height, send_raw_transaction,
}
use mw_btc_swap.Bitcoin.Routines.{Tx, create_private_key}
use mw_btc_swap.Grin.Node.{get_block_height, push_transaction}
use mw_btc_swap.Grin.Ops.{GrinOps}
use mw_btc_swap.Swap.Types.{SwapSlate}
use mw_btc_swap.Swap.World.{Clients, Step, on_stream, on_wire, new_secret_key}

module _ {lib : BitcoinLib} {ops : GrinOps lib} (cl : Clients) where
  abbrev pub send : Text → Step lib ops Unit
  send msg = on_stream (send_msg cl.profile msg)

  abbrev pub receive : Step lib ops Text
  receive = on_stream (receive_msg cl.profile)

  -- `grin_core.get_block_height()` and `btc_core.get_current_block_height()`.
  abbrev pub grin_height : Step lib ops ℕ
  grin_height = on_wire (get_block_height cl.grin_json cl.grin_core)

  abbrev pub btc_height : Step lib ops ℕ
  btc_height = on_wire (get_current_block_height cl.btc_json cl.btc_core)

  abbrev pub push_grin : ops.Tx → Step lib ops Unit
  push_grin t = on_wire (push_transaction cl.grin_json cl.grin_core t)

  abbrev pub import_address : Text → Step lib ops Unit
  import_address addr = on_wire (import_btc_address cl.btc_json cl.btc_core addr)

  abbrev pub final_balance : Text → Step lib ops ℕ
  final_balance addr = on_wire (get_address_final_balance cl.btc_json cl.btc_core cl.profile addr)

  -- `hex::encode(tx.serialize())` is what `send_raw_transaction` sends.
  abbrev pub send_btc : Tx lib → Step lib ops Unit
  send_btc t =
      on_wire (send_raw_transaction cl.btc_json cl.btc_core (lib.hex_encode (lib.serialize t)))

module _ {lib : BitcoinLib} {ops : GrinOps lib} where
  abbrev pub get_slate : Step lib ops (SwapSlate ops.Tx)
  get_slate = gets (λ w. w.slate)

  -- `o.unwrap()` and the like.
  abbrev pub need : {A : Type 0} → Option A → Step lib ops A
  need o = lift (unwrap_option o)

  -- `create_private_key(rng)`
  abbrev pub new_private_key : Step lib ops (PrivateKey lib.SecretKey)
  new_private_key = do sk ← new_secret_key; lift (ok (create_private_key lib sk))
