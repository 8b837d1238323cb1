-- ===== src/Grin/Protocols.antt =====
-- src/grin/grin_tx.rs: the protocols in which two parties make a Mimblewimble transaction, each
-- with a function for either party. A party has its keychain and its end of the TCP stream.
pub mod Shared
pub mod Spending
pub mod Contract
pub mod Messages
use mw_btc_swap.Prelude.{ℕ, Text, Option, some, none, List, true, unwrap, unwrap_option, Profile}
use mw_btc_swap.Prelude.Actions.{Action, pure, lift, after, ◌>>=◌, ◌>>◌}
use mw_btc_swap.Net.Tcp.{Stream, send_msg, receive_msg}
use mw_btc_swap.Bitcoin.Crate.{BitcoinLib}
use mw_btc_swap.Grin.Types.{MwCoin}
use mw_btc_swap.Grin.Crate.{GrinTypes, GrinCrate, Slate}
use mw_btc_swap.Grin.Routines.{GrinCore}
use mw_btc_swap.Grin.Ops.{DBuildMwTxResult}
use mw_btc_swap.Grin.Core.Spend.{spend_coins}
use mw_btc_swap.Grin.Core.Recv.{recv_coins}
use mw_btc_swap.Grin.Core.Fin.{fin_tx}

abbrev pub Party : GrinTypes → Type 0 → Type 0
Party t A = Action (GrinCore t × Stream) A

module _ {t : GrinTypes} {A : Type 0} where
  unfoldable pub on_core : Action (GrinCore t) A → Party t A
  on_core m s = let (r, core) = m s.0 in (r, (core, s.1))

  unfoldable pub on_line : Action Stream A → Party t A
  on_line m s = let (r, stream) = m s.1 in (r, (s.0, stream))

  -- `r.unwrap()`
  abbrev pub must : Option A → Party t A
  must o = lift (unwrap_option o)

module _ {lib : BitcoinLib} {t : GrinTypes} (g : GrinCrate lib t) (p : Profile) where
  -- `send_msg(stream, &serde_json::to_string(&slate).unwrap())`
  unfoldable pub send_slate : Slate t → Party t Unit
  send_slate slate = do text ← must (g.slate_to_text slate); on_line (send_msg p text)

  -- `receive_msg(stream)`
  unfoldable pub receive_text : Party t Text
  receive_text = on_line (receive_msg p)

  -- `Slate::deserialize_upgrade(&receive_msg(stream)).unwrap()`
  unfoldable pub receive_slate : Party t (Slate t)
  receive_slate = do text ← receive_text; must (g.deserialize_upgrade text)

  unfoldable pub dbuildmw_tx_alice : List MwCoin → ℕ → ℕ → Party t (DBuildMwTxResult (Slate t))
  dbuildmw_tx_alice inp fund_value timelock = do
    spend ← on_core (spend_coins g p inp fund_value timelock 2 2)
    send_slate spend.slate
    ptx2 ← receive_slate
    fin ← after unwrap (on_core (fin_tx g ptx2 spend.sig_key spend.sig_nonce true none none))
    send_slate fin
    pure (record { tx = fin; coin = spend.change_coin })

  unfoldable pub dbuild_mw_tx_bob : ℕ → Party t (DBuildMwTxResult (Slate t))
  dbuild_mw_tx_bob fund_value = do
    ptx ← receive_slate
    ptx2 ← after unwrap (on_core (recv_coins g ptx fund_value))
    send_slate ptx2.slate
    tx ← receive_slate
    pure (record { tx = tx; coin = some ptx2.output_coin })
