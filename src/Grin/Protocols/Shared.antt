-- ===== src/Grin/Protocols/Shared.antt =====
-- src/grin/grin_tx.rs: dshared_out_mw_tx, which makes an output that both parties share.
use mw_btc_swap.Prelude.{ℕ, none, List, true, unwrap, Profile}
use mw_btc_swap.Prelude.Actions.{pure, lift, after, ◌>>=◌, ◌>>◌}
use mw_btc_swap.Net.Tcp.{send_msg}
use mw_btc_swap.Bitcoin.Crate.{BitcoinLib}
use mw_btc_swap.Grin.Types.{MwCoin}
use mw_btc_swap.Grin.Crate.{GrinTypes, GrinCrate, Slate}
use mw_btc_swap.Grin.Routines.{to_string, from_string}
use mw_btc_swap.Grin.Ops.{DSharedOutMwTxResult}
use mw_btc_swap.Grin.Core.Spend.{spend_coins}
use mw_btc_swap.Grin.Core.Shared.{drecv_coins_r1, drecv_coins_r2, drecv_coins_r3}
use mw_btc_swap.Grin.Core.Fin.{fin_tx}
use mw_btc_swap.Grin.Protocols.{
  Party, on_core, on_line, must, send_slate, receive_text, receive_slate,
}

module _ {lib : BitcoinLib} {t : GrinTypes} (g : GrinCrate lib t) (p : Profile) where
  unfoldable pub dshared_out_mw_tx_alice :
      List MwCoin → ℕ → ℕ → Party t (DSharedOutMwTxResult (Slate t))
  dshared_out_mw_tx_alice inp fund_value timelock = do
    spend ← after unwrap (on_core (spend_coins g p inp fund_value timelock 2 3))
    recv ← after unwrap (on_core (drecv_coins_r1 g spend.slate fund_value))
    send_slate g p recv.slate
    prf_text ← lift (to_string g recv.prf_ctx)
    on_line (send_msg p prf_text)
    bob_msg ← receive_text g p
    bob_msg2 ← receive_text g p
    ptx2 ← must (g.deserialize_upgrade bob_msg)
    prf_ctx ← lift (from_string g bob_msg2)
    shared ←
        after unwrap
          (on_core (drecv_coins_r3 g ptx2 prf_ctx recv.out_key_blind recv.prf_nonce recv.sig_nonce))
    fin_slate ←
        after unwrap (on_core (fin_tx g shared.slate spend.sig_key spend.sig_nonce true none none))
    send_slate g p fin_slate
    pure (record {
      tx = fin_slate;
      change_coin = spend.change_coin;
      shared_coin = shared.output_coin;
    })

  unfoldable pub dshared_out_mw_tx_bob : ℕ → Party t (DSharedOutMwTxResult (Slate t))
  dshared_out_mw_tx_bob fund_value = do
    alice_msg1 ← receive_text g p
    alice_msg2 ← receive_text g p
    ptx ← must (g.deserialize_upgrade alice_msg1)
    prf_ctx ← lift (from_string g alice_msg2)
    recv ← on_core (drecv_coins_r2 g ptx fund_value prf_ctx)
    ptx2 ← must (g.slate_to_text recv.0.slate)
    prf_ctx2 ← lift (to_string g recv.1)
    on_line (send_msg p ptx2)
    on_line (send_msg p prf_ctx2)
    tx ← receive_slate g p
    pure (record { tx = tx; change_coin = none; shared_coin = recv.0.output_coin })
