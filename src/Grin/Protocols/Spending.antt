-- ===== src/Grin/Protocols/Spending.antt =====
-- src/grin/grin_tx.rs: dshared_inp_mw_tx, in which both parties spend an input that they share.
use mw_btc_swap.Prelude.{ℕ, some, none, [], ◌∷◌, true, false, unwrap, Profile}
use mw_btc_swap.Prelude.Actions.{pure, gets, after, ◌>>=◌, ◌>>◌}
use mw_btc_swap.Bitcoin.Crate.{BitcoinLib}
use mw_btc_swap.Grin.Types.{MwCoin}
use mw_btc_swap.Grin.Crate.{GrinTypes, GrinCrate, Slate}
use mw_btc_swap.Grin.Ops.{DBuildMwTxResult}
use mw_btc_swap.Grin.Core.Spend.{spend_coins}
use mw_btc_swap.Grin.Core.Joint.{d_spend_coins}
use mw_btc_swap.Grin.Core.Recv.{recv_coins}
use mw_btc_swap.Grin.Core.Fin.{fin_tx}
use mw_btc_swap.Grin.Protocols.{Party, on_core, must, send_slate, receive_slate}

module _ {lib : BitcoinLib} {t : GrinTypes} (g : GrinCrate lib t) (p : Profile) where
  unfoldable pub dshared_inp_mw_tx_alice : MwCoin → ℕ → ℕ → Party t (DBuildMwTxResult (Slate t))
  dshared_inp_mw_tx_alice inp fund_value timelock = do
    spend ← on_core (spend_coins g p (inp ∷ []) fund_value timelock 1 3)
    send_slate g p spend.slate
    bob_ptx ← receive_slate g p
    ptx2 ← must (g.update_kernel bob_ptx)
    fin_slate ← on_core (fin_tx g ptx2 spend.sig_key spend.sig_nonce true none none)
    send_slate g p fin_slate
    pure (record { tx = fin_slate; coin = spend.change_coin })

  unfoldable pub dshared_inp_mw_tx_bob : MwCoin → ℕ → ℕ → Party t (DBuildMwTxResult (Slate t))
  dshared_inp_mw_tx_bob inp fund_value timelock = do
    ptx ← receive_slate g p
    spend ← on_core (d_spend_coins g (inp ∷ []) ptx fund_value timelock)
    recv ← on_core (recv_coins g spend.slate fund_value)
    fin_result ←
        after unwrap (on_core (fin_tx g recv.slate spend.sig_key spend.sig_nonce false none none))
    send_slate g p fin_result
    alice_slate ← receive_slate g p
    fin_slate ← must (g.update_kernel alice_slate)
    chain ← gets (λ s. s.0.chain)
    tx ← must (g.finalize chain fin_slate)
    pure (record { tx = tx; coin = some recv.output_coin })
