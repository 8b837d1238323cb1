-- ===== src/Grin/Protocols/Contract.antt =====
-- src/grin/grin_tx.rs: dcontract_mw_tx, in which spending the shared input gives the secret x of
-- one party to the other.
pub mod Revealed
pub mod Paid
use mw_btc_swap.Prelude.{ℕ, Option, some, none, List, [], ◌∷◌, true, false, Profile}
use mw_btc_swap.Prelude.Actions.{pure, lift, ◌>>=◌, ◌>>◌}
use mw_btc_swap.Bitcoin.Crate.{BitcoinLib}
use mw_btc_swap.Grin.Types.{MwCoin}
use mw_btc_swap.Grin.Crate.{GrinTypes, GrinCrate, Slate}
use mw_btc_swap.Grin.Ops.{ContractMwResult}
use mw_btc_swap.Grin.Core.{SpendCoinsResult}
use mw_btc_swap.Grin.Core.Spend.{spend_coins}
use mw_btc_swap.Grin.Core.Joint.{d_spend_coins}
use mw_btc_swap.Grin.Core.Recv.{apt_recv_coins}
use mw_btc_swap.Grin.Core.Fin.{fin_tx, ext_witness}
use mw_btc_swap.Grin.Protocols.{Party, on_core, must, send_slate, receive_slate}

-- `participant_data.get(2)`
abbrev third : {A : Type 0} → List A → Option A
third (a ∷ b ∷ c ∷ rest) = some c
third entries = none

-- `slate.participant_data.get(2).unwrap().part_sig.unwrap()`
abbrev pub sig_of_bob : {t : GrinTypes} → Slate t → Option t.Signature
sig_of_bob slate = elim (third slate.participant_data) [ none ↦ none | some e ↦ e.part_sig ]

module _ {lib : BitcoinLib} {t : GrinTypes} (g : GrinCrate lib t) (p : Profile) where
  -- Alice's part from Bob's first answer on.
  unfoldable pub alice_finishes :
      t.PublicKey → SpendCoinsResult t → Slate t → Party t (ContractMwResult (Slate t) t.SecretKey)
  alice_finishes pub_x spend ptx2 = do
    apt_sig_bob ← must (sig_of_bob ptx2)
    fin_tx_result ← on_core (fin_tx g ptx2 spend.sig_key spend.sig_nonce false (some pub_x) none)
    send_slate g p fin_tx_result
    final_slate ← receive_slate g p
    sig_bob ← must (sig_of_bob final_slate)
    x ← lift (ext_witness g sig_bob apt_sig_bob)
    pure (record { tx = final_slate; coin = spend.change_coin; x = x })

  unfoldable pub dcontract_mw_tx_alice :
      MwCoin → ℕ → ℕ → t.PublicKey → Party t (ContractMwResult (Slate t) t.SecretKey)
  dcontract_mw_tx_alice inp fund_value timelock pub_x = do
    spend ← on_core (spend_coins g p (inp ∷ []) fund_value timelock 1 3)
    send_slate g p spend.slate
    ptx2 ← receive_slate g p
    alice_finishes pub_x spend ptx2

  unfoldable pub dcontract_mw_tx_bob :
      MwCoin → ℕ → ℕ → t.SecretKey → Party t (ContractMwResult (Slate t) t.SecretKey)
  dcontract_mw_tx_bob inp fund_value timelock x = do
    ptx ← receive_slate g p
    spend ← on_core (d_spend_coins g (inp ∷ []) ptx fund_value timelock)
    recv ← on_core (apt_recv_coins g spend.slate fund_value x)
    send_slate g p recv.slate
    ptx3 ← receive_slate g p
    fin_tx_result ←
        on_core (fin_tx g ptx3 spend.sig_key spend.sig_nonce true none (some recv.prt_sig))
    send_slate g p fin_tx_result
    pure (record { tx = fin_tx_result; coin = some recv.output_coin; x = x })
