-- ===== src/Swap/Execution.antt =====
-- src/swap/protocol.rs: the execution phase of the two parties.
pub mod Late
pub mod Redeemed
pub mod Swapped
use mw_btc_swap.Prelude.{
  Option, Outcome, Profile, unwrap_option, codes, ok, false, some, sub_u64, if◌then◌else◌,
}
use mw_btc_swap.Prelude.Results.{◌>>=◌ as ◌>>=ₒ◌}
use mw_btc_swap.Prelude.Actions.{fail, lift, ◌>>=◌, ◌>>◌}
use mw_btc_swap.Constants.{btc_fee}
use mw_btc_swap.Enums.{executing, finished}
use mw_btc_swap.Bitcoin.Crate.{BitcoinLib, PrivateKey}
use mw_btc_swap.Bitcoin.Types.{new2}
use mw_btc_swap.Bitcoin.Routines.{Tx, create_spend_lock_transaction, get_lock_pub_script}
use mw_btc_swap.Bitcoin.Signing.{
  nth, sign_lock_transaction_redeemer, deserialize_priv_key, deserialize_pub_key,
  private_key_from_grin_sk,
}
use mw_btc_swap.Grin.Ops.{GrinOps, ContractMwResult}
use mw_btc_swap.Swap.Types.{SwapSlate}
use mw_btc_swap.Swap.World.{Clients, Step, on_grin, set_status, set_prv_btc, set_prv_mw}
use mw_btc_swap.Swap.Calls.{push_grin, send_btc, get_slate, need, new_private_key}
use mw_btc_swap.Swap.Timing.{check_if_enough_time}

-- The signed redeem transaction of `exec_phase_swap_mw`: the slate, the new key and the extracted
-- secret go into it. `x` is what the bytes of that secret are as a Bitcoin key.
module _ (lib : BitcoinLib) {GrinTx : Type 0} where
  unfoldable pub signed_redeem :
      Profile
      → SwapSlate GrinTx
      → PrivateKey lib.SecretKey
      → Option lib.SecretKey
      → Outcome (Tx lib)
  signed_redeem p slate sk_a2 x = unwrap_option slate.pub_slate.btc.pub_a >>=ₒ λ pub_a_text.
      deserialize_pub_key lib pub_a_text >>=ₒ λ pub_a.
      unwrap_option slate.pub_slate.btc.pub_b >>=ₒ λ pub_b_text.
      deserialize_pub_key lib pub_b_text >>=ₒ λ pub_b.
      unwrap_option slate.pub_slate.btc.pub_x >>=ₒ λ pub_x_text.
      deserialize_pub_key lib pub_x_text >>=ₒ λ pub_x. private_key_from_grin_sk lib x >>=ₒ λ x_btc.
      unwrap_option slate.prv_slate.btc.sk >>=ₒ λ sk_text.
      deserialize_priv_key lib sk_text >>=ₒ λ sk_a.
      unwrap_option slate.prv_slate.btc.lock >>=ₒ λ lock.
      create_spend_lock_transaction lib p (lib.public_key sk_a2) lock slate.pub_slate.btc.amount
        btc_fee 0
      >>=ₒ λ redeem_tx. unwrap_option slate.pub_slate.btc.lock_time >>=ₒ λ lock_time. ok (
          sign_lock_transaction_redeemer lib redeem_tx 0
            (get_lock_pub_script lib pub_a pub_x pub_b lock_time false) sk_a x_btc)

module _ {lib : BitcoinLib} {ops : GrinOps lib} (cl : Clients) where
  -- The redeem transaction of `exec_phase_swap_mw`, from the new keypair on; `x_grin` is the value
  -- that the contract protocol has extracted.
  unfoldable pub redeem_btc : ops.SecretKey → Step lib ops Unit
  redeem_btc x_grin = do
    sk_a2 ← new_private_key
    slate ← get_slate
    signed_redeem_tx ← lift (signed_redeem lib cl.profile slate sk_a2 (ops.sk_to_btc x_grin))
    o ← lift (nth signed_redeem_tx.output 0)
    send_btc cl signed_redeem_tx
    set_prv_btc (λ b. record b {
      swapped = some (
          new2 lib (lib.txid_to_string (lib.txid signed_redeem_tx)) 0 o.value sk_a2
            (lib.public_key sk_a2) o.script_pubkey);
    })
    set_status finished

  -- The branch of `exec_phase_swap_mw` in which enough time is left.
  unfoldable pub execute_mw : Step lib ops Unit
  unfolding redeem_btc
  execute_mw = do
    set_status executing
    slate ← get_slate
    shared_coin ← need slate.prv_slate.mw.shared_coin
    pub_x_text ← need slate.pub_slate.btc.pub_x
    pub_x ← lift (deserialize_pub_key lib pub_x_text)
    pub_x_grin ← need (ops.pk_from_btc pub_x)
    fund_value ← lift (sub_u64 cl.profile shared_coin.value (ops.tx_fee 1 1 1))
    result ← on_grin (ops.dcontract_mw_tx_alice shared_coin fund_value 0 pub_x_grin)
    redeem_btc result.x

  unfoldable pub exec_phase_swap_mw : Step lib ops Unit
  exec_phase_swap_mw = do
    enough ← check_if_enough_time cl
    if enough then execute_mw else fail (codes "Not enough time left to execute atomic swap")

  -- What `exec_phase_swap_btc` does with the result of the contract protocol.
  unfoldable pub publish_mw : ContractMwResult ops.Slate ops.SecretKey → Step lib ops Unit
  publish_mw result = do
    set_prv_mw (λ m. record m { swapped_coin = result.coin })
    tx ← need (ops.slate_tx result.tx)
    push_grin cl tx
    set_status finished

  unfoldable pub execute_btc : Step lib ops Unit
  execute_btc = do
    set_status executing
    slate ← get_slate
    shared_coin ← need slate.prv_slate.mw.shared_coin
    x_text ← need slate.prv_slate.btc.x
    x ← lift (deserialize_priv_key lib x_text)
    x_grin ← need (ops.sk_from_btc x.key)
    fund_value ← lift (sub_u64 cl.profile shared_coin.value (ops.tx_fee 1 1 1))
    result ← on_grin (ops.dcontract_mw_tx_bob shared_coin fund_value 0 x_grin)
    publish_mw result

  unfoldable pub exec_phase_swap_btc : Step lib ops Unit
  exec_phase_swap_btc = do
    enough ← check_if_enough_time cl
    if enough then execute_btc else fail (codes "Not enough time left to execute atomic swap")
