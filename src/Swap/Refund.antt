-- ===== src/Swap/Refund.antt =====
-- src/swap/protocol.rs: the refund phase of the two parties.
pub mod Due
pub mod Reclaimed
use mw_btc_swap.Prelude.{
  Profile, unwrap_option, Bool, ℕ, codes, ℤ, Outcome, ok, panic, ltb, ◌^◌, if◌then◌else◌,
}
use mw_btc_swap.Prelude.Results.{◌>>=◌ as ◌>>=ₒ◌}
use mw_btc_swap.Prelude.Actions.{fail, lift, ◌>>=◌, ◌>>◌}
use mw_btc_swap.Constants.{btc_fee}
use mw_btc_swap.Enums.{failed}
use mw_btc_swap.Bitcoin.Crate.{BitcoinLib, PrivateKey}
use mw_btc_swap.Bitcoin.Routines.{Tx, create_spend_lock_transaction, get_lock_pub_script}
use mw_btc_swap.Bitcoin.Signing.{
  nth, sign_lock_transaction_refund, serialize_script, serialize_priv_key, deserialize_priv_key,
  serialize_pub_key, deserialize_pub_key,
}
use mw_btc_swap.Prelude.{false, some}
use mw_btc_swap.Grin.Ops.{GrinOps}
use mw_btc_swap.Swap.Types.{SwapSlate}
use mw_btc_swap.Swap.World.{Clients, Step, set_status, set_prv_btc, to_u64}
use mw_btc_swap.Swap.Calls.{push_grin, send_btc, get_slate, need, new_private_key}
use mw_btc_swap.Swap.Timing.{can_refund}

-- `u32::try_from(lock_time).unwrap()`
abbrev pub to_u32 : ℤ → Outcome ℕ
to_u32 z = to_u64 z >>=ₒ λ n. if ltb n (2 ^ 32) then ok n else panic

module _ (lib : BitcoinLib) where
  -- The other party's key, and one's own key and secret, as `refund_phase_swap_btc` reads them.
  pub record RefundKeys : Type 0 where
    pub pub_a : lib.PublicKey
    pub sk_b : PrivateKey lib.SecretKey
    pub x : PrivateKey lib.SecretKey

  -- The lock script of these keys, and its P2SH form.
  abbrev pub refund_lock_script : RefundKeys → ℤ → Bool → lib.Script
  refund_lock_script keys lock_time =
      get_lock_pub_script lib keys.pub_a (lib.public_key keys.x) (lib.public_key keys.sk_b)
        lock_time

module _ (lib : BitcoinLib) {GrinTx : Type 0} where
  unfoldable pub refund_keys : SwapSlate GrinTx → Outcome (RefundKeys lib)
  refund_keys slate = unwrap_option slate.pub_slate.btc.pub_a >>=ₒ λ pub_a_text.
      deserialize_pub_key lib pub_a_text >>=ₒ λ pub_a.
      unwrap_option slate.prv_slate.btc.sk >>=ₒ λ sk_text.
      deserialize_priv_key lib sk_text >>=ₒ λ sk_b.
      unwrap_option slate.prv_slate.btc.x >>=ₒ λ x_text.
      deserialize_priv_key lib x_text >>=ₒ λ x. ok (record { pub_a = pub_a; sk_b = sk_b; x = x })

  -- The signed refund transaction: the slate and the new key go into it.
  unfoldable pub signed_refund :
      Profile → SwapSlate GrinTx → PrivateKey lib.SecretKey → Outcome (Tx lib)
  signed_refund p slate sk = refund_keys slate >>=ₒ λ keys.
      unwrap_option slate.pub_slate.btc.lock_time >>=ₒ λ lock_time.
      unwrap_option slate.prv_slate.btc.lock >>=ₒ λ lock. to_u32 lock_time >>=ₒ λ height.
      create_spend_lock_transaction lib p (lib.public_key sk) lock slate.pub_slate.btc.amount
        btc_fee height
      >>=ₒ λ refund_tx. ok (
          sign_lock_transaction_refund lib refund_tx 0 (refund_lock_script lib keys lock_time false)
            keys.sk_b)

module _ {lib : BitcoinLib} {ops : GrinOps lib} (cl : Clients) where
  -- The branch of `refund_phase_swap_mw` in which the refund is due.
  unfoldable pub publish_refund_mw : Step lib ops Unit
  publish_refund_mw = do
    slate ← get_slate
    refund_tx ← need slate.prv_slate.mw.refund_tx
    push_grin cl refund_tx
    set_status failed

  unfoldable pub refund_phase_swap_mw : Step lib ops Unit
  refund_phase_swap_mw = do
    due ← can_refund cl
    if due then publish_refund_mw else fail (codes "Can't refund yet, too early")

  unfoldable pub publish_refund_btc : Step lib ops Unit
  publish_refund_btc = do
    sk ← new_private_key
    slate ← get_slate
    signed_tx ← lift (signed_refund lib cl.profile slate sk)
    send_btc cl signed_tx
    o ← lift (nth signed_tx.output 0)
    set_prv_btc (λ b. record b {
      refunded = some (record {
        txid = lib.txid_to_string (lib.txid signed_tx);
        vout = 0;
        value = o.value;
        secret = serialize_priv_key lib sk;
        pub_key = serialize_pub_key lib (lib.public_key sk);
        pub_script = serialize_script lib o.script_pubkey;
      });
    })
    set_status failed

  unfoldable pub refund_phase_swap_btc : Step lib ops Unit
  refund_phase_swap_btc = do
    due ← can_refund cl
    if due then publish_refund_btc else fail (codes "Can't refund yet, too early")
