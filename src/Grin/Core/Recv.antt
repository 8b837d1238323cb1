-- ===== src/Grin/Core/Recv.antt =====
-- src/grin/grin_core.rs: recv_coins and apt_recv_coins, which add the output of a receiver.
pub mod Balance
pub mod Witness
pub mod OutputCoin
use mw_btc_swap.Prelude.{ℕ, some, none, Outcome, ok, unwrap_option}
use mw_btc_swap.Prelude.Results.{◌>>=◌ as ◌>>=ₒ◌}
use mw_btc_swap.Prelude.Actions.{Action, pure, gets, lift, ◌>>=◌, ◌>>◌}
use mw_btc_swap.Bitcoin.Crate.{BitcoinLib}
use mw_btc_swap.Grin.Crate.{GrinTypes, GrinCrate, Slate}
use mw_btc_swap.Grin.Routines.{GrinCore, create_secret_key, need, create_minimal_ctx, new_coin}
use mw_btc_swap.Grin.Core.{
  RecvCoinsResult, AptRecCoinsResult, tx_or_empty, verify_outputs, set_part_sig, num_participants,
}

-- What both have after their first round: the slate with the output and this party's entry, and
-- the output's secrets.
pub record Received (t : GrinTypes) : Type 0 where
  pub slate : Slate t
  pub out_coin_key : t.SecretKey
  pub sig_nonce : t.SecretKey
  pub commitment : t.Commitment

module _ {lib : BitcoinLib} {t : GrinTypes} (g : GrinCrate lib t) where
  -- What is drawn, in this order.
  pub record RecvKeys : Type 0 where
    pub out_coin_key : t.SecretKey
    pub rew_nonce : t.SecretKey
    pub prf_nonce : t.SecretKey
    pub sig_nonce : t.SecretKey

  unfoldable pub draw_keys : Action (GrinCore t) RecvKeys
  unfolding create_secret_key
  draw_keys = do
    out_coin_key ← create_secret_key
    rew_nonce ← create_secret_key
    prf_nonce ← create_secret_key
    sig_nonce ← create_secret_key
    pure (record {
      out_coin_key = out_coin_key;
      rew_nonce = rew_nonce;
      prf_nonce = prf_nonce;
      sig_nonce = sig_nonce;
    })

  unfoldable pub build : RecvKeys → t.Keychain → Slate t → ℕ → Outcome (Received t)
  unfolding create_minimal_ctx
  build keys chain slate fund_value =
      unwrap_option (g.commit fund_value keys.out_coin_key) >>=ₒ λ commitment.
      unwrap_option (
        g.update_kernel (record slate {
          tx = some (
              g.with_output
                (record {
                  commit = commitment;
                  proof = g.bullet_proof fund_value keys.out_coin_key keys.rew_nonce keys.prf_nonce;
                })
                (tx_or_empty g slate.tx));
        }))
      >>=ₒ λ updated.
          unwrap_option (
            g.fill_round_1 chain
              (create_minimal_ctx g keys.out_coin_key keys.sig_nonce fund_value slate.fee_fields)
              updated)
          >>=ₒ λ filled. ok (record {
            slate = filled;
            out_coin_key = keys.out_coin_key;
            sig_nonce = keys.sig_nonce;
            commitment = commitment;
          })

  -- The common first part of the two functions.
  unfoldable pub receive_output : Slate t → ℕ → Action (GrinCore t) (Received t)
  receive_output slate fund_value = do
    lift (verify_outputs g (g.tx_outputs (tx_or_empty g slate.tx)))
    keys ← draw_keys
    chain ← gets (λ s. s.chain)
    lift (build keys chain slate fund_value)

  unfoldable pub recv_coins : Slate t → ℕ → Action (GrinCore t) (RecvCoinsResult t)
  recv_coins slate fund_value = do
    r ← receive_output slate fund_value
    chain ← gets (λ s. s.chain)
    signed ← need (g.fill_round_2 chain r.out_coin_key r.sig_nonce r.slate)
    pure
        (record { slate = signed; output_coin = new_coin g r.commitment r.out_coin_key fund_value })

  -- The two signatures of the kernel's message, the adapted one first.
  unfoldable pub sign_both : Received t → t.SecretKey → Outcome (t.Signature × t.Signature)
  sign_both r x = unwrap_option (g.pub_nonce_sum r.slate) >>=ₒ λ pub_nonce_sum.
      unwrap_option (g.pub_blind_sum r.slate) >>=ₒ λ pub_blind_sum.
      unwrap_option (g.msg_to_sign r.slate) >>=ₒ λ msg.
      unwrap_option (
        g.sign_single msg r.out_coin_key (some r.sig_nonce) none (some pub_nonce_sum)
          (some pub_blind_sum) (some pub_nonce_sum))
      >>=ₒ λ sig.
          unwrap_option (
            g.sign_single msg r.out_coin_key (some r.sig_nonce) (some x) (some pub_nonce_sum)
              (some pub_blind_sum) (some pub_nonce_sum))
          >>=ₒ λ apt_sig. ok (apt_sig, sig)

  -- The slate with the adapted signature in this party's entry, found by its key and nonce.
  unfoldable pub place_sig : Received t → t.Signature → Outcome (Slate t)
  unfolding set_part_sig
  place_sig r apt_sig = unwrap_option (g.from_secret_key r.out_coin_key) >>=ₒ λ pub_excess.
      unwrap_option (g.from_secret_key r.sig_nonce) >>=ₒ λ pub_nonce.
      set_part_sig g (num_participants g r.slate) pub_excess pub_nonce apt_sig
        r.slate.participant_data
      >>=ₒ λ entries. let slate = r.slate in ok (record slate { participant_data = entries })

  unfoldable pub apt_recv_coins :
      Slate t → ℕ → t.SecretKey → Action (GrinCore t) (AptRecCoinsResult t)
  apt_recv_coins slate fund_value x = do
    r ← receive_output slate fund_value
    prt_sig ← lift (sign_both r x)
    signed ← lift (place_sig r prt_sig.0)
    pure (record {
      slate = signed;
      output_coin = new_coin g r.commitment r.out_coin_key fund_value;
      prt_sig = prt_sig;
    })
