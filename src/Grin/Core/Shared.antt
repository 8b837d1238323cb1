-- ===== src/Grin/Core/Shared.antt =====
-- src/grin/grin_core.rs: the three rounds in which two receivers make an output that they share.
use mw_btc_swap.Prelude.{ℕ, some}
use mw_btc_swap.Prelude.Actions.{Action, pure, gets, lift, ◌>>=◌, ◌>>◌}
use mw_btc_swap.Bitcoin.Crate.{BitcoinLib}
use mw_btc_swap.Grin.Crate.{GrinTypes, GrinCrate, Slate}
use mw_btc_swap.Grin.Routines.{
  MpbpContext, GrinCore, create_secret_key, need, create_minimal_ctx, new_coin, new, add_commit,
  mp_bullet_proof_r1, mp_bullet_proof_r2, mp_bullet_proof_fin,
}
use mw_btc_swap.Grin.Core.{RecvCoinsResult, DRecvCoinsResult, tx_or_empty, verify_outputs}

module _ {lib : BitcoinLib} {t : GrinTypes} (g : GrinCrate lib t) where
  unfoldable pub drecv_coins_r1 : Slate t → ℕ → Action (GrinCore t) (DRecvCoinsResult t)
  drecv_coins_r1 slate fund_value = do
    lift (verify_outputs g (g.tx_outputs (tx_or_empty g slate.tx)))
    out_coin_blind ← create_secret_key
    shared_nonce ← create_secret_key
    prf_nonce ← create_secret_key
    sig_nonce ← create_secret_key
    chain ← gets (λ s. s.chain)
    filled ← need (
        g.fill_round_1 chain
          (create_minimal_ctx g out_coin_blind sig_nonce fund_value slate.fee_fields) slate)
    commitment ← need (g.commit fund_value out_coin_blind)
    prf_ctx ←
        mp_bullet_proof_r1 g (new g shared_nonce fund_value commitment) out_coin_blind prf_nonce
    pure (record {
      slate = filled;
      out_key_blind = out_coin_blind;
      sig_nonce = sig_nonce;
      prf_nonce = prf_nonce;
      prf_ctx = prf_ctx;
    })

  unfoldable pub drecv_coins_r2 :
      Slate t → ℕ → MpbpContext t → Action (GrinCore t) (RecvCoinsResult t × MpbpContext t)
  drecv_coins_r2 slate fund_value prf_ctx = do
    lift (verify_outputs g (g.tx_outputs (tx_or_empty g slate.tx)))
    out_coin_blind ← create_secret_key
    prf_nonce ← create_secret_key
    sig_nonce ← create_secret_key
    share ← need (g.commit 0 out_coin_blind)
    ctx ← lift (add_commit g share prf_ctx)
    ctx1 ← mp_bullet_proof_r1 g ctx out_coin_blind prf_nonce
    ctx2 ← mp_bullet_proof_r2 g ctx1 out_coin_blind prf_nonce
    chain ← gets (λ s. s.chain)
    filled ← need (
        g.fill_round_1 chain
          (create_minimal_ctx g out_coin_blind sig_nonce fund_value slate.fee_fields) slate)
    signed ← need (g.fill_round_2 chain out_coin_blind sig_nonce filled)
    pure (
      record { slate = signed; output_coin = new_coin g ctx2.commit out_coin_blind fund_value },
      ctx2,
    )

  unfoldable pub drecv_coins_r3 :
      Slate t
      → MpbpContext t
      → t.SecretKey
      → t.SecretKey
      → t.SecretKey
      → Action (GrinCore t) (RecvCoinsResult t)
  drecv_coins_r3 slate prf_ctx out_coin_blind prf_nonce sig_nonce = do
    ctx ← mp_bullet_proof_r2 g prf_ctx out_coin_blind prf_nonce
    proof ← lift (mp_bullet_proof_fin g ctx out_coin_blind prf_nonce)
    tx ← need slate.tx
    chain ← gets (λ s. s.chain)
    signed ← need (
        g.fill_round_2 chain out_coin_blind sig_nonce (record slate {
          tx = some (g.with_output (record { commit = prf_ctx.commit; proof = proof }) tx);
        }))
    updated ← need (g.update_kernel signed)
    pure (record {
      slate = updated;
      output_coin = new_coin g prf_ctx.commit out_coin_blind prf_ctx.amount;
    })
