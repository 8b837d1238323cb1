-- ===== src/Grin/Core/Recv/OutputCoin.antt =====
-- The coin that apt_recv_coins returns (src/grin/grin_core.rs).
use mw_btc_swap.Prelude.{ℕ, ◌≡◌, ◌∙◌, sym, ap, some, ok, unwrap_option}
use mw_btc_swap.Prelude.Results.{>>=-returns, ok_injective, some_of}
use mw_btc_swap.Prelude.Actions.{>>=-ok, lift->>=-ok}
use mw_btc_swap.Bitcoin.Crate.{BitcoinLib}
use mw_btc_swap.Grin.Types.{MwCoin}
use mw_btc_swap.Grin.Crate.{GrinTypes, GrinCrate, Output, Slate}
use mw_btc_swap.Grin.Routines.{GrinCore, create_minimal_ctx, new_coin}
use mw_btc_swap.Grin.Core.{AptRecCoinsResult, tx_or_empty, verify_outputs}
use mw_btc_swap.Grin.Core.Recv.{
  Received, RecvKeys, draw_keys, build, receive_output, sign_both, place_sig, apt_recv_coins,
}

module _ {lib : BitcoinLib} {t : GrinTypes} (g : GrinCrate lib t) where
  -- A coin of this value, with its commitment and the key that opens it.
  abbrev pub IsCoin : ℕ → MwCoin → Type 0
  IsCoin value coin =
      (c : t.Commitment) × (k : t.SecretKey) × (g.commit value k ≡ some c)
      × (coin ≡ new_coin g c k value)

  build-commit :
      (keys : RecvKeys g) (chain : t.Keychain) (slate : Slate t) (fund_value : ℕ) {r : Received t}
      → build g keys chain slate fund_value ≡ ok r
      → g.commit fund_value r.out_coin_key ≡ some r.commitment
  unfolding build
  build-commit keys chain slate fund_value {r} run =
      let (c, e1, run1) =
        >>=-returns (unwrap_option (g.commit fund_value keys.out_coin_key)) _ run in
      let out : Output t = record {
        commit = c;
        proof = g.bullet_proof fund_value keys.out_coin_key keys.rew_nonce keys.prf_nonce;
      } in
      let with_out : Slate t = record slate {
        tx = some (g.with_output out (tx_or_empty g slate.tx));
      } in
      let (updated, e2, run2) = >>=-returns (unwrap_option (g.update_kernel with_out)) _ run1 in
      let ctx = create_minimal_ctx g keys.out_coin_key keys.sig_nonce fund_value slate.fee_fields in
      let (filled, e3, run3) =
        >>=-returns (unwrap_option (g.fill_round_1 chain ctx updated)) _ run2 in
      let same = ok_injective {b = r} run3 in
      ap (λ z. g.commit fund_value z.out_coin_key) (sym same)
      ∙ some_of _ e1
      ∙ ap (λ z. some z.commitment) same

  receive_output-commit :
      (slate : Slate t) (fund_value : ℕ) (s : GrinCore t) {s' : GrinCore t} {r : Received t}
      → receive_output g slate fund_value s ≡ (ok r, s')
      → g.commit fund_value r.out_coin_key ≡ some r.commitment
  unfolding receive_output
  receive_output-commit slate fund_value s run =
      let (checked, e1, run1) =
        lift->>=-ok (verify_outputs g (g.tx_outputs (tx_or_empty g slate.tx))) _ {s = s} run in
      let (keys, s1, e2, run2) = >>=-ok (draw_keys g) _ {s = s} run1 in
      build-commit keys s1.chain slate fund_value (ap (λ x. x.0) run2)

  pub apt_recv_coins-IsCoin :
      (slate : Slate t) (fund_value : ℕ) (x : t.SecretKey) (s : GrinCore t) {s' : GrinCore t}
      {r : AptRecCoinsResult t}
      → apt_recv_coins g slate fund_value x s ≡ (ok r, s')
      → IsCoin fund_value r.output_coin
  unfolding apt_recv_coins
  apt_recv_coins-IsCoin slate fund_value x s {r = r} run =
      let (q, s1, e1, run1) = >>=-ok (receive_output g slate fund_value) _ {s = s} run in
      let (sigs, e2, run2) = lift->>=-ok (sign_both g q x) _ {s = s1} run1 in
      let (signed, e3, run3) = lift->>=-ok (place_sig g q sigs.0) _ {s = s1} run2 in
      (
        q.commitment,
        q.out_coin_key,
        receive_output-commit slate fund_value s e1,
        ap (λ y. y.output_coin) (sym (ok_injective {b = r} (ap (λ y. y.0) run3))),
      )
