-- ===== src/Grin/Core/Recv/Witness.antt =====
-- What the signatures of apt_recv_coins give away (src/grin/grin_core.rs).
use mw_btc_swap.Prelude.{ℕ, ◌≡◌, ◌∙◌, sym, ap, Option, none, some, ok, unwrap_option}
use mw_btc_swap.Prelude.Results.{>>=-returns, ok_injective, some_of}
use mw_btc_swap.Prelude.Actions.{>>=-ok, lift->>=-ok}
use mw_btc_swap.Bitcoin.Crate.{BitcoinLib}
use mw_btc_swap.Grin.Crate.{GrinTypes, GrinCrate, Slate}
use mw_btc_swap.Grin.Routines.{GrinCore, sig_extract_s}
use mw_btc_swap.Grin.Core.{AptRecCoinsResult}
use mw_btc_swap.Grin.Core.Recv.{Received, sign_both, place_sig, receive_output, apt_recv_coins}
use mw_btc_swap.Grin.Core.Fin.{ext_witness}

-- A Schnorr signature with an extra secret has an s that is larger by this secret, and the
-- addition of secrets can be undone.
pub record Schnorr {lib : BitcoinLib} {t : GrinTypes} (g : GrinCrate lib t) : Type 0 where
  pub sign-extra :
      (m : t.Message) (k x : t.SecretKey) (n : Option t.SecretKey) (r q f : Option t.PublicKey)
      (sig apt : t.Signature)
      → g.sign_single m k n none r q f ≡ some sig
      → g.sign_single m k n (some x) r q f ≡ some apt
      → (s a : t.SecretKey) × (g.secret_from_slice (g.raw_s sig) ≡ some s)
        × (g.secret_from_slice (g.raw_s apt) ≡ some a)
        × (g.key_add_assign s x ≡ some a)
  pub add-neg :
      (s x a : t.SecretKey)
      → g.key_add_assign s x ≡ some a
      → (b : t.SecretKey) × (g.key_neg_assign s ≡ some b) × (g.key_add_assign a b ≡ some x)

module _ {lib : BitcoinLib} {t : GrinTypes} {g : GrinCrate lib t} (schnorr : Schnorr g) where
  -- From the s of the two signatures.
  difference :
      (sig apt : t.Signature) (s a x : t.SecretKey)
      → g.secret_from_slice (g.raw_s sig) ≡ some s
      → g.secret_from_slice (g.raw_s apt) ≡ some a
      → g.key_add_assign s x ≡ some a
      → ext_witness g sig apt ≡ ok x
  unfolding ext_witness sig_extract_s
  difference sig apt s a x is_s is_a adds =
      let (b, is_b, back) = schnorr.add-neg s x a adds in rw (is_a, is_s) (rw is_b (rw back))

  ext_witness-sign_both :
      (q : Received t) (x : t.SecretKey) {sigs : t.Signature × t.Signature}
      → sign_both g q x ≡ ok sigs
      → ext_witness g sigs.1 sigs.0 ≡ ok x
  unfolding sign_both
  ext_witness-sign_both q x {sigs} run =
      let (nonces, e2, run2) = >>=-returns (unwrap_option (g.pub_nonce_sum q.slate)) _ run in
      let (blinds, e3, run3) = >>=-returns (unwrap_option (g.pub_blind_sum q.slate)) _ run2 in
      let (msg, e4, run4) = >>=-returns (unwrap_option (g.msg_to_sign q.slate)) _ run3 in
      let (sig, e5, run5) = >>=-returns (unwrap_option _) _ run4 in
      let (apt, e6, run6) = >>=-returns (unwrap_option _) _ run5 in
      let same = ok_injective {b = sigs} run6 in
      let (k, a, is_s, is_a, adds) =
        schnorr.sign-extra msg q.out_coin_key x (some q.sig_nonce) (some nonces) (some blinds)
          (some nonces) sig apt (some_of _ e5) (some_of _ e6) in
      ap (λ (y : t.Signature × t.Signature). ext_witness g y.1 y.0) (sym same)
      ∙ difference sig apt k a x is_s is_a adds

  -- The two signatures of a run give away the secret of the run.
  pub ext_witness-apt_recv_coins :
      (slate : Slate t) (fund_value : ℕ) (x : t.SecretKey) (s : GrinCore t) {s' : GrinCore t}
      {r : AptRecCoinsResult t}
      → apt_recv_coins g slate fund_value x s ≡ (ok r, s')
      → ext_witness g r.prt_sig.1 r.prt_sig.0 ≡ ok x
  unfolding apt_recv_coins
  ext_witness-apt_recv_coins slate fund_value x s {r = r} run =
      let (q, s1, e1, run1) = >>=-ok (receive_output g slate fund_value) _ {s = s} run in
      let (sigs, e2, run2) = lift->>=-ok (sign_both g q x) _ {s = s1} run1 in
      let (signed, e3, run3) = lift->>=-ok (place_sig g q sigs.0) _ {s = s1} run2 in
      ap (λ y. ext_witness g y.prt_sig.1 y.prt_sig.0)
        (sym (ok_injective {b = r} (ap (λ y. y.0) run3)))
      ∙ ext_witness-sign_both q x e2
