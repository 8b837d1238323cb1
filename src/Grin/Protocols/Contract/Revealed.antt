-- ===== src/Grin/Protocols/Contract/Revealed.antt =====
-- The secret that dcontract_mw_tx reveals to Alice (src/grin/grin_tx.rs).
use mw_btc_swap.Prelude.{
  ℕ, Text, ◌≡◌, ◌∙◌, sym, ap, true, false, none, some, List, [], ◌∷◌, ok, Profile,
}
use mathlib.Core.Path.{subst}
use mw_btc_swap.Prelude.Results.{ok_injective, some_injective}
use mw_btc_swap.Prelude.Actions.{>>=-ok, lift->>=-ok, need->>=-ok}
use mw_btc_swap.Net.Tcp.{Arrival, Stream, ack}
use mw_btc_swap.Net.Tcp.Utf8.{is_utf8}
use mw_btc_swap.Net.Tcp.Framing.{Carries}
use mw_btc_swap.Bitcoin.Crate.{BitcoinLib}
use mw_btc_swap.Grin.Types.{MwCoin}
use mw_btc_swap.Grin.Crate.{GrinTypes, GrinCrate, Slate}
use mw_btc_swap.Grin.Routines.{GrinCore}
use mw_btc_swap.Grin.Ops.{ContractMwResult}
use mw_btc_swap.Grin.Core.{SpendCoinsResult, AptRecCoinsResult}
use mw_btc_swap.Grin.Core.Spend.{spend_coins}
use mw_btc_swap.Grin.Core.Recv.{apt_recv_coins}
use mw_btc_swap.Grin.Core.Recv.Witness.{Schnorr, ext_witness-apt_recv_coins}
use mw_btc_swap.Grin.Core.Fin.{fin_tx, ext_witness}
use mw_btc_swap.Grin.Protocols.{on_core, send_slate, receive_slate}
use mw_btc_swap.Grin.Protocols.Messages.{on_core-stream, send_slate-heard, receive_slate-heard}
use mw_btc_swap.Grin.Protocols.Contract.{sig_of_bob, alice_finishes, dcontract_mw_tx_alice}

-- Two lines that arrive, each behind an acknowledgement.
pub record Answers (m1 m2 : Text) (incoming : List Arrival) : Type 0 where
  pub r0 : List Arrival
  pub r1 : List Arrival
  pub r2 : List Arrival
  pub r3 : List Arrival
  pub ack1 : Carries ack incoming r0
  pub line1 : Carries m1 r0 r1
  pub ack2 : Carries ack r1 r2
  pub line2 : Carries m2 r2 r3

module _ {lib : BitcoinLib} {t : GrinTypes} (g : GrinCrate lib t) (p : Profile) where
  -- From the first answer on, with the second answer read.
  alice_finishes-x :
      (pub_x : t.PublicKey) (spend : SpendCoinsResult t) (ptx2 : Slate t) (s : GrinCore t × Stream)
      {s' : GrinCore t × Stream} {r : ContractMwResult (Slate t) t.SecretKey}
      {r1 r2 r3 : List Arrival} (m2 : Text) (slate2 : Slate t) (apt sig : t.Signature)
      → s.1.incoming ≡ r1
      → Carries ack r1 r2
      → Carries m2 r2 r3
      → is_utf8 m2 ≡ true
      → g.deserialize_upgrade m2 ≡ some slate2
      → sig_of_bob ptx2 ≡ some apt
      → sig_of_bob slate2 ≡ some sig
      → alice_finishes g p pub_x spend ptx2 s ≡ (ok r, s')
      → (ext_witness g sig apt ≡ ok r.x) × (r.tx ≡ slate2)
  unfolding alice_finishes
  alice_finishes-x pub_x spend ptx2 s {r = r} {r1} {r2} {r3} m2 slate2 apt sig left ack2 line2
        valid2 reads2 sig1 sig2 run =
      let (apt', e4, run4) = need->>=-ok (sig_of_bob ptx2) _ {s = s} run in
      let sign = fin_tx g ptx2 spend.sig_key spend.sig_nonce false (some pub_x) none in
      let (fin, s5, e5, run5) = >>=-ok (on_core sign) _ {s = s} run4 in
      let (sent, s6, e6, run6) = >>=-ok (send_slate g p fin) _ {s = s5} run5 in
      let (final, s7, e7, run7) = >>=-ok (receive_slate g p) _ {s = s6} run6 in
      let (sig', e8, run8) = need->>=-ok (sig_of_bob final) _ {s = s7} run7 in
      let (y, e9, run9) = lift->>=-ok (ext_witness g sig' apt') _ {s = s7} run8 in
      let q5 : s5.1.incoming ≡ r1 = ap (λ z. z.incoming) (on_core-stream sign s e5) ∙ left in
      let q6 = send_slate-heard g p s5 fin (subst (λ z. Carries ack z r2) (sym q5) ack2) e6 in
      let (same, q7) =
        receive_slate-heard g p s6 (subst (λ z. Carries m2 z r3) (sym q6) line2) valid2 reads2 e7 in
      let same_apt = some_injective (sym sig1 ∙ e4) in
      let same_sig = some_injective (sym sig2 ∙ ap sig_of_bob (sym same) ∙ e8) in
      let returned = ok_injective {b = r} (ap (λ z. z.0) run9) in
      (
        ap (λ z. ext_witness g z apt) same_sig
            ∙ ap (ext_witness g sig') same_apt
            ∙ e9
            ∙ ap (λ z. ok z.x) returned,
        ap (λ z. z.tx) (sym returned) ∙ same,
      )

  -- Where the two slates that Alice hears, each in a line of valid UTF-8 behind an
  -- acknowledgement, carry in the third entry the adapted signature and then the plain one of a
  -- run of apt_recv_coins with the secret x: if her part of the contract succeeds, it returns this
  -- x and the second slate. The addition of secrets can be undone, and an extra secret is added to
  -- the s of a signature.
  pub dcontract_mw_tx_alice-x :
      (schnorr : Schnorr g) (inp : MwCoin) (fund_value timelock : ℕ) (pub_x : t.PublicKey)
      (s : GrinCore t × Stream) {s' : GrinCore t × Stream}
      {r : ContractMwResult (Slate t) t.SecretKey} (m1 m2 : Text) (slate1 slate2 bobs : Slate t)
      (value : ℕ) (x : t.SecretKey) (b : GrinCore t) {b' : GrinCore t} {bob : AptRecCoinsResult t}
      → Answers m1 m2 (s.1.incoming)
      → is_utf8 m1 ≡ true
      → is_utf8 m2 ≡ true
      → g.deserialize_upgrade m1 ≡ some slate1
      → g.deserialize_upgrade m2 ≡ some slate2
      → apt_recv_coins g bobs value x b ≡ (ok bob, b')
      → sig_of_bob slate1 ≡ some (bob.prt_sig.0)
      → sig_of_bob slate2 ≡ some (bob.prt_sig.1)
      → dcontract_mw_tx_alice g p inp fund_value timelock pub_x s ≡ (ok r, s')
      → (r.x ≡ x) × (r.tx ≡ slate2)
  unfolding dcontract_mw_tx_alice
  dcontract_mw_tx_alice-x schnorr inp fund_value timelock pub_x s m1 m2 slate1 slate2 bobs value x b
        {bob = bob} heard valid1 valid2 reads1 reads2 adapts sig1 sig2 run =
      let spending = spend_coins g p (inp ∷ []) fund_value timelock 1 3 in
      let (spend, s1, e1, run1) = >>=-ok (on_core spending) _ {s = s} run in
      let (sent, s2, e2, run2) = >>=-ok (send_slate g p spend.slate) _ {s = s1} run1 in
      let (ptx2, s3, e3, run3) = >>=-ok (receive_slate g p) _ {s = s2} run2 in
      let q1 = ap (λ z. z.incoming) (on_core-stream spending s e1) in
      let q2 =
        send_slate-heard g p s1 spend.slate
          (subst (λ z. Carries ack z heard.r0) (sym q1) heard.ack1) e2 in
      let (same, q3) =
        receive_slate-heard g p s2 (subst (λ z. Carries m1 z heard.r1) (sym q2) heard.line1) valid1
          reads1 e3 in
      let (extracts, returns) =
        alice_finishes-x pub_x spend ptx2 s3 m2 slate2 (bob.prt_sig.0) (bob.prt_sig.1) q3 heard.ack2
          heard.line2 valid2 reads2 (ap sig_of_bob same ∙ sig1) sig2 run3 in
      (
        ok_injective (sym extracts ∙ ext_witness-apt_recv_coins schnorr bobs value x b adapts),
        returns,
      )
