-- ===== src/Grin/Protocols/Contract/Paid.antt =====
-- What dcontract_mw_tx gives to Bob (src/grin/grin_tx.rs).
use mw_btc_swap.Prelude.{ℕ, ◌≡◌, sym, ap, none, some, [], ◌∷◌, ok, true, Profile}
use mw_btc_swap.Prelude.Results.{ok_injective}
use mw_btc_swap.Prelude.Actions.{Action, >>=-ok}
use mw_btc_swap.Net.Tcp.{Stream}
use mw_btc_swap.Bitcoin.Crate.{BitcoinLib}
use mw_btc_swap.Grin.Types.{MwCoin}
use mw_btc_swap.Grin.Crate.{GrinTypes, GrinCrate, Slate}
use mw_btc_swap.Grin.Routines.{GrinCore}
use mw_btc_swap.Grin.Ops.{ContractMwResult}
use mw_btc_swap.Grin.Core.Joint.{d_spend_coins}
use mw_btc_swap.Grin.Core.Recv.{apt_recv_coins}
use mw_btc_swap.Grin.Core.Recv.OutputCoin.{IsCoin, apt_recv_coins-IsCoin}
use mw_btc_swap.Grin.Core.Fin.{fin_tx}
use mw_btc_swap.Grin.Protocols.{on_core, send_slate, receive_slate}
use mw_btc_swap.Grin.Protocols.Contract.{dcontract_mw_tx_bob}

-- The step on the keys that a call of it is.
on_core-ok :
    {t : GrinTypes} {A : Type 0} (m : Action (GrinCore t) A) (s : GrinCore t × Stream)
    {s' : GrinCore t × Stream} {a : A}
    → on_core m s ≡ (ok a, s')
    → m s.0 ≡ (ok a, s'.0)
unfolding on_core
on_core-ok m s run = ap (λ x. (x.0, x.1.0)) run

module _ {lib : BitcoinLib} {t : GrinTypes} (g : GrinCrate lib t) (p : Profile) where
  pub dcontract_mw_tx_bob-IsCoin :
      (inp : MwCoin) (fund_value timelock : ℕ) (x : t.SecretKey) (s : GrinCore t × Stream)
      {s' : GrinCore t × Stream} {r : ContractMwResult (Slate t) t.SecretKey}
      → dcontract_mw_tx_bob g p inp fund_value timelock x s ≡ (ok r, s')
      → (coin : MwCoin) × (r.coin ≡ some coin) × IsCoin g fund_value coin
  unfolding dcontract_mw_tx_bob
  dcontract_mw_tx_bob-IsCoin inp fund_value timelock x s {r = r} run =
      let (ptx, s1, e1, run1) = >>=-ok (receive_slate g p) _ {s = s} run in
      let (spend, s2, e2, run2) =
        >>=-ok (on_core (d_spend_coins g (inp ∷ []) ptx fund_value timelock)) _ {s = s1} run1 in
      let receives = apt_recv_coins g spend.slate fund_value x in
      let (recv, s3, e3, run3) = >>=-ok (on_core receives) _ {s = s2} run2 in
      let (sent, s4, e4, run4) = >>=-ok (send_slate g p recv.slate) _ {s = s3} run3 in
      let (ptx3, s5, e5, run5) = >>=-ok (receive_slate g p) _ {s = s4} run4 in
      let (fin, s6, e6, run6) =
        >>=-ok (on_core (fin_tx g ptx3 spend.sig_key spend.sig_nonce true none (some recv.prt_sig)))
          _ {s = s5} run5 in
      let (told, s7, e7, run7) = >>=-ok (send_slate g p fin) _ {s = s6} run6 in
      (
        recv.output_coin,
        ap (λ y. y.coin) (sym (ok_injective {b = r} (ap (λ y. y.0) run7))),
        apt_recv_coins-IsCoin g spend.slate fund_value x s2.0 (on_core-ok receives s2 e3),
      )
