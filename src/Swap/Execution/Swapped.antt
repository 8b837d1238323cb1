-- ===== src/Swap/Execution/Swapped.antt =====
-- What the execution on the Bitcoin side gives its party (src/swap/protocol.rs): a coin of the
-- shared value less the fee, in a transaction that the Grin node has accepted.
use mw_btc_swap.Prelude.{ℕ, ◌≡◌, ◌∙◌, sym, ap, Text, true, Option, some, ok, sub_u64}
use mw_btc_swap.Prelude.Actions.{guarded, >>=-ok, lift->>=-ok, need->>=-ok}
use mw_btc_swap.Enums.{finished}
use mw_btc_swap.Bitcoin.Crate.{BitcoinLib, PrivateKey}
use mw_btc_swap.Bitcoin.Signing.{deserialize_priv_key}
use mw_btc_swap.Grin.Ops.{GrinOps, ContractMwResult}
use mw_btc_swap.Grin.Types.{MwCoin}
use mw_btc_swap.Grin.Crate.{GrinTypes, GrinCrate, Slate}
use mw_btc_swap.Grin.Core.Recv.OutputCoin.{IsCoin}
use mw_btc_swap.Grin.Instance.{grin_ops}
use mw_btc_swap.Grin.Routines.{estimate_fees}
use mw_btc_swap.Grin.Protocols.Contract.{dcontract_mw_tx_bob}
use mw_btc_swap.Grin.Protocols.Contract.Paid.{dcontract_mw_tx_bob-IsCoin}
use mw_btc_swap.Swap.World.{Clients, World, on_grin, set_status}
use mw_btc_swap.Swap.Calls.{push_grin}
use mw_btc_swap.Swap.Timing.{check_if_enough_time}
use mw_btc_swap.Swap.Execution.{publish_mw, execute_btc, exec_phase_swap_btc}
use mw_btc_swap.Swap.Execution.Late.{too_late}
use mw_btc_swap.Swap.Execution.Redeemed.Atomic.{begun, check_if_enough_time-slate}

module _ {lib : BitcoinLib} {ops : GrinOps lib} (cl : Clients) where
  -- The world when the slate holds the coin of the contract.
  abbrev pub with_coin : Option MwCoin → World lib ops → World lib ops
  with_coin coin w =
      let s = w.slate in
      let v = s.prv_slate in
      let m = v.mw in
      record w {
        slate = record s { prv_slate = record v { mw = record m { swapped_coin = coin } } };
      }

  -- From `w`, the coin of the result is kept, the Grin node accepts the transaction of the result
  -- as the next request, and the status is set.
  pub record Published (result : ContractMwResult ops.Slate ops.SecretKey) (w w' : World lib ops)
      : Type 0 where
    pub tx : ops.Tx
    pub has_tx : ops.slate_tx result.tx ≡ some tx
    pub pushed : World lib ops
    pub accepted : push_grin cl tx (with_coin result.coin w) ≡ (ok tt, pushed)
    pub closed : set_status finished pushed ≡ (ok tt, w')
    pub coin : w'.slate.prv_slate.mw.swapped_coin ≡ result.coin

  publish_mw-Published :
      (result : ContractMwResult ops.Slate ops.SecretKey) (w : World lib ops) {w' : World lib ops}
      → publish_mw cl result w ≡ (ok tt, w')
      → Published result w w'
  unfolding publish_mw
  publish_mw-Published result w run =
      let w1 : World lib ops = with_coin result.coin w in
      let (tx, e1, run1) = need->>=-ok (ops.slate_tx result.tx) _ {s = w1} run in
      let (sent, w2, e2, run2) = >>=-ok (push_grin cl tx) _ {s = w1} run1 in
      record {
        tx = tx;
        has_tx = e1;
        pushed = w2;
        accepted = e2;
        coin =
            ap (λ z. z.1.slate.prv_slate.mw.swapped_coin) (sym run2)
            ∙ ap (λ z. z.1.slate.prv_slate.mw.swapped_coin) (sym e2);
        closed = run2;
      }

  -- The contract protocol over the shared coin, and what follows.
  pub record ContractedBtc (w w' : World lib ops) : Type 0 where
    pub shared : MwCoin
    pub has_shared : w.slate.prv_slate.mw.shared_coin ≡ some shared
    pub fund_value : ℕ
    pub less_fee : sub_u64 cl.profile shared.value (ops.tx_fee 1 1 1) ≡ ok fund_value
    pub x_text : Text
    pub has_x : w.slate.prv_slate.btc.x ≡ some x_text
    pub x_btc : PrivateKey lib.SecretKey
    pub reads_x : deserialize_priv_key lib x_text ≡ ok x_btc
    pub x : ops.SecretKey
    pub is_x : ops.sk_from_btc x_btc.key ≡ some x
    pub result : ContractMwResult ops.Slate ops.SecretKey
    pub contracted : World lib ops
    pub contract :
        on_grin (ops.dcontract_mw_tx_bob shared fund_value 0 x) (record w { slate = begun w.slate })
        ≡ (ok result, contracted)
    pub publishes : publish_mw cl result contracted ≡ (ok tt, w')

  execute_btc-ContractedBtc :
      (w : World lib ops) {w' : World lib ops} → execute_btc cl w ≡ (ok tt, w') → ContractedBtc w w'
  unfolding execute_btc
  execute_btc-ContractedBtc w run =
      let w1 : World lib ops = record w { slate = begun w.slate } in
      let (shared, e1, run1) = need->>=-ok w.slate.prv_slate.mw.shared_coin _ {s = w1} run in
      let (x_text, e2, run2) = need->>=-ok w.slate.prv_slate.btc.x _ {s = w1} run1 in
      let (x, e3, run3) = lift->>=-ok (deserialize_priv_key lib x_text) _ {s = w1} run2 in
      let (x_grin, e4, run4) = need->>=-ok (ops.sk_from_btc x.key) _ {s = w1} run3 in
      let (fund, e5, run5) =
        lift->>=-ok (sub_u64 cl.profile shared.value (ops.tx_fee 1 1 1)) _ {s = w1} run4 in
      let (result, w2, e6, run6) =
        >>=-ok (on_grin (ops.dcontract_mw_tx_bob shared fund 0 x_grin)) _ {s = w1} run5 in
      record {
        shared = shared;
        has_shared = e1;
        fund_value = fund;
        less_fee = e5;
        x_text = x_text;
        has_x = e2;
        x_btc = x;
        reads_x = e3;
        x = x_grin;
        is_x = e4;
        result = result;
        contracted = w2;
        contract = e6;
        publishes = run6;
      }

-- The whole execution on the Bitcoin side, from `w` to `w'`: enough time is left, then comes the
-- contract protocol over the shared coin and the secret of the slate, then the Grin node accepts
-- the transaction of the contract; the new coin is one of the shared value less the fee.
pub record Swapped {lib : BitcoinLib} {t : GrinTypes} (g : GrinCrate lib t) (cl : Clients)
    (w w' : World lib (grin_ops g cl.profile)) : Type 0 where
  pub shared : MwCoin
  pub has_shared : w.slate.prv_slate.mw.shared_coin ≡ some shared
  pub fund_value : ℕ
  pub less_fee : sub_u64 cl.profile shared.value (g.tx_fee 1 1 1) ≡ ok fund_value
  pub x_text : Text
  pub has_x : w.slate.prv_slate.btc.x ≡ some x_text
  pub x_btc : PrivateKey lib.SecretKey
  pub reads_x : deserialize_priv_key lib x_text ≡ ok x_btc
  pub x : t.SecretKey
  pub is_x : g.sk_from_btc x_btc.key ≡ some x
  pub asked : World lib (grin_ops g cl.profile)
  pub enough : check_if_enough_time cl w ≡ (ok true, asked)
  pub result : ContractMwResult (Slate t) t.SecretKey
  pub contracted : World lib (grin_ops g cl.profile)
  pub contract :
      on_grin
        (dcontract_mw_tx_bob g cl.profile shared fund_value 0 x)
        (record asked { slate = begun asked.slate })
      ≡ (ok result, contracted)
  pub tx : t.Transaction
  pub has_tx : result.tx.tx ≡ some tx
  pub pushed : World lib (grin_ops g cl.profile)
  pub accepted : push_grin cl tx (with_coin cl result.coin contracted) ≡ (ok tt, pushed)
  pub closed : set_status finished pushed ≡ (ok tt, w')
  pub coin : MwCoin
  pub has_coin : w'.slate.prv_slate.mw.swapped_coin ≡ some coin
  pub is_coin : IsCoin g fund_value coin

module _ {lib : BitcoinLib} {t : GrinTypes} (g : GrinCrate lib t) (cl : Clients) where
  -- If the execution phase of the Bitcoin side succeeds, it has found enough time left; its part
  -- of the contract protocol has then succeeded over the shared coin, the value of that coin less
  -- the fee and the secret x of the slate; the Grin node has accepted, as the next request, the
  -- transaction of that protocol; the end state is the one after this answer, with the status set
  -- to finished, and its slate holds a coin of this value with its commitment and the key that
  -- opens it.
  pub exec_phase_swap_btc-Swapped :
      (w : World lib (grin_ops g cl.profile)) {w' : World lib (grin_ops g cl.profile)}
      → exec_phase_swap_btc cl w ≡ (ok tt, w')
      → Swapped g cl w w'
  unfolding exec_phase_swap_btc estimate_fees
  exec_phase_swap_btc-Swapped w run =
      let (enough, w1, e1, run1) = >>=-ok (check_if_enough_time cl) _ {s = w} run in
      let (same_slate, same_stream) = check_if_enough_time-slate cl w e1 in
      let (is_enough, run2) = guarded enough (execute_btc cl) too_late run1 in
      let c = execute_btc-ContractedBtc cl w1 run2 in
      let (coin, has_coin, is_coin) =
        dcontract_mw_tx_bob-IsCoin g cl.profile c.shared c.fund_value 0 c.x (w1.grin_tx, w1.stream)
          (ap (λ z. (z.0, (z.1.grin_tx, z.1.stream))) c.contract) in
      let d = publish_mw-Published cl c.result c.contracted c.publishes in
      record {
        shared = c.shared;
        has_shared = ap (λ z. z.prv_slate.mw.shared_coin) (sym same_slate) ∙ c.has_shared;
        fund_value = c.fund_value;
        less_fee = c.less_fee;
        x_text = c.x_text;
        has_x = ap (λ z. z.prv_slate.btc.x) (sym same_slate) ∙ c.has_x;
        x_btc = c.x_btc;
        reads_x = c.reads_x;
        x = c.x;
        is_x = c.is_x;
        asked = w1;
        enough = e1 ∙ ap (λ z. (ok z, w1)) is_enough;
        result = c.result;
        contracted = c.contracted;
        contract = c.contract;
        tx = d.tx;
        has_tx = d.has_tx;
        pushed = d.pushed;
        accepted = d.accepted;
        coin = coin;
        has_coin = d.coin ∙ has_coin;
        is_coin = is_coin;
        closed = d.closed;
      }
