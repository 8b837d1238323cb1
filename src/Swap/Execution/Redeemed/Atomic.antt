-- ===== src/Swap/Execution/Redeemed/Atomic.antt =====
-- The swap is atomic for the owner of the grins (src/swap/protocol.rs, src/grin/grin_tx.rs): the
-- signatures by which the other party takes the grins let her redeem the bitcoins.
use mw_btc_swap.Prelude.{ℕ, ℤ, ◌≡◌, ◌∙◌, sym, ap, Text, Bool, true, some, ok, sub_u64}
use mathlib.Core.Path.{subst}
use mw_btc_swap.Prelude.Actions.{guarded, >>=-ok, lift->>=-ok, need->>=-ok, after}
use mw_btc_swap.Prelude.{unwrap}
use mw_btc_swap.Enums.{executing}
use mw_btc_swap.Net.Tcp.Utf8.{is_utf8}
use mw_btc_swap.Bitcoin.Crate.{BitcoinLib, PrivateKey}
use mw_btc_swap.Bitcoin.Script.{ScriptRules}
use mw_btc_swap.Bitcoin.Signing.{deserialize_pub_key, private_key_from_grin_sk}
use mw_btc_swap.Grin.Ops.{GrinOps, ContractMwResult}
use mw_btc_swap.Grin.Types.{MwCoin}
use mw_btc_swap.Grin.Crate.{GrinTypes, GrinCrate, Slate}
use mw_btc_swap.Grin.Routines.{GrinCore}
use mw_btc_swap.Grin.Instance.{grin_ops}
use mw_btc_swap.Grin.Core.{AptRecCoinsResult}
use mw_btc_swap.Grin.Core.Recv.{apt_recv_coins}
use mw_btc_swap.Grin.Core.Recv.Witness.{Schnorr}
use mw_btc_swap.Grin.Protocols.Contract.{sig_of_bob}
use mw_btc_swap.Grin.Protocols.Contract.Revealed.{Answers, dcontract_mw_tx_alice-x}
use mw_btc_swap.Swap.Types.{SwapSlate}
use mw_btc_swap.Swap.World.{Clients, World, on_grin}
use mw_btc_swap.Swap.Calls.{grin_height, btc_height}
use mw_btc_swap.Swap.Timing.{check_if_enough_time}
use mw_btc_swap.Swap.Execution.{execute_mw, exec_phase_swap_mw, redeem_btc}
use mw_btc_swap.Swap.Execution.Late.{too_late}
use mw_btc_swap.Swap.Execution.Redeemed.{Keys, Spent, redeem_btc-Spent}

-- The two questions to the nodes leave the slate and the stream.
pub check_if_enough_time-slate :
    {lib : BitcoinLib} {ops : GrinOps lib} (cl : Clients) (w : World lib ops) {w' : World lib ops}
    {b : Bool}
    → check_if_enough_time cl w ≡ (ok b, w')
    → (w'.slate ≡ w.slate) × (w'.stream ≡ w.stream)
unfolding check_if_enough_time
check_if_enough_time-slate cl w run =
    let (zg, some_grin, run1) = need->>=-ok w.slate.pub_slate.mw.lock_time _ {s = w} run in
    let (zb, some_btc, run2) = need->>=-ok w.slate.pub_slate.btc.lock_time _ {s = w} run1 in
    let (hg, w1, grin, run3) = >>=-ok (after unwrap (grin_height cl)) _ {s = w} run2 in
    let (hb, w2, btc, run4) = >>=-ok (after unwrap (btc_height cl)) _ {s = w1} run3 in
    (
      ap (λ z. z.1.slate) (sym run4)
          ∙ ap (λ z. z.1.slate) (sym btc)
          ∙ ap (λ z. z.1.slate) (sym grin),
      ap (λ z. z.1.stream) (sym run4)
          ∙ ap (λ z. z.1.stream) (sym btc)
          ∙ ap (λ z. z.1.stream) (sym grin),
    )

-- The slate when the execution has begun.
abbrev pub begun : {Tx : Type 0} → SwapSlate Tx → SwapSlate Tx
begun slate =
    let p = slate.pub_slate in record slate { pub_slate = record p { status = executing } }

begun-Keys :
    {lib : BitcoinLib} {Tx : Type 0} {slate : SwapSlate Tx} {sk x : PrivateKey lib.SecretKey}
    {pub_b : lib.PublicKey} {lock_time : ℤ}
    → Keys lib slate sk x pub_b lock_time
    → Keys lib (begun slate) sk x pub_b lock_time
begun-Keys k = record {
  sk_text = k.sk_text;
  a_text = k.a_text;
  b_text = k.b_text;
  x_text = k.x_text;
  has_sk = k.has_sk;
  has_a = k.has_a;
  has_b = k.has_b;
  has_x = k.has_x;
  has_lock_time = k.has_lock_time;
  reads_sk = k.reads_sk;
  reads_a = k.reads_a;
  reads_b = k.reads_b;
  reads_x = k.reads_x;
}

module _ {lib : BitcoinLib} {ops : GrinOps lib} (cl : Clients) where
  -- The contract protocol of a run of the branch in which enough time is left, and what follows.
  pub record Contracted (w w' : World lib ops) : Type 0 where
    pub coin : MwCoin
    pub has_coin : w.slate.prv_slate.mw.shared_coin ≡ some coin
    pub fund_value : ℕ
    pub pub_x : ops.PublicKey
    pub result : ContractMwResult ops.Slate ops.SecretKey
    pub contracted : World lib ops
    pub contract :
        on_grin
          (ops.dcontract_mw_tx_alice coin fund_value 0 pub_x)
          (record w { slate = begun w.slate })
        ≡ (ok result, contracted)
    pub redeems : redeem_btc cl result.x contracted ≡ (ok tt, w')

  execute_mw-Contracted :
      (w : World lib ops) {w' : World lib ops} → execute_mw cl w ≡ (ok tt, w') → Contracted w w'
  unfolding execute_mw
  execute_mw-Contracted w run =
      let w1 : World lib ops = record w { slate = begun w.slate } in
      let (coin, e1, run1) = need->>=-ok w.slate.prv_slate.mw.shared_coin _ {s = w1} run in
      let (x_text, e2, run2) = need->>=-ok w.slate.pub_slate.btc.pub_x _ {s = w1} run1 in
      let (pub_x, e3, run3) = lift->>=-ok (deserialize_pub_key lib x_text) _ {s = w1} run2 in
      let (pub_x_grin, e4, run4) = need->>=-ok (ops.pk_from_btc pub_x) _ {s = w1} run3 in
      let (fund, e5, run5) =
        lift->>=-ok (sub_u64 cl.profile coin.value (ops.tx_fee 1 1 1)) _ {s = w1} run4 in
      let (result, w2, e6, run6) =
        >>=-ok (on_grin (ops.dcontract_mw_tx_alice coin fund 0 pub_x_grin)) _ {s = w1} run5 in
      record {
        coin = coin;
        has_coin = e1;
        fund_value = fund;
        pub_x = pub_x_grin;
        result = result;
        contracted = w2;
        contract = e6;
        redeems = run6;
      }

-- The whole execution on the Mimblewimble side, from `w` to `w'`: enough time is left, then comes
-- the contract protocol over the shared coin of the slate, and then the redeem transaction.
pub record Redeemed {lib : BitcoinLib} {ops : GrinOps lib} (cl : Clients) (rules : ScriptRules lib)
    (sk x : PrivateKey lib.SecretKey) (pub_b : lib.PublicKey) (lock_time : ℤ) (w w' : World lib ops)
    : Type 0 where
  pub asked : World lib ops
  pub enough : check_if_enough_time cl w ≡ (ok true, asked)
  pub coin : MwCoin
  pub has_coin : w.slate.prv_slate.mw.shared_coin ≡ some coin
  pub fund_value : ℕ
  pub pub_x : ops.PublicKey
  pub result : ContractMwResult ops.Slate ops.SecretKey
  pub contracted : World lib ops
  pub contract :
      on_grin
        (ops.dcontract_mw_tx_alice coin fund_value 0 pub_x)
        (record asked { slate = begun asked.slate })
      ≡ (ok result, contracted)
  pub spent : Spent cl rules sk x pub_b lock_time contracted w'

module _ {lib : BitcoinLib} {t : GrinTypes} (g : GrinCrate lib t) (cl : Clients) where
  -- Where Alice's slate holds the keys and the lock time of the swap, the secret that Bob put into
  -- his signatures is the key of the public X of that slate, and the two slates that she hears,
  -- each in a line of valid UTF-8 behind an acknowledgement, carry the adapted signature and then
  -- the plain one of a run of apt_recv_coins with this secret: if the execution phase of the
  -- Mimblewimble side succeeds, it has found enough time left, has run the contract protocol over
  -- the shared coin of the slate, has then drawn a key, and has sent as its next request a
  -- transaction that by the script rules of a node may spend the lock output, and that the Bitcoin
  -- node has accepted; the end state is the one after this answer, with the output kept in the
  -- slate and the status set to finished. The addition of secrets can be undone, and an extra
  -- secret is added to the s of a signature.
  pub exec_phase_swap_mw-Redeemed :
      (schnorr : Schnorr g) (rules : ScriptRules lib) (m1 m2 : Text) (slate1 slate2 bobs : Slate t)
      (value : ℕ) (x_grin : t.SecretKey) (b : GrinCore t) {b' : GrinCore t}
      {bob : AptRecCoinsResult t} (w : World lib (grin_ops g cl.profile))
      {w' : World lib (grin_ops g cl.profile)} (sk x : PrivateKey lib.SecretKey)
      (pub_b : lib.PublicKey) (lock_time : ℤ)
      → Keys lib w.slate sk x pub_b lock_time
      → private_key_from_grin_sk lib (g.sk_to_btc x_grin) ≡ ok x
      → Answers m1 m2 w.stream.incoming
      → is_utf8 m1 ≡ true
      → is_utf8 m2 ≡ true
      → g.deserialize_upgrade m1 ≡ some slate1
      → g.deserialize_upgrade m2 ≡ some slate2
      → apt_recv_coins g bobs value x_grin b ≡ (ok bob, b')
      → sig_of_bob slate1 ≡ some (bob.prt_sig.0)
      → sig_of_bob slate2 ≡ some (bob.prt_sig.1)
      → exec_phase_swap_mw cl w ≡ (ok tt, w')
      → Redeemed cl rules sk x pub_b lock_time w w'
  unfolding exec_phase_swap_mw
  exec_phase_swap_mw-Redeemed schnorr rules m1 m2 slate1 slate2 bobs value x_grin b w sk x pub_b
        lock_time keys extracted heard valid1 valid2 reads1 reads2 adapts sig1 sig2 run =
      let (enough, w1, e1, run1) = >>=-ok (check_if_enough_time cl) _ {s = w} run in
      let (same_slate, same_stream) = check_if_enough_time-slate cl w e1 in
      let (is_enough, run2) = guarded enough (execute_mw cl) too_late run1 in
      let c = execute_mw-Contracted cl w1 run2 in
      let (is_x, is_tx) =
        dcontract_mw_tx_alice-x g cl.profile schnorr c.coin c.fund_value 0 c.pub_x
          (w1.grin_tx, w1.stream) m1 m2 slate1 slate2 bobs value x_grin b
          (subst (λ z. Answers m1 m2 z.incoming) (sym same_stream) heard) valid1 valid2 reads1
          reads2 adapts sig1 sig2 (ap (λ z. (z.0, (z.1.grin_tx, z.1.stream))) c.contract) in
      record {
        asked = w1;
        enough = e1 ∙ ap (λ z. (ok z, w1)) is_enough;
        coin = c.coin;
        has_coin = ap (λ z. z.prv_slate.mw.shared_coin) (sym same_slate) ∙ c.has_coin;
        fund_value = c.fund_value;
        pub_x = c.pub_x;
        result = c.result;
        contracted = c.contracted;
        contract = c.contract;
        spent =
            redeem_btc-Spent cl rules c.contracted sk x pub_b lock_time
              (subst (λ z. Keys lib z sk x pub_b lock_time)
                (sym (ap (λ z. z.1.slate) (sym c.contract) ∙ ap begun same_slate))
                (begun-Keys keys))
              c.result.x (ap (λ z. private_key_from_grin_sk lib (g.sk_to_btc z)) is_x ∙ extracted)
              c.redeems;
      }
