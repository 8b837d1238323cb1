-- ===== src/Swap/Execution/Redeemed.antt =====
-- What the execution on the Mimblewimble side gives its party (src/swap/protocol.rs): a redeem
-- transaction that the script rules let spend the lock.
pub mod Atomic
use mw_btc_swap.Prelude.{
  ℤ, ◌≡◌, ◌∙◌, sym, ap, Text, true, false, Option, some, ok, unwrap_option, Profile, List, [], ◌∷◌,
}
use mw_btc_swap.Prelude.Results.{◌>>=◌ as ◌>>=ₒ◌, >>=-returns, ok_injective}
use mw_btc_swap.Prelude.Actions.{>>=-ok, lift->>=-ok, ◌>>=◌, ◌>>◌}
use mw_btc_swap.Constants.{btc_fee}
use mw_btc_swap.Enums.{finished}
use mw_btc_swap.Bitcoin.Crate.{BitcoinLib, PrivateKey, TxOut}
use mw_btc_swap.Bitcoin.Types.{BtcInput, new2}
use mw_btc_swap.Bitcoin.Routines.{Tx, create_spend_lock_transaction, get_lock_pub_script}
use mw_btc_swap.Bitcoin.Script.{ScriptRules, spends}
use mw_btc_swap.Bitcoin.Signing.{
  nth, sign_lock_transaction_redeemer, deserialize_priv_key, deserialize_pub_key,
  private_key_from_grin_sk,
}
use mw_btc_swap.Bitcoin.Signing.Spend.{redeemer_spends}
use mw_btc_swap.Bitcoin.Signing.Contract.{spend_input_of}
use mw_btc_swap.Grin.Ops.{GrinOps}
use mw_btc_swap.Swap.Types.{SwapSlate}
use mw_btc_swap.Swap.World.{Clients, World, Step, take_key, new_secret_key, set_prv_btc, set_status}
use mw_btc_swap.Swap.Calls.{send_btc, new_private_key}
use mw_btc_swap.Swap.Execution.{signed_redeem, redeem_btc}

-- The slate holds the party's key `sk`, and the public keys of `sk`, of the secret `x` and of the
-- other party, and a lock time.
pub record Keys (lib : BitcoinLib) {GrinTx : Type 0} (slate : SwapSlate GrinTx)
    (sk x : PrivateKey lib.SecretKey) (pub_b : lib.PublicKey) (lock_time : ℤ) : Type 0 where
  pub sk_text : Text
  pub a_text : Text
  pub b_text : Text
  pub x_text : Text
  pub has_sk : slate.prv_slate.btc.sk ≡ some sk_text
  pub has_a : slate.pub_slate.btc.pub_a ≡ some a_text
  pub has_b : slate.pub_slate.btc.pub_b ≡ some b_text
  pub has_x : slate.pub_slate.btc.pub_x ≡ some x_text
  pub has_lock_time : slate.pub_slate.btc.lock_time ≡ some lock_time
  pub reads_sk : deserialize_priv_key lib sk_text ≡ ok sk
  pub reads_a : deserialize_pub_key lib a_text ≡ ok (lib.public_key sk)
  pub reads_b : deserialize_pub_key lib b_text ≡ ok pub_b
  pub reads_x : deserialize_pub_key lib x_text ≡ ok (lib.public_key x)

-- The end of the redeem phase.
abbrev pub keep_swapped : {lib : BitcoinLib} {ops : GrinOps lib} → BtcInput → Step lib ops Unit
keep_swapped input = do set_prv_btc (λ b. record b { swapped = some input }); set_status finished

-- From `w`, a key is drawn, and the Bitcoin node accepts, as the next request, a transaction that
-- may spend the P2SH output of the lock script; `w'` is the world after its answer, with the output
-- kept in the slate and the status set to finished.
pub record Spent {lib : BitcoinLib} {ops : GrinOps lib} (cl : Clients) (rules : ScriptRules lib)
    (sk x : PrivateKey lib.SecretKey) (pub_b : lib.PublicKey) (lock_time : ℤ) (w w' : World lib ops)
    : Type 0 where
  pub sk_a2 : PrivateKey lib.SecretKey
  pub keyed : World lib ops
  pub drawn : new_private_key w ≡ (ok sk_a2, keyed)
  pub signed : Tx lib
  pub sent : World lib ops
  pub accepted : send_btc cl signed keyed ≡ (ok tt, sent)
  pub spends_lock :
      spends rules signed 0
        (get_lock_pub_script lib (lib.public_key sk) (lib.public_key x) pub_b lock_time true)
      ≡ true
  pub output : TxOut lib.Script
  pub has_output : nth signed.output 0 ≡ ok output
  pub closed :
      keep_swapped
        (new2 lib
          (lib.txid_to_string (lib.txid signed))
          0
          output.value
          sk_a2
          (lib.public_key sk_a2)
          output.script_pubkey)
        sent
      ≡ (ok tt, w')

module _ {lib : BitcoinLib} (rules : ScriptRules lib) {GrinTx : Type 0} (p : Profile)
    (slate : SwapSlate GrinTx) (sk x : PrivateKey lib.SecretKey) (pub_b : lib.PublicKey)
    (lock_time : ℤ) (keys : Keys lib slate sk x pub_b lock_time) where
  module _ (sk_a2 : PrivateKey lib.SecretKey) (secret : Option lib.SecretKey)
      (extracted : private_key_from_grin_sk lib secret ≡ ok x) where
    signed_redeem-Keys : signed_redeem lib p slate sk_a2 secret ≡ (
        unwrap_option slate.prv_slate.btc.lock >>=ₒ λ lock.
        create_spend_lock_transaction lib p
          (lib.public_key sk_a2)
          lock
          slate.pub_slate.btc.amount
          btc_fee
          0
        >>=ₒ λ tx. ok (
            sign_lock_transaction_redeemer lib tx 0
              (get_lock_pub_script lib (lib.public_key sk) (lib.public_key x) pub_b lock_time false)
              sk
              x))
    unfolding signed_redeem
    signed_redeem-Keys =
        rw (keys.has_a, keys.has_b, keys.has_x, keys.has_sk, keys.has_lock_time)
          (rw keys.reads_a (rw keys.reads_b (rw keys.reads_x (rw extracted (rw keys.reads_sk)))))

    pub signed_redeem-spends :
        {signed : Tx lib}
        → signed_redeem lib p slate sk_a2 secret ≡ ok signed
        → spends rules signed 0
            (get_lock_pub_script lib (lib.public_key sk) (lib.public_key x) pub_b lock_time true)
          ≡ true
    signed_redeem-spends {signed} run =
        let (lock, e1, run1) =
          >>=-returns (unwrap_option slate.prv_slate.btc.lock) _ (sym signed_redeem-Keys ∙ run) in
        let (tx, e2, run2) =
          >>=-returns
            (create_spend_lock_transaction lib p (lib.public_key sk_a2) lock
              slate.pub_slate.btc.amount btc_fee 0)
            _ run1 in
        let (txid, found, time) =
          spend_input_of lib p (lib.public_key sk_a2) lock slate.pub_slate.btc.amount btc_fee 0
            e2 in
        ap
          (λ s.
            spends rules s 0
              (get_lock_pub_script lib (lib.public_key sk) (lib.public_key x) pub_b lock_time true))
          (sym (ok_injective {b = signed} run2))
        ∙ redeemer_spends lib rules tx 0 sk pub_b found x lock_time

-- A new key is drawn, and the slate is left.
taken :
    {lib : BitcoinLib} {ops : GrinOps lib} (keys : List lib.SecretKey) (w : World lib ops)
    {w1 : World lib ops} {k : lib.SecretKey}
    → take_key keys w ≡ (ok k, w1)
    → w1.slate ≡ w.slate
taken [] w run = cc
taken (key ∷ keys) w run = ap (λ z. z.1.slate) (sym run)

pub new_private_key-slate :
    {lib : BitcoinLib} {ops : GrinOps lib} (w : World lib ops) {w1 : World lib ops}
    {k : PrivateKey lib.SecretKey}
    → new_private_key w ≡ (ok k, w1)
    → w1.slate ≡ w.slate
new_private_key-slate w run =
    let (key, w2, e, rest) = >>=-ok new_secret_key _ {s = w} run in
    ap (λ z. z.1.slate) (sym rest) ∙ taken w.entropy w e

module _ {lib : BitcoinLib} {ops : GrinOps lib} (cl : Clients) (rules : ScriptRules lib)
    (w : World lib ops) (sk x : PrivateKey lib.SecretKey) (pub_b : lib.PublicKey) (lock_time : ℤ)
    (keys : Keys lib w.slate sk x pub_b lock_time) where
  pub redeem_btc-Spent :
      (x_grin : ops.SecretKey) {w' : World lib ops}
      → private_key_from_grin_sk lib (ops.sk_to_btc x_grin) ≡ ok x
      → redeem_btc cl x_grin w ≡ (ok tt, w')
      → Spent cl rules sk x pub_b lock_time w w'
  unfolding redeem_btc
  redeem_btc-Spent x_grin extracted run =
      let (sk_a2, w1, e1, run1) = >>=-ok new_private_key _ {s = w} run in
      let (signed, e2, run2) =
        lift->>=-ok (signed_redeem lib cl.profile w1.slate sk_a2 (ops.sk_to_btc x_grin)) _ {s = w1}
          run1 in
      let (o, e3, run3) = lift->>=-ok (nth signed.output 0) _ {s = w1} run2 in
      let (sent, w2, e4, run4) = >>=-ok (send_btc cl signed) _ {s = w1} run3 in
      record {
        signed = signed;
        sk_a2 = sk_a2;
        keyed = w1;
        drawn = e1;
        sent = w2;
        accepted = e4;
        output = o;
        has_output = e3;
        closed = run4;
        spends_lock =
            signed_redeem-spends rules cl.profile w.slate sk x pub_b lock_time keys sk_a2
              (ops.sk_to_btc x_grin) extracted
              (ap (λ sl. signed_redeem lib cl.profile sl sk_a2 (ops.sk_to_btc x_grin))
                  (sym (new_private_key-slate w e1))
                ∙ e2);
      }
