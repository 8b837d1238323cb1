-- ===== src/Bitcoin/Signing/Contract.antt =====
-- The three transactions of src/bitcoin/btcroutines.rs together: what locks, what redeems and what
-- refunds.
use mw_btc_swap.Prelude.{
  ◌≡◌, ◌∙◌, ap, true, false, List, [], ok, some, ℤ, pos, Profile, add_u64, sub_u64, not, ℕ, arith,
  unwrap_option, ◌<◌, ◌^◌, ◌==◌, if◌then◌else◌,
}
use mw_btc_swap.Prelude.Results.{>>=-returns}
use mw_btc_swap.Constants.{ffffffff}
use mw_btc_swap.Bitcoin.Crate.{PrivateKey, TxOut, BitcoinLib}
use mw_btc_swap.Bitcoin.Types.{BtcInput}
use mw_btc_swap.Bitcoin.Routines.{
  Tx, unsigned_input, get_lock_pub_script, lock_inputs, create_lock_transaction,
  create_spend_lock_transaction,
}
use mw_btc_swap.Bitcoin.Script.{ScriptRules, get_input, spends, lock_time_reached}
use mw_btc_swap.Bitcoin.Signing.{nth, sign_lock_transaction_redeemer, sign_lock_transaction_refund}
use mw_btc_swap.Bitcoin.Signing.Spend.{redeemer_spends, refunder_spends}

module _ (lib : BitcoinLib) where
  open lib use {PublicKey, Txid, Script, SecretKey, public_key, txid_from_str}

  locked_script :
      (p : Profile) (recv_pk pub_x refund_pk change_pk : PublicKey) (inputs : List BtcInput)
      (amount fee : ℕ) (refund_time : ℤ) {tx : Tx lib} {o : TxOut Script}
      → create_lock_transaction lib p recv_pk pub_x refund_pk change_pk inputs amount fee
          refund_time
        ≡ ok tx
      → nth tx.output 0 ≡ ok o
      → o.script_pubkey ≡ get_lock_pub_script lib recv_pk pub_x refund_pk refund_time true
  unfolding create_lock_transaction nth add_u64 sub_u64
  locked_script p r x f c inputs amount fee t run first =
      let (sums, e, rest) = >>=-returns (lock_inputs lib p 0 [] inputs) _ run in ground arith

  pub spend_input_of :
      (p : Profile) (recv_pk : PublicKey) (input : BtcInput) (amount fee lock_time : ℕ)
      {tx : Tx lib}
      → create_spend_lock_transaction lib p recv_pk input amount fee lock_time ≡ ok tx
      → (txid : Txid) × (get_input tx.input 0
          ≡ some (unsigned_input lib txid input.vout (if lock_time == 0 then ffffffff else 0)))
        × (tx.lock_time ≡ lock_time)
  unfolding create_spend_lock_transaction sub_u64
  spend_input_of p r input amount fee lock_time run =
      let (txid, e, rest) = >>=-returns (unwrap_option (txid_from_str input.txid)) _ run in
      (txid, ground arith, ground arith)

pub reached_itself :
    (n : ℕ) → lock_time_reached (pos n) n (if n == 0 then ffffffff else 0) ≡ not (n == 0)
reached_itself n = ground arith

module _ (lib : BitcoinLib) (rules : ScriptRules lib) (p : Profile) where
  open lib use {PublicKey, Script, SecretKey, public_key}

  module _ (sk x : PrivateKey SecretKey) (refund_pk change_pk : PublicKey) (inputs : List BtcInput)
      (amount fee : ℕ) (refund_time : ℤ) {locked tx : Tx lib} {o : TxOut Script} where
    -- The redeem transaction that is signed with the receiver's key and with x may, by the script
    -- rules of a node, spend the first output of the lock transaction for these keys, whatever the
    -- refund time is.
    pub redeem_of_lock :
        create_lock_transaction lib p
            (public_key sk)
            (public_key x)
            refund_pk
            change_pk
            inputs
            amount
            fee
            refund_time
          ≡ ok locked
        → nth locked.output 0 ≡ ok o
        → (dest : PublicKey) (input : BtcInput) (worth spend_fee lock_time : ℕ)
        → create_spend_lock_transaction lib p dest input worth spend_fee lock_time ≡ ok tx
        → spends rules
            (sign_lock_transaction_redeemer lib tx 0
              (get_lock_pub_script lib (public_key sk) (public_key x) refund_pk refund_time false)
              sk
              x)
            0
            o.script_pubkey
          ≡ true
    redeem_of_lock made first dest input worth spend_fee lock_time spend =
        let script =
          locked_script lib p (public_key sk) (public_key x) refund_pk change_pk inputs amount fee
            refund_time made first in
        let (txid, found, time) = spend_input_of lib p dest input worth spend_fee lock_time spend in
        rw script (redeemer_spends lib rules tx 0 sk refund_pk found x refund_time)

  module _ (sk : PrivateKey SecretKey) (recv_pk pub_x change_pk : PublicKey)
      (inputs : List BtcInput) (amount fee refund_time : ℕ) {locked tx : Tx lib}
      {o : TxOut Script} where
    -- The refund transaction whose lock time is the refund time, below 2^32, signed with the
    -- sender's key, may, by the script rules of a node, spend the first output of the lock
    -- transaction exactly if the refund time is not 0.
    pub refund_of_lock :
        refund_time < 2 ^ 32
        → create_lock_transaction lib p recv_pk pub_x
            (public_key sk)
            change_pk
            inputs
            amount
            fee
            (pos refund_time)
          ≡ ok locked
        → nth locked.output 0 ≡ ok o
        → (dest : PublicKey) (input : BtcInput) (worth spend_fee : ℕ)
        → create_spend_lock_transaction lib p dest input worth spend_fee refund_time ≡ ok tx
        → spends rules
            (sign_lock_transaction_refund lib tx 0
              (get_lock_pub_script lib recv_pk pub_x (public_key sk) (pos refund_time) false)
              sk)
            0
            o.script_pubkey
          ≡ not (refund_time == 0)
    refund_of_lock fits made first dest input worth spend_fee spend =
        let script =
          locked_script lib p recv_pk pub_x (public_key sk) change_pk inputs amount fee
            (pos refund_time) made first in
        let (txid, found, time) =
          spend_input_of lib p dest input worth spend_fee refund_time spend in
        rw script (
          refunder_spends lib rules tx 0 sk recv_pk found pub_x refund_time fits
          ∙ ap
              (λ t.
                lock_time_reached (pos refund_time) t (if refund_time == 0 then ffffffff else 0))
              time
          ∙ reached_itself refund_time)
