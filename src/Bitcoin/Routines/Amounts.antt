-- ===== src/Bitcoin/Routines/Amounts.antt =====
-- The amounts of the lock transaction and of the transaction that spends it
-- (src/bitcoin/btcroutines.rs).
use mw_btc_swap.Prelude.{
  ℕ, ◌+◌, ◌-◌, ◌≤◌, ◌<◌, ◌≡◌, List, [], ◌∷◌, ◌++◌, ok, panic, ℤ, Profile, debug, release, add_u64,
  sub_u64, u64_mod, some, arith, Option-cases, inl, inr, true, unwrap_option, if◌then◌else◌, ◌==◌,
}
use mw_btc_swap.Prelude.Results.{>>=-returns}
use mw_btc_swap.Constants.{ffffffff}
use mw_btc_swap.Bitcoin.Crate.{BitcoinLib, TxIn, TxOut}
use mw_btc_swap.Bitcoin.Types.{BtcInput}
use mw_btc_swap.Bitcoin.Routines.{
  Tx, unsigned_input, get_lock_pub_script, get_p2pkh_pub_script, lock_inputs,
  create_lock_transaction, create_spend_lock_transaction,
}

-- The sums of what a transaction spends and of what its outputs hold.
abbrev pub input_value : List BtcInput → ℕ
input_value [] = 0
input_value (i ∷ rest) = i.value + input_value rest

abbrev pub output_value : {Script : Type 0} → List (TxOut Script) → ℕ
output_value [] = 0
output_value (o ∷ rest) = o.value + output_value rest

module _ (lib : BitcoinLib) where
  open lib use {PublicKey, Script, Txid, txid_from_str}

  lock_inputs-sum :
      (b : ℕ) (acc : List (TxIn Txid Script)) (inputs : List BtcInput) {sum : ℕ}
      {txinp : List (TxIn Txid Script)}
      → lock_inputs lib debug b acc inputs ≡ ok (sum, txinp)
      → sum ≡ b + input_value inputs
  unfolding lock_inputs add_u64
  lock_inputs-sum b acc [] {sum} {txinp} run = ground arith
  lock_inputs-sum b acc (i ∷ rest) {sum} {txinp} run = elim (Option-cases (txid_from_str i.txid)) [
    | inl unparsed ↦ absurd (ground arith)
    | inr (t, e) ↦ ground (
      arith,
      lock_inputs-sum (b + i.value) (acc ++ unsigned_input lib t i.vout ffffffff ∷ []) rest
          {sum = sum} {txinp = txinp},
    )
  ]

  -- Where the lock transaction is made, in a build that checks overflow, its inputs cover the
  -- amount and the fee; its first output is the P2SH form of the lock script with the amount, the
  -- second pays to the change key what is left, and outputs and fee add up to the inputs.
  pub lock_outputs :
      (recv_pk pub_x refund_pk change_pk : PublicKey) (inputs : List BtcInput) (amount fee : ℕ)
      (refund_time : ℤ) {tx : Tx lib}
      → create_lock_transaction lib debug recv_pk pub_x refund_pk change_pk inputs amount fee
          refund_time
        ≡ ok tx
      → (amount + fee ≤ input_value inputs)
        × (tx.output
            ≡ record {
              value = amount;
              script_pubkey = get_lock_pub_script lib recv_pk pub_x refund_pk refund_time true;
            }
              ∷ record {
                value = input_value inputs - (amount + fee);
                script_pubkey = get_p2pkh_pub_script lib change_pk;
              }
              ∷ [])
        × (output_value tx.output + fee ≡ input_value inputs)
  unfolding create_lock_transaction add_u64 sub_u64
  lock_outputs r x f c inputs amount fee t run =
      let (sums, e, rest) = >>=-returns (lock_inputs lib debug 0 [] inputs) _ run in
      ground (arith, lock_inputs-sum 0 [] inputs e)

  -- Where the spending transaction is made and the fee is at most the amount, its input is worth
  -- the amount, it has one output, of the amount less the fee, its lock time is the one that is
  -- asked for, and the input is final exactly where that is 0.
  pub spend_outputs :
      (p : Profile) (recv_pk : PublicKey) (input : BtcInput) (amount fee lock_time : ℕ)
      {tx : Tx lib}
      → fee ≤ amount
      → create_spend_lock_transaction lib p recv_pk input amount fee lock_time ≡ ok tx
      → (input.value ≡ amount)
        × (output_value tx.output + fee ≡ input.value)
        × (tx.lock_time ≡ lock_time)
        × (tx.output ≡ record { value = amount - fee; script_pubkey = lib.new_p2pkh recv_pk } ∷ [])
        × (txid : Txid) × (txid_from_str input.txid ≡ some txid)
        × (tx.input
            ≡ unsigned_input lib txid input.vout (if lock_time == 0 then ffffffff else 0) ∷ [])
  unfolding create_spend_lock_transaction sub_u64
  spend_outputs p r input amount fee lock_time h run =
      let (txid, e, rest) = >>=-returns (unwrap_option (txid_from_str input.txid)) _ run in
      (ground arith, ground arith, ground arith, ground arith, txid, ground arith, ground arith)

  -- An input that is worth less than the fee is not refused, where its txid parses: a debug build
  -- panics, and a release build makes a transaction whose outputs are worth 2^64 less what is
  -- missing.
  pub spend_below_fee :
      (recv_pk : PublicKey) (input : BtcInput) (fee lock_time : ℕ) (txid : Txid)
      → txid_from_str input.txid ≡ some txid
      → input.value < fee
      → (create_spend_lock_transaction lib debug recv_pk input input.value fee lock_time ≡ panic)
        × (tx : Tx lib) × (create_spend_lock_transaction lib release recv_pk input input.value fee
              lock_time
            ≡ ok tx)
        × (output_value tx.output ≡ input.value + u64_mod - fee)
  unfolding create_spend_lock_transaction sub_u64
  spend_below_fee r input fee lock_time txid e h = (
    ground arith,
    record {
      version = 1;
      lock_time = lock_time;
      input = unsigned_input lib txid input.vout (if lock_time == 0 then ffffffff else 0) ∷ [];
      output = record { value = input.value + u64_mod - fee; script_pubkey = lib.new_p2pkh r } ∷ [];
    },
    ground arith,
    omega arith,
  )
