-- ===== src/Bitcoin/Routines.antt =====
-- src/bitcoin/btcroutines.rs: the lock transaction of the swap and the two that spend it.
pub mod Amounts
use mw_btc_swap.Prelude.{
  ℕ, codes, Bool, List, [], ◌∷◌, ◌++◌, Outcome, ok, err, unwrap_option, ℤ, Profile, add_u64,
  sub_u64, ltb, ◌==◌, true, if◌then◌else◌,
}
use mw_btc_swap.Prelude.Results.{◌>>=◌}
use mw_btc_swap.Constants.{ffffffff, test_net}
use mw_btc_swap.Bitcoin.Crate.{
  Network, mainnet, testnet, PrivateKey, TxIn, Transaction, op_if, op_else, op_endif, op_drop,
  op_cltv, op_checksig, op_checkmultisig, op_pushnum_2, Push, opcode, int, key, BitcoinLib,
}
use mw_btc_swap.Bitcoin.Types.{BtcInput}

abbrev pub network : Network
network = if test_net then testnet else mainnet

module _ (lib : BitcoinLib) where
  open lib use {
    SecretKey, PublicKey, Signature, SigHash, Txid, Script, Address, public_key, to_wif, from_wif,
    key_to_string, key_from_str, txid_from_str, txid_to_string, hex_encode, hex_decode, build,
    to_bytes, from_bytes, new_p2sh, new_p2pkh, address_from_script, signature_hash, sign,
    serialize_der,
  }

  abbrev pub Tx : Type 0
  Tx = Transaction Txid Script

  -- `sk` is the key that the randomness generator gives.
  unfoldable pub create_private_key : SecretKey → PrivateKey SecretKey
  create_private_key sk = record { compressed = true; network = network; key = sk }

  -- The branches of the lock script, and the script itself or its P2SH form.
  unfoldable pub lock_pushes : PublicKey → PublicKey → PublicKey → ℤ → List (Push PublicKey)
  lock_pushes recv_pk pub_x refund_pk refund_time =
      opcode op_if
      ∷ int refund_time
      ∷ opcode op_cltv
      ∷ opcode op_drop
      ∷ key refund_pk
      ∷ opcode op_checksig
      ∷ opcode op_else
      ∷ opcode op_pushnum_2
      ∷ key recv_pk
      ∷ key pub_x
      ∷ opcode op_pushnum_2
      ∷ opcode op_checkmultisig
      ∷ opcode op_endif
      ∷ []

  unfoldable pub get_lock_pub_script : PublicKey → PublicKey → PublicKey → ℤ → Bool → Script
  unfolding lock_pushes
  get_lock_pub_script recv_pk pub_x refund_pk refund_time wrap_in_p2sh =
      let script = build (lock_pushes recv_pk pub_x refund_pk refund_time) in
      if wrap_in_p2sh then new_p2sh script else script

  unfoldable pub get_p2pkh_pub_script : PublicKey → Script
  get_p2pkh_pub_script recv_pk = new_p2pkh recv_pk

  unfoldable pub script_to_address : Script → Outcome Address
  script_to_address s = unwrap_option (address_from_script s network)

  -- `TxIn { .. }` with an empty script and no witness.
  abbrev pub unsigned_input : Txid → ℕ → ℕ → TxIn Txid Script
  unsigned_input txid vout sequence = record {
    previous_output = record { txid = txid; vout = vout };
    script_sig = build [];
    sequence = sequence;
    witness = [];
  }

  -- The loop over the inputs of the lock transaction: their sum so far, and the inputs so far.
  unfoldable pub lock_inputs :
      Profile → ℕ → List (TxIn Txid Script) → List BtcInput → Outcome (ℕ × List (TxIn Txid Script))
  lock_inputs p inp_amount txinp [] = ok (inp_amount, txinp)
  lock_inputs p inp_amount txinp (btcinp ∷ rest) =
      unwrap_option (txid_from_str btcinp.txid) >>= λ txid.
      add_u64 p inp_amount btcinp.value >>= λ sum.
      lock_inputs p sum (txinp ++ unsigned_input txid btcinp.vout ffffffff ∷ []) rest

  unfoldable pub create_lock_transaction :
      Profile
      → PublicKey
      → PublicKey
      → PublicKey
      → PublicKey
      → List BtcInput
      → ℕ
      → ℕ
      → ℤ
      → Outcome Tx
  unfolding lock_inputs get_lock_pub_script get_p2pkh_pub_script
  create_lock_transaction p recv_pk pub_x refund_pk change_pk inputs amount fee refund_time =
      lock_inputs p 0 [] inputs >>= λ (inp_amount, txinp). add_u64 p amount fee >>= λ needed.
      if ltb inp_amount needed
      then err (codes "Input coin amount is too little")
      else (sub_u64 p inp_amount amount >>= λ left. sub_u64 p left fee >>= λ change. ok (record {
        version = 1;
        lock_time = 0;
        input = txinp;
        output =
            record {
              value = amount;
              script_pubkey = get_lock_pub_script recv_pk pub_x refund_pk refund_time true;
            }
            ∷ record { value = change; script_pubkey = get_p2pkh_pub_script change_pk }
            ∷ [];
      }))

  unfoldable pub create_spend_lock_transaction :
      Profile → PublicKey → BtcInput → ℕ → ℕ → ℕ → Outcome Tx
  create_spend_lock_transaction p recv_pk input amount fee lock_time =
      unwrap_option (txid_from_str input.txid) >>= λ txid.
      if input.value == amount
      then (sub_u64 p amount fee >>= λ value. ok (record {
        version = 1;
        lock_time = lock_time;
        input = unsigned_input txid input.vout (if lock_time == 0 then ffffffff else 0) ∷ [];
        output = record { value = value; script_pubkey = new_p2pkh recv_pk } ∷ [];
      }))
      else err (codes "Please fully redeem input coin")
