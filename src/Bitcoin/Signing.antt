-- ===== src/Bitcoin/Signing.antt =====
-- src/bitcoin/btcroutines.rs: signatures, and the text forms of scripts and keys.
pub mod Spend
pub mod Shape
pub mod Contract
use mw_btc_swap.Prelude.{
  ℕ, zero, suc, ◌+◌, Text, List, [], ◌∷◌, ◌++◌, Outcome, ok, panic, unwrap_option, pos, ◌==◌, true,
  Option, if◌then◌else◌,
}
use mw_btc_swap.Prelude.Results.{◌>>=◌}
use mw_btc_swap.Constants.{sighash_all}
use mw_btc_swap.Bitcoin.Crate.{
  testnet, PrivateKey, TxIn, op_pushbytes_0, Push, opcode, int, key, slice, BitcoinLib,
}
use mw_btc_swap.Bitcoin.Routines.{Tx}

-- `list.get(i).unwrap()`
unfoldable pub nth {ℓ} : {A : Type ℓ} → List A → ℕ → Outcome A
nth [] i = panic
nth (x ∷ xs) zero = ok x
nth (x ∷ xs) (suc i) = nth xs i

module _ (lib : BitcoinLib) where
  open lib use {
    SecretKey, PublicKey, Signature, Txid, Script, to_wif, from_wif, key_to_string, key_from_str,
    hex_encode, hex_decode, build, to_bytes, from_bytes, signature_hash, sign, serialize_der,
  }

  unfoldable pub serialize_sig_der_with_sighash : Signature → ℕ → Text
  serialize_sig_der_with_sighash sig sig_hash = serialize_der sig ++ sig_hash ∷ []

  -- The signature of an input under a script: hash, sign, serialise.
  unfoldable pub signed_hash : Tx lib → ℕ → Script → PrivateKey SecretKey → Text
  unfolding serialize_sig_der_with_sighash
  signed_hash tx i script sk =
      serialize_sig_der_with_sighash (sign (signature_hash tx i script sighash_all) sk.key)
        sighash_all

  -- `TxIn { script_sig, ..unsigned_inp }`
  abbrev pub with_script : TxIn Txid Script → Script → TxIn Txid Script
  with_script unsigned_inp script = record unsigned_inp { script_sig = script }

  unfoldable pub sign_p2pkh_inputs :
      Tx lib
      → ℕ
      → List (TxIn Txid Script)
      → List Script
      → List (PrivateKey SecretKey)
      → List PublicKey
      → Outcome (List (TxIn Txid Script))
  unfolding nth signed_hash
  sign_p2pkh_inputs tx i [] scripts skeys pkeys = ok []
  sign_p2pkh_inputs tx i (unsigned_inp ∷ rest) scripts skeys pkeys =
      nth scripts i >>= λ script_pubkey. nth skeys i >>= λ signing_key. nth pkeys i >>= λ pub_key.
      sign_p2pkh_inputs tx (i + 1) rest scripts skeys pkeys >>= λ signed. ok (
        with_script unsigned_inp
          (build (slice (signed_hash tx i script_pubkey signing_key) ∷ key pub_key ∷ []))
        ∷ signed)

  unfoldable pub sign_p2pkh_transaction :
      Tx lib → List Script → List (PrivateKey SecretKey) → List PublicKey → Outcome (Tx lib)
  unfolding sign_p2pkh_inputs
  sign_p2pkh_transaction tx script_pubkeys skeys pkeys =
      sign_p2pkh_inputs tx 0 tx.input script_pubkeys skeys pkeys >>= λ signed_inp.
      ok (record tx { input = signed_inp })

  -- The loops over the inputs: the input at `ix` gets the script, the others stay.
  unfoldable pub sign_input_at : ℕ → ℕ → Script → List (TxIn Txid Script) → List (TxIn Txid Script)
  sign_input_at i ix fin_script [] = []
  sign_input_at i ix fin_script (unsigned_inp ∷ rest) =
      (if i == ix then with_script unsigned_inp fin_script else unsigned_inp)
      ∷ sign_input_at (i + 1) ix fin_script rest

  unfoldable pub redeem_script :
      Tx lib → ℕ → Script → PrivateKey SecretKey → PrivateKey SecretKey → List (Push PublicKey)
  unfolding signed_hash
  redeem_script tx ix lock_script sk x =
      opcode op_pushbytes_0
      ∷ slice (signed_hash tx ix lock_script sk)
      ∷ slice (signed_hash tx ix lock_script x)
      ∷ opcode op_pushbytes_0
      ∷ slice (to_bytes lock_script)
      ∷ []

  unfoldable pub sign_lock_transaction_redeemer :
      Tx lib → ℕ → Script → PrivateKey SecretKey → PrivateKey SecretKey → Tx lib
  unfolding sign_input_at redeem_script
  sign_lock_transaction_redeemer tx ix lock_script sk x = record tx {
    input = sign_input_at 0 ix (build (redeem_script tx ix lock_script sk x)) tx.input;
  }

  unfoldable pub refund_script : Tx lib → ℕ → Script → PrivateKey SecretKey → List (Push PublicKey)
  unfolding signed_hash
  refund_script tx ix lock_script sk =
      slice (signed_hash tx ix lock_script sk) ∷ int (pos 1) ∷ slice (to_bytes lock_script) ∷ []

  unfoldable pub sign_lock_transaction_refund : Tx lib → ℕ → Script → PrivateKey SecretKey → Tx lib
  unfolding sign_input_at refund_script
  sign_lock_transaction_refund tx ix lock_script sk = record tx {
    input = sign_input_at 0 ix (build (refund_script tx ix lock_script sk)) tx.input;
  }

  unfoldable pub serialize_script : Script → Text
  serialize_script script = hex_encode (to_bytes script)

  unfoldable pub deserialize_script : Text → Outcome Script
  deserialize_script script_str = unwrap_option (hex_decode script_str) >>= λ b. ok (from_bytes b)

  unfoldable pub serialize_priv_key : PrivateKey SecretKey → Text
  serialize_priv_key sk = to_wif sk

  unfoldable pub deserialize_priv_key : Text → Outcome (PrivateKey SecretKey)
  deserialize_priv_key sk = unwrap_option (from_wif sk)

  unfoldable pub serialize_pub_key : PublicKey → Text
  serialize_pub_key pk = key_to_string pk

  unfoldable pub deserialize_pub_key : Text → Outcome PublicKey
  deserialize_pub_key str = unwrap_option (key_from_str str)

  -- The two crates use the same curve; `key` is the secret read from the bytes of the Grin key.
  unfoldable pub private_key_from_grin_sk : Option SecretKey → Outcome (PrivateKey SecretKey)
  private_key_from_grin_sk from_slice = unwrap_option from_slice >>= λ k.
      ok (record { compressed = true; network = testnet; key = k })
