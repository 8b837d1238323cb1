-- ===== src/Bitcoin/Crate.antt =====
-- What src/bitcoin takes from the crates `bitcoin`, `secp256k1` and `hex`: the shapes of their
-- plain structures, and their functions as the fields of a record that the model is given.
use mw_btc_swap.Prelude.{ℕ, ℤ, Text, Bool, Option, List}

pub data Network : Type 0 where
  mainnet testnet : Network

pub record PrivateKey (SecretKey : Type 0) : Type 0 where
  pub compressed : Bool
  pub network : Network
  pub key : SecretKey

pub record OutPoint (Txid : Type 0) : Type 0 where
  pub txid : Txid
  pub vout : ℕ

pub record TxIn (Txid Script : Type 0) : Type 0 where
  pub previous_output : OutPoint Txid
  pub script_sig : Script
  pub sequence : ℕ
  pub witness : List Text

pub record TxOut (Script : Type 0) : Type 0 where
  pub value : ℕ
  pub script_pubkey : Script

pub record Transaction (Txid Script : Type 0) : Type 0 where
  pub version : ℕ
  pub lock_time : ℕ
  pub input : List (TxIn Txid Script)
  pub output : List (TxOut Script)

pub data Opcode : Type 0 where
  op_if op_else op_endif op_drop op_cltv op_checksig op_checkmultisig : Opcode
  op_pushnum_2 op_pushbytes_0 : Opcode

-- One call on a script `Builder`: `push_opcode`, `push_int`, `push_key`, `push_slice`.
pub data Push (PublicKey : Type 0) : Type 0 where
  opcode : Opcode → Push PublicKey
  int : ℤ → Push PublicKey
  key : PublicKey → Push PublicKey
  slice : Text → Push PublicKey

pub record BitcoinLib : Type 1 where
  pub SecretKey : Type 0
  pub PublicKey : Type 0
  pub Signature : Type 0
  pub SigHash : Type 0
  pub Txid : Type 0
  pub Script : Type 0
  pub Address : Type 0
  -- `PublicKey::from_private_key`, `PrivateKey::public_key`
  pub public_key : PrivateKey SecretKey → PublicKey
  pub to_wif : PrivateKey SecretKey → Text
  pub from_wif : Text → Option (PrivateKey SecretKey)
  pub key_to_string : PublicKey → Text
  pub key_from_str : Text → Option PublicKey
  -- `Txid::from_hash(Hash::from_str(s))`
  pub txid_from_str : Text → Option Txid
  pub txid_to_string : Txid → Text
  pub hex_encode : Text → Text
  pub hex_decode : Text → Option Text
  -- the pushes of a `Builder`, then `into_script`
  pub build : List (Push PublicKey) → Script
  pub to_bytes : Script → Text
  pub from_bytes : Text → Script
  -- `Script::new_p2sh(s.script_hash())`, `Script::new_p2pkh(k.pubkey_hash())`
  pub new_p2sh : Script → Script
  pub new_p2pkh : PublicKey → Script
  pub address_from_script : Script → Network → Option Address
  pub address_to_string : Address → Text
  -- `Message::from_slice(tx.signature_hash(i, script, flag))`
  pub signature_hash : Transaction Txid Script → ℕ → Script → ℕ → SigHash
  pub sign : SigHash → SecretKey → Signature
  pub serialize_der : Signature → Text
  pub txid : Transaction Txid Script → Txid
  pub serialize : Transaction Txid Script → Text
