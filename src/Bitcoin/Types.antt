-- ===== src/Bitcoin/Types.antt =====
-- src/bitcoin/bitcoin_types.rs.
use mw_btc_swap.Prelude.{ℕ, Text}
use mw_btc_swap.Bitcoin.Crate.{BitcoinLib, PrivateKey}

-- `BTCInput`; the secret is in WIF.
pub record BtcInput : Type 0 where
  pub txid : Text
  pub vout : ℕ
  pub value : ℕ
  pub secret : Text
  pub pub_key : Text
  pub pub_script : Text

module _ (lib : BitcoinLib) where
  open lib use {SecretKey, PublicKey, Script, to_wif, key_to_string, hex_encode, to_bytes}

  unfoldable pub new2 : Text → ℕ → ℕ → PrivateKey SecretKey → PublicKey → Script → BtcInput
  new2 txid vout value secret pub_key pub_script = record {
    txid = txid;
    vout = vout;
    value = value;
    secret = to_wif secret;
    pub_key = key_to_string pub_key;
    pub_script = hex_encode (to_bytes pub_script);
  }
