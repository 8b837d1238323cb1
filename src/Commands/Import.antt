-- ===== src/Commands/Import.antt =====
-- src/commands/cmd_types/{accept, import_btc, import_grin}.rs: a party that was given the public
-- slate, and the inputs that it imports into its private slate.
pub mod Counted
use mw_btc_swap.Prelude.{ℕ, Text, [], ◌∷◌, ◌++◌, Outcome, ok, unwrap, unwrap_option}
use mw_btc_swap.Prelude.Results.{◌>>=◌}
use mw_btc_swap.Prelude.Actions.{Action, after}
use mw_btc_swap.Settings.{Settings}
use mw_btc_swap.Bitcoin.Crate.{BitcoinLib, PrivateKey}
use mw_btc_swap.Bitcoin.Types.{BtcInput}
use mw_btc_swap.Grin.Types.{MwCoin}
use mw_btc_swap.Swap.Types.{SwapSlate}
use mw_btc_swap.Swap.Slate.{SlateJson, Disk, create_priv_from_pub, read_slate_from_disk}

pub record ImportBtc : Type 0 where
  pub swpid : ℕ
  pub txid : Text
  pub vout : ℕ
  pub value : ℕ
  pub sk : Text
  pub pub_script : Text

pub record ImportGrin : Type 0 where
  pub swpid : ℕ
  pub commitment : Text
  pub blinding_factor : Text
  pub value : ℕ

abbrev pub btc_input : (lib : BitcoinLib) → ImportBtc → PrivateKey lib.SecretKey → BtcInput
btc_input lib self sec_key = record {
  txid = self.txid;
  vout = self.vout;
  value = self.value;
  secret = lib.to_wif sec_key;
  pub_key = lib.key_to_string (lib.public_key sec_key);
  pub_script = self.pub_script;
}

abbrev pub grin_coin : ImportGrin → MwCoin
grin_coin self = record {
  commitment = self.commitment;
  blinding_factor = self.blinding_factor;
  value = self.value;
}

-- `inputs.push(..)`
module _ {Tx : Type 0} where
  abbrev pub push_btc : BtcInput → SwapSlate Tx → SwapSlate Tx
  push_btc input slate = record slate {
    prv_slate = record (slate.prv_slate) {
      btc = record (slate.prv_slate.btc) { inputs = slate.prv_slate.btc.inputs ++ (input ∷ []) };
    };
  }

  abbrev pub push_grin : MwCoin → SwapSlate Tx → SwapSlate Tx
  push_grin input slate = record slate {
    prv_slate = record (slate.prv_slate) {
      mw = record (slate.prv_slate.mw) { inputs = slate.prv_slate.mw.inputs ++ (input ∷ []) };
    };
  }

module _ {Tx : Type 0} (json : SlateJson Tx) (settings : Settings) where
  unfoldable pub accept : ℕ → Action Disk (SwapSlate Tx)
  unfolding create_priv_from_pub
  accept swapid = after unwrap (create_priv_from_pub json swapid settings.slate_directory)

  unfoldable pub import_btc : (lib : BitcoinLib) → ImportBtc → Disk → Outcome (SwapSlate Tx)
  unfolding read_slate_from_disk
  import_btc lib self d =
      unwrap (read_slate_from_disk json self.swpid settings.slate_directory d) >>= λ slate.
      unwrap_option (lib.from_wif self.sk) >>= λ sec_key.
      ok (push_btc (btc_input lib self sec_key) slate)

  unfoldable pub import_grin : ImportGrin → Disk → Outcome (SwapSlate Tx)
  unfolding read_slate_from_disk
  import_grin self d =
      unwrap (read_slate_from_disk json self.swpid settings.slate_directory d) >>= λ slate.
      ok (push_grin (grin_coin self) slate)
