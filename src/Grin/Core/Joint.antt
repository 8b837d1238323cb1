-- ===== src/Grin/Core/Joint.antt =====
-- src/grin/grin_core.rs: d_spend_coins, by which the second owner of a shared coin joins.
use mw_btc_swap.Prelude.{
  ℕ, Text, codes, Bool, false, not, none, some, List, [], ◌∷◌, Outcome, ok, unwrap_option,
  if◌then◌else◌, ◌==◌,
}
use mw_btc_swap.Prelude.Results.{◌>>=◌ as ◌>>=ₒ◌}
use mw_btc_swap.Prelude.Actions.{Action, pure, fail, gets, lift, ◌>>=◌, ◌>>◌}
use mw_btc_swap.Bitcoin.Crate.{BitcoinLib}
use mw_btc_swap.Grin.Types.{MwCoin}
use mw_btc_swap.Grin.Crate.{GrinTypes, GrinCrate, BlindSum, empty_sum, sub_blinding_factor, Slate}
use mw_btc_swap.Grin.Routines.{GrinCore, create_secret_key, need, deserialize_secret_key}
use mw_btc_swap.Grin.Core.{SpendCoinsResult, tx_or_empty, verify_outputs}
use mw_btc_swap.Grin.Core.Spend.{length}

-- The features of the kernel are those of the timelock. `kernel_features_args` is unwrapped
-- where the features are 2.
unfoldable pub valid_features : {t : GrinTypes} → Slate t → ℕ → Outcome Bool
valid_features slate timelock =
    if not (timelock == 0)
    then (if slate.kernel_features == 2
        then (unwrap_option slate.kernel_features_args >>=ₒ λ height. ok (height == timelock))
        else ok false)
    else ok (slate.kernel_features == 0)

abbrev pub wrong_amount : Text
wrong_amount = codes "Transaction amount found to be invalid"

abbrev pub wrong_inputs : Text
wrong_inputs = codes "Inputs don't match with coins given in parameters"

abbrev pub wrong_timelock : Text
wrong_timelock = codes "Transaction timelock is not setup correctly!"

module _ {lib : BitcoinLib} {t : GrinTypes} (g : GrinCrate lib t) where
  -- The blinding factors that are subtracted for the shares of the inputs, which are left as they
  -- are.
  unfoldable pub sub_keys :
      List MwCoin → BlindSum t.BlindingFactor → Outcome (BlindSum t.BlindingFactor)
  sub_keys [] sum = ok sum
  sub_keys (coin ∷ rest) sum = deserialize_secret_key g coin.blinding_factor >>=ₒ λ inp_key.
      sub_keys rest (sub_blinding_factor (g.bf_from_secret_key inp_key) sum)

  -- The second spender joins: its keys are its shares of the inputs.
  unfoldable pub join : List MwCoin → Slate t → ℕ → Action (GrinCore t) (SpendCoinsResult t)
  join inputs slate fund_value = do
    sum ← lift (sub_keys inputs empty_sum)
    chain ← gets (λ s. s.chain)
    final_bf ← need (g.blind_sum chain sum)
    final_key ← need (g.bf_secret_key final_bf)
    sig_nonce ← create_secret_key
    filled ← need (
        g.fill_round_1 chain
          (record {
            sec_key = final_key;
            sec_nonce = sig_nonce;
            initial_sec_key = final_key;
            initial_sec_nonce = sig_nonce;
            amount = fund_value;
            fee = some slate.fee_fields;
          })
          slate)
    pure (record { slate = filled; sig_key = final_key; sig_nonce = sig_nonce; change_coin = none })

  unfoldable pub d_spend_coins :
      List MwCoin → Slate t → ℕ → ℕ → Action (GrinCore t) (SpendCoinsResult t)
  d_spend_coins inputs slate fund_value timelock = do
    lift (verify_outputs g (g.tx_outputs (tx_or_empty g slate.tx)))
    if not (slate.amount == fund_value)
        then fail wrong_amount
        else if not (length (g.tx_inputs (tx_or_empty g slate.tx)) == length inputs)
        then fail wrong_inputs
        else (do
          valid ← lift (valid_features slate timelock)
          if not valid then fail wrong_timelock else join inputs slate fund_value)
