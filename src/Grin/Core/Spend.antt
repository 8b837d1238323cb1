-- ===== src/Grin/Core/Spend.antt =====
-- src/grin/grin_core.rs: spend_coins.
pub mod Inputs
pub mod Accepts
pub mod Balance
pub mod ChangeCoin
use mw_btc_swap.Prelude.{
  ℕ, suc, ◌-◌, Text, codes, text_eq, Bool, true, false, not, ◌||◌, Option, none, some, List, [],
  ◌∷◌, Outcome, ok, unwrap_option, if◌then◌else◌, ltb, ◌==◌, Profile, add_u64,
}
use mw_btc_swap.Prelude.Results.{◌>>=◌ as ◌>>=ₒ◌}
use mw_btc_swap.Prelude.Actions.{Action, pure, fail, gets, lift, ◌>>=◌, ◌>>◌}
use mw_btc_swap.Bitcoin.Crate.{BitcoinLib}
use mw_btc_swap.Swap.World.{to_i64}
use mw_btc_swap.Grin.Types.{MwCoin}
use mw_btc_swap.Grin.Crate.{
  GrinTypes, GrinCrate, BlindSum, empty_sum, add_blinding_factor, sub_blinding_factor, Slate,
}
use mw_btc_swap.Grin.Routines.{
  GrinCore, create_secret_key, deserialize_commitment, deserialize_secret_key, new_coin,
}
use mw_btc_swap.Grin.Core.{SpendCoinsResult}

-- The sum of the values.
unfoldable pub input_value : Profile → ℕ → List MwCoin → Outcome ℕ
input_value p inpval [] = ok inpval
input_value p inpval (coin ∷ rest) = add_u64 p inpval coin.value >>=ₒ λ sum. input_value p sum rest

-- The two loops that look for a commitment twice: each coin is compared with the coins at every
-- other place.
abbrev pub has_commitment : Text → List MwCoin → Bool
has_commitment commitment [] = false
has_commitment commitment (cmp ∷ rest) =
    text_eq commitment cmp.commitment || has_commitment commitment rest

unfoldable pub duplicate : List MwCoin → List MwCoin → Bool
duplicate before [] = false
duplicate before (coin ∷ behind) =
    (has_commitment coin.commitment before || has_commitment coin.commitment behind)
    || duplicate (coin ∷ before) behind

abbrev pub is_empty : List MwCoin → Bool
is_empty [] = true
is_empty (coin ∷ rest) = false

abbrev pub length : {A : Type 0} → List A → ℕ
length [] = 0
length (x ∷ xs) = suc (length xs)

abbrev pub invalid_fund_value : Text
invalid_fund_value = codes "Invalid parameters for fund_value provided"

abbrev pub no_inputs : Text
no_inputs = codes "No inputs provided"

abbrev pub too_little : Text
too_little = codes "Spend coins function failed, input coins do not have enough value"

abbrev pub twice : Text
twice = codes "Spend coins function failed, duplicate input coins provided"

-- The change as an `i64`: what is above 0 of it.
unfoldable pub change_of : ℕ → ℕ → ℕ → Outcome ℕ
change_of inpval fund_value fee = to_i64 inpval >>=ₒ λ a.
    to_i64 fund_value >>=ₒ λ b. to_i64 fee >>=ₒ λ c. ok (inpval - fund_value - fee)

-- `num_of_outputs > 1 && inpval < (fund_value + fee) || inpval < fund_value`
unfoldable pub too_small : Profile → ℕ → ℕ → ℕ → ℕ → Outcome Bool
too_small p inpval fund_value fee num_of_outputs =
    if ltb 1 num_of_outputs
    then (add_u64 p fund_value fee >>=ₒ λ needed. ok (ltb inpval needed || ltb inpval fund_value))
    else ok (ltb inpval fund_value)

abbrev pub lock_height_param : ℕ → Option ℕ
lock_height_param timelock = if not (timelock == 0) then some timelock else none

abbrev pub kernel_feat_param : ℕ → ℕ
kernel_feat_param timelock = if not (timelock == 0) then 2 else 0

module _ {lib : BitcoinLib} {t : GrinTypes} (g : GrinCrate lib t) where
  -- The inputs of the transaction, and the blinding factors that are subtracted for them.
  unfoldable pub add_inputs :
      List MwCoin
      → BlindSum t.BlindingFactor
      → Outcome (List t.Commitment × BlindSum t.BlindingFactor)
  add_inputs [] sum = ok ([], sum)
  add_inputs (coin ∷ rest) sum = deserialize_commitment g coin.commitment >>=ₒ λ commitment.
      deserialize_secret_key g coin.blinding_factor >>=ₒ λ inp_key.
      add_inputs rest (sub_blinding_factor (g.bf_from_secret_key inp_key) sum) >>=ₒ λ r.
      ok (commitment ∷ r.0, r.1)

  -- The transaction and the sum with the change output, and its commitment.
  pub record Change : Type 0 where
    pub tx : t.Transaction
    pub blind_sum : BlindSum t.BlindingFactor
    pub commitment : Option t.Commitment

  unfoldable pub add_change :
      ℕ
      → t.SecretKey
      → t.SecretKey
      → t.SecretKey
      → t.Transaction
      → BlindSum t.BlindingFactor
      → Outcome Change
  add_change change_value key rew_nonce prf_nonce tx sum =
      if ltb 0 change_value
      then (unwrap_option (g.commit change_value key) >>=ₒ λ commitment. ok (record {
        tx =
            g.with_output
              (record {
                commit = commitment;
                proof = g.bullet_proof change_value key rew_nonce prf_nonce;
              })
              tx;
        blind_sum = add_blinding_factor (g.bf_from_secret_key key) sum;
        commitment = some commitment;
      }))
      else ok (record { tx = tx; blind_sum = sum; commitment = none })

  abbrev pub change_coin_of : Option t.Commitment → t.SecretKey → ℕ → Option MwCoin
  change_coin_of none key value = none
  change_coin_of (some commitment) key value = some (new_coin g commitment key value)

  -- The inputs, the change, and the sum of the blinding factors with that of the change.
  unfoldable pub add_coins :
      List MwCoin → ℕ → t.SecretKey → t.SecretKey → t.SecretKey → Outcome Change
  unfolding add_inputs add_change
  add_coins inputs change_value key rew_nonce prf_nonce = add_inputs inputs empty_sum >>=ₒ λ added.
      add_change change_value key rew_nonce prf_nonce
        (g.transaction_new added.0 (g.tx_outputs g.empty_tx) (g.tx_kernels g.empty_tx)) added.1

  -- The slate with this party's entry, and the key it signs with: the sum less the offset.
  unfoldable pub fill_slate :
      t.Keychain
      → Slate t
      → t.BlindingFactor
      → t.SecretKey
      → t.FeeFields
      → ℕ
      → Change
      → Outcome (t.SecretKey × Slate t)
  fill_slate chain slate offset sig_nonce fee_field fund_value change =
      unwrap_option (g.blind_sum chain change.blind_sum) >>=ₒ λ final_bf.
      unwrap_option (g.bf_split final_bf offset) >>=ₒ λ split.
      unwrap_option (g.bf_secret_key split) >>=ₒ λ final_key.
      unwrap_option (g.bf_secret_key final_bf) >>=ₒ λ initial_sec_key.
      unwrap_option (
        g.fill_round_1 chain
          (record {
            sec_key = final_key;
            sec_nonce = sig_nonce;
            initial_sec_key = initial_sec_key;
            initial_sec_nonce = sig_nonce;
            amount = fund_value;
            fee = some fee_field;
          })
          (record slate {
            fee_fields = fee_field;
            amount = fund_value;
            offset = offset;
            tx = some (g.with_offset offset change.tx);
          }))
      >>=ₒ λ filled. ok (final_key, filled)

  -- What is drawn before anything is computed, in this order.
  pub record SpendKeys : Type 0 where
    pub change_coin_key : t.SecretKey
    pub sig_nonce : t.SecretKey
    pub prf_nonce : t.SecretKey
    pub rew_nonce : t.SecretKey
    pub offset_key : t.SecretKey

  unfoldable pub draw_keys : Action (GrinCore t) SpendKeys
  unfolding create_secret_key
  draw_keys = do
    change_coin_key ← create_secret_key
    sig_nonce ← create_secret_key
    prf_nonce ← create_secret_key
    rew_nonce ← create_secret_key
    offset_key ← create_secret_key
    pure (record {
      change_coin_key = change_coin_key;
      sig_nonce = sig_nonce;
      prf_nonce = prf_nonce;
      rew_nonce = rew_nonce;
      offset_key = offset_key;
    })

  unfoldable pub build :
      SpendKeys → t.Keychain → List MwCoin → ℕ → ℕ → ℕ → Slate t → Outcome (SpendCoinsResult t)
  build keys chain inputs inpval fund_value fee slate =
      unwrap_option (g.fee_fields_new 0 fee) >>=ₒ λ fee_field.
      change_of inpval fund_value fee >>=ₒ λ change_value.
      add_coins inputs change_value keys.change_coin_key keys.rew_nonce keys.prf_nonce
      >>=ₒ λ change.
          fill_slate chain slate (g.bf_from_secret_key keys.offset_key) keys.sig_nonce fee_field
            fund_value change
          >>=ₒ λ filled. ok (record {
            slate = filled.1;
            sig_key = filled.0;
            sig_nonce = keys.sig_nonce;
            change_coin = change_coin_of change.commitment keys.change_coin_key change_value;
          })

  -- What follows the validation. `slate` is the blank slate.
  unfoldable pub pre_transaction :
      List MwCoin → ℕ → ℕ → ℕ → Slate t → Action (GrinCore t) (SpendCoinsResult t)
  pre_transaction inputs inpval fund_value fee slate = do
    keys ← draw_keys
    chain ← gets (λ s. s.chain)
    lift (build keys chain inputs inpval fund_value fee slate)

  unfoldable pub spend_coins :
      Profile → List MwCoin → ℕ → ℕ → ℕ → ℕ → Action (GrinCore t) (SpendCoinsResult t)
  spend_coins p inputs fund_value timelock num_of_outputs participants = do
    inpval ← lift (input_value p 0 inputs)
    if is_empty inputs
        then fail no_inputs
        else if fund_value == 0
        then fail invalid_fund_value
        else (do
          short ← lift (
              too_small p inpval fund_value (g.tx_fee (length inputs) num_of_outputs 1)
                num_of_outputs)
          if short
              then fail too_little
              else if duplicate [] inputs
              then fail twice
              else pre_transaction inputs inpval fund_value
                  (g.tx_fee (length inputs) num_of_outputs 1)
                  (g.blank_with_kernel_features participants false (kernel_feat_param timelock)
                    (lock_height_param timelock)))
