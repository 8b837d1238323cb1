-- ===== src/Grin/Core/Spend/Accepts.antt =====
-- What spend_coins lets through, and what it returns then (src/grin/grin_core.rs).
use mw_btc_swap.Prelude.{
  ℕ, ◌+◌, ◌<◌, ◌≤◌, ◌≡◌, ◌≢◌, false, List, [], ◌∷◌, ok, unwrap_option, Profile, u64_mod, add_u64,
  ◌==◌, arith, sym, ap, ◌∙◌,
}
use mw_btc_swap.Prelude.Results.{>>=-returns, ok_injective}
use mw_btc_swap.Prelude.Actions.{>>=-ok, lift->>=-ok, guard-ok}
use mw_btc_swap.Bitcoin.Crate.{BitcoinLib}
use mw_btc_swap.Grin.Types.{MwCoin}
use mw_btc_swap.Grin.Crate.{GrinTypes, GrinCrate, Slate}
use mw_btc_swap.Grin.Routines.{GrinCore}
use mw_btc_swap.Grin.Core.{SpendCoinsResult}
use mw_btc_swap.Grin.Core.Spend.{
  input_value, duplicate, SpendKeys, draw_keys, Change, add_coins, fill_slate, build, change_of,
  change_coin_of, pre_transaction, too_small, spend_coins, length, is_empty, kernel_feat_param,
  lock_height_param,
}
use mw_btc_swap.Grin.Core.Spend.Inputs.{total, Distinct, input_value-total, duplicate-Distinct}

module _ {lib : BitcoinLib} {t : GrinTypes} (g : GrinCrate lib t) where
  -- The values between the lines of a run of `build` that returned.
  pub record Spent (keys : SpendKeys g) (inputs : List MwCoin) (inpval fund_value fee : ℕ)
      (slate : Slate t) (r : SpendCoinsResult t) : Type 0 where
    pub chain : t.Keychain
    pub fee_field : t.FeeFields
    pub change_value : ℕ
    pub change : Change g
    pub is_change_value : change_of inpval fund_value fee ≡ ok change_value
    pub is_change :
        add_coins g inputs change_value keys.change_coin_key keys.rew_nonce keys.prf_nonce
        ≡ ok change
    pub is_filled :
        fill_slate g chain slate
          (g.bf_from_secret_key keys.offset_key)
          keys.sig_nonce
          fee_field
          fund_value
          change
        ≡ ok (r.sig_key, r.slate)
    pub is_coin :
        r.change_coin ≡ change_coin_of g change.commitment keys.change_coin_key change_value

  module _ (inputs : List MwCoin) (inpval fund_value fee : ℕ) (slate : Slate t) where
    build-Spent :
        (keys : SpendKeys g) (chain : t.Keychain) {r : SpendCoinsResult t}
        → build g keys chain inputs inpval fund_value fee slate ≡ ok r
        → Spent keys inputs inpval fund_value fee slate r
    unfolding build
    build-Spent keys chain run =
        let (fee_field, e1, run1) = >>=-returns (unwrap_option (g.fee_fields_new 0 fee)) _ run in
        let (change_value, e2, run2) = >>=-returns (change_of inpval fund_value fee) _ run1 in
        let (change, e3, run3) =
          >>=-returns
            (add_coins g inputs change_value keys.change_coin_key keys.rew_nonce keys.prf_nonce) _
            run2 in
        let (filled, e4, run4) =
          >>=-returns
            (fill_slate g chain slate (g.bf_from_secret_key keys.offset_key) keys.sig_nonce
              fee_field fund_value change)
            _ run3 in
        let same = ok_injective run4 in
        record {
          chain = chain;
          fee_field = fee_field;
          change_value = change_value;
          change = change;
          is_change_value = e2;
          is_change = e3;
          is_filled = e4 ∙ ap (λ x. ok (x.sig_key, x.slate)) same;
          is_coin = sym (ap (λ x. x.change_coin) same);
        }

    pub pre_transaction-Spent :
        (s : GrinCore t) {s' : GrinCore t} {r : SpendCoinsResult t}
        → pre_transaction g inputs inpval fund_value fee slate s ≡ (ok r, s')
        → (keys : SpendKeys g) × Spent keys inputs inpval fund_value fee slate r
    unfolding pre_transaction
    pre_transaction-Spent s run =
        let (keys, s1, e1, run1) = >>=-ok (draw_keys g) _ {s = s} run in
        (keys, build-Spent keys s1.chain (ap (λ x. x.0) run1))

-- The sum covers what is needed; the fee is counted where there is a second output.
abbrev pub Covers : ℕ → ℕ → ℕ → ℕ → Type 0
Covers inpval fund_value fee num_of_outputs =
    (fund_value ≤ inpval) × (1 < num_of_outputs → fund_value + fee ≤ inpval)

too_small-Covers :
    (p : Profile) (inpval fund_value fee n : ℕ)
    → fund_value + fee < u64_mod
    → too_small p inpval fund_value fee n ≡ ok false
    → Covers inpval fund_value fee n
unfolding too_small add_u64
too_small-Covers p inpval fund_value fee n fits h = (ground arith, λ (many : 1 < n). ground arith)

not_empty : (inputs : List MwCoin) → is_empty inputs ≡ false → inputs ≢ []
not_empty [] h e = cc
not_empty (coin ∷ rest) h e = ground arith

abbrev pub blank_of : {lib : BitcoinLib} {t : GrinTypes} → GrinCrate lib t → ℕ → ℕ → Slate t
blank_of g timelock participants =
    g.blank_with_kernel_features participants false (kernel_feat_param timelock)
      (lock_height_param timelock)

-- The fee of a transaction with so many outputs.
abbrev pub fee_of : {lib : BitcoinLib} {t : GrinTypes} → GrinCrate lib t → List MwCoin → ℕ → ℕ
fee_of g inputs num_of_outputs = g.tx_fee (length inputs) num_of_outputs 1

module _ {lib : BitcoinLib} {t : GrinTypes} (g : GrinCrate lib t) (p : Profile)
    (inputs : List MwCoin) (fund_value timelock n participants : ℕ) where
  pub spend_coins-Spent :
      (s : GrinCore t) {s' : GrinCore t} {r : SpendCoinsResult t}
      → total inputs < u64_mod
      → fund_value + (fee_of g inputs n) < u64_mod
      → spend_coins g p inputs fund_value timelock n participants s ≡ (ok r, s')
      → (inputs ≢ [])
        × (0 < fund_value)
        × Distinct inputs
        × Covers (total inputs) fund_value (fee_of g inputs n) n
        × ((keys : SpendKeys g) × Spent g keys inputs
              (total inputs)
              fund_value
              (fee_of g inputs n)
              (blank_of g timelock participants)
              r)
  unfolding spend_coins
  spend_coins-Spent s {s'} {r} in_range sum_in_range run =
      let (inpval, e1, run1) = lift->>=-ok (input_value p 0 inputs) _ {s = s} run in
      let is_total = ok_injective (sym e1 ∙ input_value-total p inputs in_range) in
      let (e2, run2) = guard-ok (is_empty inputs) _ _ {s = s} run1 in
      let (e3, run3) = guard-ok (fund_value == 0) _ _ {s = s} run2 in
      let (short, e4, run4) =
        lift->>=-ok (too_small p inpval fund_value (fee_of g inputs n) n) _ {s = s} run3 in
      let (e5, run5) = guard-ok short _ _ {s = s} run4 in
      let (e6, run6) = guard-ok (duplicate [] inputs) _ _ {s = s} run5 in
      (
        not_empty inputs e2,
        ground arith,
        duplicate-Distinct [] inputs e6,
        too_small-Covers p (total inputs) fund_value (fee_of g inputs n) n sum_in_range (
            ap (λ v. too_small p v fund_value (fee_of g inputs n) n) (sym is_total)
            ∙ e4
            ∙ ap ok e5),
        pre_transaction-Spent g inputs (total inputs) fund_value (fee_of g inputs n)
            (blank_of g timelock participants) s
            (ap
                (λ v.
                  pre_transaction g inputs v fund_value (fee_of g inputs n)
                    (blank_of g timelock participants) s)
                (sym is_total)
              ∙ run6),
      )
