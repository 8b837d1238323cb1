-- ===== src/Grin/Core/Spend/ChangeCoin.antt =====
-- Which inputs spend_coins takes, and the coin that the sender keeps (src/grin/grin_core.rs).
use mw_btc_swap.Prelude.{
  ℕ, ◌+◌, ◌-◌, ◌<◌, ◌≡◌, ◌≢◌, ◌⊎◌, inl, inr, sym, ap, Option, none, some, List, [], ok,
  unwrap_option, Profile, u64_mod, ltb, ltb→lt, arith, Bool-cases, then_branch, else_branch,
}
use mw_btc_swap.Prelude.Results.{>>=-returns, ok_injective, some_of}
use mw_btc_swap.Bitcoin.Crate.{BitcoinLib}
use mw_btc_swap.Swap.World.{to_i64}
use mw_btc_swap.Grin.Types.{MwCoin}
use mw_btc_swap.Grin.Crate.{GrinTypes, GrinCrate, empty_sum}
use mw_btc_swap.Grin.Routines.{GrinCore, new_coin}
use mw_btc_swap.Grin.Core.{SpendCoinsResult}
use mw_btc_swap.Grin.Core.Spend.{
  Change, add_inputs, add_change, add_coins, change_of, change_coin_of, spend_coins,
}
use mw_btc_swap.Grin.Core.Spend.Inputs.{total, Distinct}
use mw_btc_swap.Grin.Core.Spend.Accepts.{fee_of, Covers, spend_coins-Spent}

change_of-minus :
    (inpval fund_value fee : ℕ) {v : ℕ}
    → change_of inpval fund_value fee ≡ ok v
    → v ≡ inpval - (fund_value + fee)
unfolding change_of
change_of-minus inpval fund_value fee run =
    let (a, e1, run1) = >>=-returns (to_i64 inpval) _ run in
    let (b, e2, run2) = >>=-returns (to_i64 fund_value) _ run1 in
    let (c, e3, run3) = >>=-returns (to_i64 fee) _ run2 in omega (arith, ok_injective run3)

module _ {lib : BitcoinLib} {t : GrinTypes} (g : GrinCrate lib t) where
  -- A coin of what is left under a commitment to it, or no coin where nothing is left.
  abbrev pub Keeps : ℕ → Option MwCoin → Type 0
  Keeps left coin =
      ((left ≡ 0) × (coin ≡ none))
      ⊎ ((0 < left)
          × ((c : t.Commitment) × (k : t.SecretKey) × (g.commit left k ≡ some c)
              × (coin ≡ some (new_coin g c k left))))

  add_coins-Keeps :
      (inputs : List MwCoin) (v : ℕ) (key rew_nonce prf_nonce : t.SecretKey) {change : Change g}
      → add_coins g inputs v key rew_nonce prf_nonce ≡ ok change
      → Keeps v (change_coin_of g change.commitment key v)
  unfolding add_coins add_change
  add_coins-Keeps inputs v key rew_nonce prf_nonce {change} run =
      let (added, e1, run1) = >>=-returns (add_inputs g inputs empty_sum) _ run in
      elim (Bool-cases (ltb 0 v)) [
        | inl some_change ↦
            let (c, e2, run2) =
              >>=-returns (unwrap_option (g.commit v key)) _
                (then_branch (ltb 0 v) _ _ some_change run1) in
            let same = ok_injective {b = change} run2 in
            inr (
              ltb→lt 0 v some_change,
              (c, key, some_of _ e2, ap (λ x. change_coin_of g x.commitment key v) (sym same)),
            )
        | inr no_change ↦
            let same = ok_injective {b = change} (else_branch (ltb 0 v) _ _ no_change run1) in
            inl (ground arith, ap (λ x. change_coin_of g x.commitment key v) (sym same))
      ]

  -- If spend_coins succeeds, with the sum of the inputs and the sum of fund value and fee below
  -- 2^64: there are inputs, no two of them with the same commitment, the fund value is not 0, the
  -- inputs cover it, and with two or more outputs cover the fee too; what is left after both is
  -- the value of the change coin, whose commitment is to it, and there is no change coin where
  -- nothing is left.
  pub spend_coins-Keeps :
      (p : Profile) (inputs : List MwCoin) (fund_value timelock n participants : ℕ) (s : GrinCore t)
      {s' : GrinCore t} {r : SpendCoinsResult t}
      → total inputs < u64_mod
      → fund_value + fee_of g inputs n < u64_mod
      → spend_coins g p inputs fund_value timelock n participants s ≡ (ok r, s')
      → (inputs ≢ [])
        × (0 < fund_value)
        × Distinct inputs
        × Covers (total inputs) fund_value (fee_of g inputs n) n
        × Keeps (total inputs - (fund_value + fee_of g inputs n)) r.change_coin
  spend_coins-Keeps p inputs fund_value timelock n participants s {r = r} in_range sum_in_range
        run =
      let (nonempty, positive, distinct, covers, (keys, spent)) =
        spend_coins-Spent g p inputs fund_value timelock n participants s in_range sum_in_range
          run in
      let left =
        change_of-minus (total inputs) fund_value (fee_of g inputs n) spent.is_change_value in
      (
        nonempty,
        positive,
        distinct,
        covers,
        rw (spent.is_coin, ← left)
            (add_coins-Keeps inputs spent.change_value keys.change_coin_key keys.rew_nonce
              keys.prf_nonce spent.is_change),
      )
