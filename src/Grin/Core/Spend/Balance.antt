-- ===== src/Grin/Core/Spend/Balance.antt =====
-- The transaction that spend_coins makes balances (src/grin/grin_core.rs): no coins appear in it.
use mw_btc_swap.Prelude.{
  ℕ, ◌+◌, ◌≤◌, ◌≡◌, ◌∙◌, inl, inr, refl, sym, ap, some, List, [], ◌∷◌, ◌++◌, ok, unwrap_option,
  false, ltb, arith, Bool-cases, then_branch, else_branch,
}
use mw_btc_swap.Prelude.Results.{>>=-returns, ok_injective, some_of}
use mw_btc_swap.Bitcoin.Crate.{BitcoinLib}
use mw_btc_swap.Swap.World.{to_i64}
use mw_btc_swap.Grin.Types.{MwCoin}
use mw_btc_swap.Grin.Crate.{
  GrinTypes, GrinCrate, BlindSum, empty_sum, sub_blinding_factor, Output, Slate,
}
use mw_btc_swap.Grin.Routines.{deserialize_commitment, deserialize_secret_key}
use mw_btc_swap.Grin.Core.{SpendCoinsResult}
use mw_btc_swap.Grin.Core.Spend.{
  SpendKeys, Change, add_inputs, add_change, add_coins, change_of, fill_slate,
}
use mw_btc_swap.Grin.Core.Spend.Inputs.{total}
use mw_btc_swap.Grin.Core.Spend.Accepts.{Spent}
use mw_btc_swap.Grin.Pedersen.{
  Points, Pedersen, Bookkeeping, sum_of, sum_of-snoc, right_comm, shuffle, inputs_of, outputs_of,
}

zero_of : (v : ℕ) → ltb 0 v ≡ false → 0 ≡ v
zero_of v h = ground arith

module _ {lib : BitcoinLib} {t : GrinTypes} {g : GrinCrate lib t} {pts : Points}
    (ped : Pedersen g pts) where
  open pts use {Point, plus, origin, plus_assoc, plus_comm, plus_origin}
  open ped use {point, value, secret, blind}

  -- The commitment of a coin is to its value under its blinding factor.
  abbrev pub Opens : MwCoin → Type 0
  Opens coin =
      (c : t.Commitment) × (k : t.SecretKey) × (deserialize_commitment g coin.commitment ≡ ok c)
      × (deserialize_secret_key g coin.blinding_factor ≡ ok k)
      × (point c ≡ plus (value coin.value) (secret k))

  abbrev pub AllOpen : List MwCoin → Type 0
  AllOpen [] = Unit
  AllOpen (coin ∷ rest) = Opens coin × AllOpen rest

  abbrev blinds : List t.BlindingFactor → Point
  blinds bs = sum_of pts blind bs

  add_inputs-value :
      (inputs : List MwCoin) (sum : BlindSum t.BlindingFactor)
      {r : List t.Commitment × BlindSum t.BlindingFactor}
      → AllOpen inputs
      → add_inputs g inputs sum ≡ ok r
      → (plus (sum_of pts point r.0) (blinds sum.negative_blinding_factors)
          ≡ plus (value (total inputs)) (blinds r.1.negative_blinding_factors))
        × (r.1.positive_blinding_factors ≡ sum.positive_blinding_factors)
  unfolding add_inputs
  add_inputs-value [] sum opened run =
      rw (← ok_injective run)
        (ap (λ v. plus v (blinds sum.negative_blinding_factors)) (sym ped.value_zero), refl)
  add_inputs-value (coin ∷ rest) sum ((c, k, is_c, is_k, opens), opened) run =
      let (c', e1, run1) = >>=-returns (deserialize_commitment g coin.commitment) _ run in
      let (k', e2, run2) = >>=-returns (deserialize_secret_key g coin.blinding_factor) _ run1 in
      let less = sub_blinding_factor (g.bf_from_secret_key k') sum in
      let (r', e3, run3) = >>=-returns (add_inputs g rest less) _ run2 in
      let (ih, positive) = add_inputs-value rest less opened e3 in
      let same_c = ok_injective (sym is_c ∙ e1) in
      let same_k = ok_injective (sym is_k ∙ e2) in
      rw (← ok_injective run3) (
        ap (λ x. plus (plus x (sum_of pts point r'.0)) (blinds sum.negative_blinding_factors))
              (ap point (sym same_c) ∙ opens ∙ ap (λ x. plus (value coin.value) (secret x)) same_k)
            ∙ shuffle pts (value coin.value) (secret k') (sum_of pts point r'.0)
                (blinds sum.negative_blinding_factors)
            ∙ ap (λ x. plus (value coin.value) (plus (sum_of pts point r'.0) x))
                (ap (plus (blinds sum.negative_blinding_factors))
                    (sym (ped.blind-from_secret_key k'))
                  ∙ sym (
                      sum_of-snoc pts blind sum.negative_blinding_factors
                        (g.bf_from_secret_key k')))
            ∙ ap (plus (value coin.value)) ih
            ∙ sym (
                plus_assoc (value coin.value) (value (total rest))
                  (blinds r'.1.negative_blinding_factors))
            ∙ ap (λ x. plus x (blinds r'.1.negative_blinding_factors))
                (sym (ped.value_add coin.value (total rest))),
        positive,
      )

  -- The outputs and the sum of the blinding factors after the change.
  add_change-value :
      (v : ℕ) (key rew_nonce prf_nonce : t.SecretKey) (book : Bookkeeping ped) (tx : t.Transaction)
      (sum : BlindSum t.BlindingFactor) {change : Change g}
      → outputs_of ped tx ≡ origin
      → sum.positive_blinding_factors ≡ []
      → add_change g v key rew_nonce prf_nonce tx sum ≡ ok change
      → (outputs_of ped change.tx
          ≡ plus (value v) (blinds change.blind_sum.positive_blinding_factors))
        × (inputs_of ped change.tx ≡ inputs_of ped tx)
        × (change.blind_sum.negative_blinding_factors ≡ sum.negative_blinding_factors)
  unfolding add_change
  add_change-value v key rew_nonce prf_nonce book tx sum {change} bare none_yet run =
      elim (Bool-cases (ltb 0 v)) [
        | inl some_change ↦
            let (c, e1, run1) =
              >>=-returns (unwrap_option (g.commit v key)) _
                (then_branch (ltb 0 v) _ _ some_change run) in
            rw (← ok_injective run1) (
              book.outputs-with_output _ tx
                  ∙ ap (plus (point c)) bare
                  ∙ plus_origin (point c)
                  ∙ ped.commit_lem v key c (some_of (g.commit v key) e1)
                  ∙ ap (plus (value v)) (
                      sym (ped.blind-from_secret_key key)
                      ∙ sym (plus_origin (blind (g.bf_from_secret_key key)))
                      ∙ ap (λ l. blinds (l ++ (g.bf_from_secret_key key ∷ []))) (sym none_yet)),
              book.inputs-with_output _ tx,
              refl,
            )
        | inr no_change ↦ rw (← ok_injective (else_branch (ltb 0 v) _ _ no_change run)) (
          bare
              ∙ sym (plus_origin origin)
              ∙ ap (λ x. plus x origin) (sym ped.value_zero)
              ∙ ap (λ n. plus (value n) origin) (zero_of v no_change)
              ∙ ap (λ l. plus (value v) (blinds l)) (sym none_yet),
          refl,
          refl,
        )
      ]

  -- The points of the inputs are those of the outputs and of what the transaction still owes,
  -- under the keys of this party.
  abbrev pub Balances : t.Transaction → ℕ → Point → Type 0
  Balances tx owed keys = plus (outputs_of ped tx) (value owed) ≡ plus (inputs_of ped tx) keys

  add_coins-Balances :
      (book : Bookkeeping ped) (inputs : List MwCoin) (v owed : ℕ)
      (key rew_nonce prf_nonce : t.SecretKey) (chain : t.Keychain) {change : Change g}
      {final_bf : t.BlindingFactor}
      → AllOpen inputs
      → v + owed ≡ total inputs
      → add_coins g inputs v key rew_nonce prf_nonce ≡ ok change
      → g.blind_sum chain change.blind_sum ≡ some final_bf
      → Balances change.tx owed (blind final_bf)
  unfolding add_coins
  add_coins-Balances book inputs v owed key rew_nonce prf_nonce chain {change} {final_bf} opened
        adds_up run summed =
      let (added, e1, run1) = >>=-returns (add_inputs g inputs empty_sum) _ run in
      let (paid, positive) = add_inputs-value inputs empty_sum opened e1 in
      let tx = g.transaction_new added.0 (g.tx_outputs g.empty_tx) (g.tx_kernels g.empty_tx) in
      let bare =
        book.outputs-transaction_new added.0 (g.tx_outputs g.empty_tx) (g.tx_kernels g.empty_tx)
        ∙ ap (sum_of pts (λ o. point (Output.commit o))) book.outputs-empty in
      let (outs, ins, same) =
        add_change-value v key rew_nonce prf_nonce book tx added.1 bare positive run1 in
      let pos = blinds change.blind_sum.positive_blinding_factors in
      let neg = blinds added.1.negative_blinding_factors in
      let ins_of =
        ins
        ∙ book.inputs-transaction_new added.0 (g.tx_outputs g.empty_tx) (g.tx_kernels g.empty_tx) in
      ap (λ x. plus x (value owed)) outs
      ∙ right_comm pts (value v) pos (value owed)
      ∙ ap (λ x. plus x pos) (sym (ped.value_add v owed) ∙ ap value adds_up)
      ∙ ap (plus (value (total inputs))) (
          sym (ped.blind-blind_sum chain change.blind_sum final_bf summed)
          ∙ ap (λ l. plus (blind final_bf) (blinds l)) same)
      ∙ sym (plus_assoc (value (total inputs)) (blind final_bf) neg)
      ∙ right_comm pts (value (total inputs)) (blind final_bf) neg
      ∙ ap (λ x. plus x (blind final_bf))
          (sym paid ∙ plus_origin (sum_of pts point added.0) ∙ sym ins_of)

  -- What is above the fund and the fee goes to the change.
  change_of-adds :
      (inpval fund_value fee : ℕ) {v : ℕ}
      → fund_value + fee ≤ inpval
      → change_of inpval fund_value fee ≡ ok v
      → v + (fund_value + fee) ≡ inpval
  unfolding change_of
  change_of-adds inpval fund_value fee enough run =
      let (a, e1, run1) = >>=-returns (to_i64 inpval) _ run in
      let (b, e2, run2) = >>=-returns (to_i64 fund_value) _ run1 in
      let (c, e3, run3) = >>=-returns (to_i64 fee) _ run2 in omega (arith, ok_injective run3)

  -- The transaction of a slate balances under the signing key and the offset of the spender.
  pub Spent-Balances :
      (book : Bookkeeping ped) (keys : SpendKeys g) (inputs : List MwCoin) (fund_value fee : ℕ)
      (slate : Slate t) {r : SpendCoinsResult t}
      → AllOpen inputs
      → fund_value + fee ≤ total inputs
      → Spent g keys inputs (total inputs) fund_value fee slate r
      → (tx : t.Transaction) × (r.slate.tx ≡ some tx)
        × Balances tx (fund_value + fee) (plus (secret r.sig_key) (blind r.slate.offset))
  unfolding fill_slate
  Spent-Balances book keys inputs fund_value fee slate {r} opened enough spent =
      let offset = g.bf_from_secret_key keys.offset_key in
      let change = spent.change in
      let (final_bf, e1, run1) =
        >>=-returns (unwrap_option (g.blind_sum spent.chain change.blind_sum)) _ spent.is_filled in
      let (split, e2, run2) = >>=-returns (unwrap_option (g.bf_split final_bf offset)) _ run1 in
      let (final_key, e3, run3) = >>=-returns (unwrap_option (g.bf_secret_key split)) _ run2 in
      let (initial, e4, run4) = >>=-returns (unwrap_option (g.bf_secret_key final_bf)) _ run3 in
      let (filled, e5, run5) = >>=-returns (unwrap_option _) _ run4 in
      let same = ok_injective run5 in
      let balanced =
        add_coins-Balances book inputs spent.change_value (fund_value + fee) keys.change_coin_key
          keys.rew_nonce keys.prf_nonce spent.chain opened
          (change_of-adds (total inputs) fund_value fee enough spent.is_change_value)
          spent.is_change (some_of _ e1) in
      (
        g.with_offset offset change.tx,
        ap (λ x. x.1.tx) (sym same) ∙ book.tx-fill_round_1 _ _ _ _ (some_of _ e5),
        ap (λ x. plus x (value (fund_value + fee))) (book.outputs-with_offset offset change.tx)
            ∙ balanced
            ∙ ap (λ x. plus x (blind final_bf)) (sym (book.inputs-with_offset offset change.tx))
            ∙ ap (plus (inputs_of ped (g.with_offset offset change.tx))) (
                sym (ped.blind-split final_bf offset split (some_of _ e2))
                ∙ ap (plus (blind split)) (
                    ap blind (
                      sym (book.offset-fill_round_1 _ _ _ _ (some_of _ e5))
                      ∙ ap (λ x. x.1.offset) same))
                ∙ ap (λ x. plus x (blind r.slate.offset))
                    (sym (ped.secret-key split final_key (some_of _ e3))
                      ∙ ap (λ x. secret x.0) same)),
      )
