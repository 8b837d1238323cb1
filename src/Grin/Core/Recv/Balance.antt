-- ===== src/Grin/Core/Recv/Balance.antt =====
-- The transaction after recv_coins balances too (src/grin/grin_core.rs).
use mw_btc_swap.Prelude.{
  ℕ, ◌+◌, ◌<◌, ◌≤◌, ◌≡◌, ◌∙◌, refl, sym, ap, some, List, ok, unwrap_option, Profile, u64_mod,
}
use mw_btc_swap.Prelude.Results.{>>=-returns, ok_injective, some_of}
use mw_btc_swap.Prelude.Actions.{>>=-ok, lift->>=-ok, need->>=-ok}
use mw_btc_swap.Bitcoin.Crate.{BitcoinLib}
use mw_btc_swap.Grin.Types.{MwCoin}
use mw_btc_swap.Grin.Crate.{GrinTypes, GrinCrate, Output, Slate}
use mw_btc_swap.Grin.Routines.{GrinCore, new_coin}
use mw_btc_swap.Grin.Core.{SpendCoinsResult, RecvCoinsResult, tx_or_empty, verify_outputs}
use mw_btc_swap.Grin.Core.Spend.{spend_coins}
use mw_btc_swap.Grin.Core.Spend.Inputs.{total}
use mw_btc_swap.Grin.Core.Spend.Accepts.{fee_of, spend_coins-Spent, blank_of}
use mw_btc_swap.Grin.Core.Spend.Balance.{AllOpen, Balances, Spent-Balances}
use mw_btc_swap.Grin.Core.Recv.{Received, RecvKeys, draw_keys, build, receive_output, recv_coins}
use mw_btc_swap.Grin.Pedersen.{Points, Pedersen, Bookkeeping, shuffle, inputs_of, outputs_of}

module _ {lib : BitcoinLib} {t : GrinTypes} {g : GrinCrate lib t} {pts : Points}
    (ped : Pedersen g pts) (book : Bookkeeping ped) where
  open pts use {Point, plus, plus_assoc, plus_comm}
  open ped use {point, value, secret, blind}

  -- The received slate: it owes the fund less, and this party's key is added to the keys.
  build-Balances :
      (keys : RecvKeys g) (chain : t.Keychain) (slate : Slate t) (tx : t.Transaction)
      (fund_value fee : ℕ) (before : Point) {r : Received t}
      → slate.tx ≡ some tx
      → Balances ped tx (fund_value + fee) before
      → build g keys chain slate fund_value ≡ ok r
      → (tx' : t.Transaction) × (r.slate.tx ≡ some tx')
        × Balances ped tx' fee (plus before (secret r.out_coin_key))
        × (point r.commitment ≡ plus (value fund_value) (secret r.out_coin_key))
  unfolding build
  build-Balances keys chain slate tx fund_value fee before {r} is_tx balanced run =
      let (c, e1, run1) =
        >>=-returns (unwrap_option (g.commit fund_value keys.out_coin_key)) _ run in
      let (updated, e2, run2) = >>=-returns (unwrap_option _) _ run1 in
      let (filled, e3, run3) = >>=-returns (unwrap_option _) _ run2 in
      let opened = ped.commit_lem fund_value keys.out_coin_key c (some_of _ e1) in
      let out : Output t = record {
        commit = c;
        proof = g.bullet_proof fund_value keys.out_coin_key keys.rew_nonce keys.prf_nonce;
      } in
      let (tx', is_tx', ins, outs) =
        book.tx-update_kernel _ updated (g.with_output out (tx_or_empty g slate.tx)) (some_of _ e2)
          refl in
      let same_tx = ap (tx_or_empty g) is_tx in
      let key = secret keys.out_coin_key in
      let same = ok_injective {b = r} run3 in
      rw (← same) (
        tx',
        book.tx-fill_round_1 _ _ _ _ (some_of _ e3) ∙ is_tx',
        ap (λ x. plus x (value fee))
              (outs
                ∙ book.outputs-with_output out (tx_or_empty g slate.tx)
                ∙ ap (λ x. plus (point c) (outputs_of ped x)) same_tx
                ∙ ap (λ x. plus x (outputs_of ped tx)) (opened ∙ plus_comm (value fund_value) key))
            ∙ shuffle pts key (value fund_value) (outputs_of ped tx) (value fee)
            ∙ ap (λ x. plus key (plus (outputs_of ped tx) x))
                (plus_comm (value fee) (value fund_value) ∙ sym (ped.value_add fund_value fee))
            ∙ ap (plus key) balanced
            ∙ plus_comm key (plus (inputs_of ped tx) before)
            ∙ plus_assoc (inputs_of ped tx) before key
            ∙ ap (λ x. plus x (plus before key))
                (ap (inputs_of ped) (sym same_tx)
                  ∙ sym (book.inputs-with_output out (tx_or_empty g slate.tx))
                  ∙ sym ins),
        opened,
      )

  receive_output-Balances :
      (slate : Slate t) (tx : t.Transaction) (fund_value fee : ℕ) (before : Point) (s : GrinCore t)
      {s' : GrinCore t} {r : Received t}
      → slate.tx ≡ some tx
      → Balances ped tx (fund_value + fee) before
      → receive_output g slate fund_value s ≡ (ok r, s')
      → (tx' : t.Transaction) × (r.slate.tx ≡ some tx')
        × Balances ped tx' fee (plus before (secret r.out_coin_key))
        × (point r.commitment ≡ plus (value fund_value) (secret r.out_coin_key))
  unfolding receive_output
  receive_output-Balances slate tx fund_value fee before s is_tx balanced run =
      let (checked, e1, run1) =
        lift->>=-ok (verify_outputs g (g.tx_outputs (tx_or_empty g slate.tx))) _ {s = s} run in
      let (keys, s1, e2, run2) = >>=-ok (draw_keys g) _ {s = s} run1 in
      build-Balances keys s1.chain slate tx fund_value fee before is_tx balanced
        (ap (λ x. x.0) run2)

  -- Where spend_coins succeeds on coins whose commitments open to their values and keys, worth at
  -- least the fund value and the fee, with all sums below 2^64, and recv_coins succeeds on its
  -- slate: the outputs and the fee are the inputs and the key that the two parties sign with (the
  -- sender's key, the offset and the receiver's output key), and the receiver's coin is a
  -- commitment to the fund value under that output key. The commitments are those of Pedersen, and
  -- the crates put into a transaction what they are told to.
  pub recv_coins-Balances :
      (p : Profile) (inputs : List MwCoin) (fund_value timelock n participants : ℕ)
      (s1 : GrinCore t) {s1' : GrinCore t} {r : SpendCoinsResult t} (s2 : GrinCore t)
      {s2' : GrinCore t} {r' : RecvCoinsResult t}
      → total inputs < u64_mod
      → fund_value + fee_of g inputs n < u64_mod
      → AllOpen ped inputs
      → fund_value + fee_of g inputs n ≤ total inputs
      → spend_coins g p inputs fund_value timelock n participants s1 ≡ (ok r, s1')
      → recv_coins g r.slate fund_value s2 ≡ (ok r', s2')
      → (tx : t.Transaction) × (c : t.Commitment) × (k : t.SecretKey) × (r'.slate.tx ≡ some tx)
        × Balances ped tx
            (fee_of g inputs n)
            (plus (plus (secret r.sig_key) (blind r.slate.offset)) (secret k))
        × (r'.output_coin ≡ new_coin g c k fund_value)
        × (point c ≡ plus (value fund_value) (secret k))
  unfolding recv_coins
  recv_coins-Balances p inputs fund_value timelock n participants s1 {r = r} s2 in_range
        sum_in_range opened enough spends receives =
      let (nonempty, positive, distinct, covers, (keys, spent)) =
        spend_coins-Spent g p inputs fund_value timelock n participants s1 in_range sum_in_range
          spends in
      let (tx, is_tx, balanced) =
        Spent-Balances ped book keys inputs fund_value (fee_of g inputs n)
          (blank_of g timelock participants) opened enough spent in
      let (q, s3, e1, run1) = >>=-ok (receive_output g r.slate fund_value) _ {s = s2} receives in
      let (tx', is_tx', balanced', opens) =
        receive_output-Balances r.slate tx fund_value (fee_of g inputs n) _ s2 is_tx balanced e1 in
      let (signed, e2, run2) =
        need->>=-ok (g.fill_round_2 s3.chain q.out_coin_key q.sig_nonce q.slate) _ {s = s3} run1 in
      let same = ok_injective (ap (λ x. x.0) run2) in
      (
        tx',
        q.commitment,
        q.out_coin_key,
        ap (λ x. x.slate.tx) (sym same) ∙ book.tx-fill_round_2 _ _ _ _ _ e2 ∙ is_tx',
        balanced',
        ap (λ x. x.output_coin) (sym same),
        opens,
      )
