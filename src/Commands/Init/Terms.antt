-- ===== src/Commands/Init/Terms.antt =====
-- The terms of a swap that `init` makes (src/commands/cmd_types/init.rs).
use mw_btc_swap.Prelude.{
  ℕ, ◌/◌, ◌≤◌, ◌≡◌, ap, ◌∙◌, false, not, Option, Text, codes, ok, panic, unwrap_option, ltb,
  parse_u64, if◌then◌else◌, arith,
}
use mw_btc_swap.Prelude.Results.{>>=-returns}
use mw_btc_swap.Constants.{btc_max_sats, grin_max_nanogrin, max_timeout}
use mw_btc_swap.Enums.{Currency, btc, grin, is_offered}
use mw_btc_swap.Settings.{Settings}
use mw_btc_swap.Swap.Types.{SwapSlate}
use mw_btc_swap.Commands.Init.{Init, new, execute}
use mw_btc_swap.Commands.Parser.{too_much, parse_currency_from_string, parse_init}

accepted :
    (from to : Currency) (from_amount to_amount minutes : ℕ) {init : Init}
    → (if too_much from from_amount
        then panic
        else if too_much to to_amount
        then panic
        else if ltb max_timeout minutes
        then panic
        else ok (new from to from_amount to_amount minutes))
      ≡ ok init
    → (too_much from from_amount ≡ false)
      × (too_much to to_amount ≡ false)
      × (minutes ≤ max_timeout)
      × (new from to from_amount to_amount minutes ≡ init)
accepted from to fa ta m run = (ground arith, ground arith, ground arith, ground arith)

-- What the two sides of a new slate have.
abbrev pub Terms : {Tx : Type 0} → SwapSlate Tx → Type 0
Terms slate =
    let p = slate.pub_slate in
    (p.btc.amount ≤ btc_max_sats)
    × (p.mw.amount ≤ grin_max_nanogrin)
    × (p.mw.timelock ≤ max_timeout)
    × (p.btc.timelock ≡ p.mw.timelock / 10)
    × (is_offered p.btc.swap_type ≡ not (is_offered p.mw.swap_type))

module _ {Tx : Type 0} (settings : Settings) (id : ℕ) where
  new-Terms :
      (from to : Currency) (from_amount to_amount minutes : ℕ) {slate : SwapSlate Tx}
      → too_much from from_amount ≡ false
      → too_much to to_amount ≡ false
      → minutes ≤ max_timeout
      → execute (new from to from_amount to_amount minutes) settings id ≡ ok slate
      → Terms slate
  unfolding execute new
  new-Terms btc btc fa ta m small_from small_to short run = cc
  new-Terms grin grin fa ta m small_from small_to short run = cc
  new-Terms btc grin fa ta m small_from small_to short run =
      (ground arith, ground arith, ground arith, ground arith, ground arith)
  new-Terms grin btc fa ta m small_from small_to short run =
      (ground arith, ground arith, ground arith, ground arith, ground arith)

  -- A slate that init makes from arguments that the parser accepts has at most 21000000 bitcoins
  -- and 10000000 grins, a Grin timelock of at most 7200 blocks, a Bitcoin timelock of a tenth of
  -- it, rounded down, and offers exactly one of the two currencies.
  pub execute-Terms :
      (to_uppercase : Text → Text) (value_of : Text → Option Text) {init : Init}
      {slate : SwapSlate Tx}
      → parse_init to_uppercase value_of ≡ ok init
      → execute init settings id ≡ ok slate
      → Terms slate
  unfolding parse_init
  execute-Terms upper value_of {init} {slate} parsed made =
      let (t1, e1, run1) =
        >>=-returns (unwrap_option (value_of (codes "from-currency"))) _ parsed in
      let (t2, e2, run2) = >>=-returns (unwrap_option (value_of (codes "to-currency"))) _ run1 in
      let (t3, e3, run3) = >>=-returns (unwrap_option (value_of (codes "from-amount"))) _ run2 in
      let (t4, e4, run4) = >>=-returns (unwrap_option (value_of (codes "to-amount"))) _ run3 in
      let (t5, e5, run5) = >>=-returns (unwrap_option (value_of (codes "timeout"))) _ run4 in
      let (from, e6, run6) = >>=-returns (parse_currency_from_string upper t1) _ run5 in
      let (to, e7, run7) = >>=-returns (parse_currency_from_string upper t2) _ run6 in
      let (fa, e8, run8) = >>=-returns (unwrap_option (parse_u64 t3)) _ run7 in
      let (ta, e9, run9) = >>=-returns (unwrap_option (parse_u64 t4)) _ run8 in
      let (m, e10, run10) = >>=-returns (unwrap_option (parse_u64 t5)) _ run9 in
      let (small_from, small_to, short, same) = accepted from to fa ta m run10 in
      new-Terms from to fa ta m small_from small_to short
        (ap (λ i. execute i settings id) same ∙ made)
