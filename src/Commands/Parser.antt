-- ===== src/Commands/Parser.antt =====
-- src/commands/parser.rs: the arguments of `init`. `value_of` is clap's.
use mw_btc_swap.Prelude.{
  ℕ, Text, codes, text_eq, Bool, ◌&&◌, ◌||◌, Option, Outcome, ok, panic, unwrap_option, ltb,
  parse_u64, if◌then◌else◌,
}
use mw_btc_swap.Prelude.Results.{◌>>=◌}
use mw_btc_swap.Constants.{btc_max_sats, grin_max_nanogrin, max_timeout}
use mw_btc_swap.Enums.{Currency, btc, grin, is_btc, is_grin}
use mw_btc_swap.Commands.Init.{Init, new}

-- `to_uppercase` is the standard library's.
unfoldable pub parse_currency_from_string : (Text → Text) → Text → Outcome Currency
parse_currency_from_string to_uppercase cur =
    if text_eq (to_uppercase cur) (codes "BTC") || text_eq (to_uppercase cur) (codes "BITCOIN")
    then ok btc
    else if text_eq (to_uppercase cur) (codes "GRIN")
    then ok grin
    else panic

abbrev pub too_much : Currency → ℕ → Bool
too_much currency amount =
    (is_btc currency && ltb btc_max_sats amount)
    || (is_grin currency && ltb grin_max_nanogrin amount)

unfoldable pub parse_init : (Text → Text) → (Text → Option Text) → Outcome Init
unfolding parse_currency_from_string new
parse_init to_uppercase value_of =
    unwrap_option (value_of (codes "from-currency")) >>= λ from_currency_arg.
    unwrap_option (value_of (codes "to-currency")) >>= λ to_currency_arg.
    unwrap_option (value_of (codes "from-amount")) >>= λ from_amount_arg.
    unwrap_option (value_of (codes "to-amount")) >>= λ to_amount_arg.
    unwrap_option (value_of (codes "timeout")) >>= λ timeout_arg.
    parse_currency_from_string to_uppercase from_currency_arg >>= λ from_currency.
    parse_currency_from_string to_uppercase to_currency_arg >>= λ to_currency.
    unwrap_option (parse_u64 from_amount_arg) >>= λ from_amount.
    unwrap_option (parse_u64 to_amount_arg) >>= λ to_amount.
    unwrap_option (parse_u64 timeout_arg) >>= λ timeout_min.
    if too_much from_currency from_amount
    then panic
    else if too_much to_currency to_amount
    then panic
    else if ltb max_timeout timeout_min
    then panic
    else ok (new from_currency to_currency from_amount to_amount timeout_min)
