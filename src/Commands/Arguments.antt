-- ===== src/Commands/Arguments.antt =====
-- src/commands/parser.rs: parse_arguments, which makes a command from clap's matches.
use mw_btc_swap.Prelude.{
  ℕ, ◌^◌, Text, codes, text_eq, Option, Outcome, ok, err, panic, unwrap_option, ltb, parse_u64,
  if◌then◌else◌,
}
use mw_btc_swap.Prelude.Results.{◌>>=◌}
use mw_btc_swap.Commands.Init.{Init}
use mw_btc_swap.Commands.Import.{ImportBtc, ImportGrin}
use mw_btc_swap.Commands.Parser.{parse_init}

-- clap's `ArgMatches`: the values of the arguments, and the subcommand by its name if there is one.
pub data ArgMatches : Type 0 where
  arguments : (Text → Option Text) → ArgMatches
  subcommand : (Text → Option Text) → Text → ArgMatches → ArgMatches

abbrev value_of : ArgMatches → Text → Option Text
value_of (arguments values) = values
value_of (subcommand values name args) = values

-- The structs that implement `Command`.
pub data Command : Type 0 where
  new_init : Init → Command
  new_import_btc : ImportBtc → Command
  new_import_grin : ImportGrin → Command
  new_listen : ℕ → Command
  new_accept : ℕ → Command
  new_lock : ℕ → Command
  new_cancel : ℕ → Command
  new_execute : ℕ → Command

-- `parse::<u32>().unwrap()`
abbrev pub u32_of : ℕ → Outcome ℕ
u32_of n = if ltb n (2 ^ 32) then ok n else panic

abbrev number : Text → Outcome ℕ
number arg = unwrap_option (parse_u64 arg)

unfoldable pub parse_import_btc : (Text → Option Text) → Outcome Command
parse_import_btc values = unwrap_option (values (codes "swapid")) >>= λ swapid_arg.
    unwrap_option (values (codes "txid")) >>= λ txid.
    unwrap_option (values (codes "vout")) >>= λ vout_arg.
    unwrap_option (values (codes "value")) >>= λ value_arg.
    unwrap_option (values (codes "sk")) >>= λ sk_wif.
    unwrap_option (values (codes "pub_script")) >>= λ pub_script. number swapid_arg >>= λ swapid.
    number vout_arg >>= λ n. u32_of n >>= λ vout. number value_arg >>= λ value. ok (
      new_import_btc (record {
        swpid = swapid;
        txid = txid;
        vout = vout;
        value = value;
        sk = sk_wif;
        pub_script = pub_script;
      }))

unfoldable pub parse_import_grin : (Text → Option Text) → Outcome Command
parse_import_grin values = unwrap_option (values (codes "swapid")) >>= λ swapid_arg.
    unwrap_option (values (codes "commitment")) >>= λ commitment.
    unwrap_option (values (codes "blinding_factor")) >>= λ blinding_factor.
    unwrap_option (values (codes "value")) >>= λ value_arg. number swapid_arg >>= λ swapid.
    number value_arg >>= λ value. ok (
      new_import_grin (record {
        swpid = swapid;
        commitment = commitment;
        blinding_factor = blinding_factor;
        value = value;
      }))

unfoldable pub parse_import : ArgMatches → Outcome Command
parse_import (arguments values) = err (codes "Invalid subcommand for import supplied")
parse_import (subcommand values name subargs) =
    if text_eq name (codes "btc")
    then parse_import_btc (value_of subargs)
    else if text_eq name (codes "grin")
    then parse_import_grin (value_of subargs)
    else err (codes "Invalid subcommand for import supplied")

-- The commands that only have the id of the swap.
abbrev with_swapid : (Text → Option Text) → (ℕ → Command) → Outcome Command
with_swapid values command = unwrap_option (values (codes "swapid")) >>= λ swapid_arg.
    number swapid_arg >>= λ swapid. ok (command swapid)

unfoldable pub parse_arguments : (Text → Text) → ArgMatches → Outcome Command
unfolding parse_init
parse_arguments to_uppercase (arguments values) = err (codes "Invalid command supplied")
parse_arguments to_uppercase (subcommand values name args) =
    if text_eq name (codes "init")
    then (parse_init to_uppercase (value_of args) >>= λ command. ok (new_init command))
    else if text_eq name (codes "import")
    then parse_import args
    else if text_eq name (codes "listen")
    then with_swapid (value_of args) new_listen
    else if text_eq name (codes "accept")
    then with_swapid (value_of args) new_accept
    else if text_eq name (codes "lock")
    then with_swapid (value_of args) new_lock
    else if text_eq name (codes "cancel")
    then with_swapid (value_of args) new_cancel
    else if text_eq name (codes "execute")
    then with_swapid (value_of args) new_execute
    else err (codes "Invalid command supplied")
