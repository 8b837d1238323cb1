-- ===== src/Commands/Init.antt =====
-- src/commands/cmd_types/init.rs: a new slate.
pub mod Terms
use mw_btc_swap.Prelude.{ℕ, ◌/◌, codes, ◌&&◌, ◌||◌, none, [], Outcome, ok, err, if◌then◌else◌}
use mw_btc_swap.Constants.{btc_block_time, grin_block_time}
use mw_btc_swap.Enums.{Currency, initialized, offered, requested, is_btc, is_grin}
use mw_btc_swap.Settings.{Settings}
use mw_btc_swap.Swap.Types.{SwapSlate}

pub record Init : Type 0 where
  pub from : Currency
  pub to : Currency
  pub from_amount : ℕ
  pub to_amount : ℕ
  pub timeout_btc : ℕ
  pub timeout_grin : ℕ

unfoldable pub new : Currency → Currency → ℕ → ℕ → ℕ → Init
new from to from_amount to_amount timeout_minutes = record {
  from = from;
  to = to;
  from_amount = from_amount;
  to_amount = to_amount;
  timeout_btc = timeout_minutes / btc_block_time;
  timeout_grin = timeout_minutes / grin_block_time;
}

module _ {Tx : Type 0} where
  -- `id` is the number that the randomness generator gives.
  unfoldable pub execute : Init → Settings → ℕ → Outcome (SwapSlate Tx)
  execute init settings id =
      if (is_btc init.from && is_grin init.to) || (is_grin init.from && is_btc init.to)
      then ok (record {
        id = id;
        pub_slate = record {
          status = initialized;
          mw = record {
            amount = if is_grin init.from then init.from_amount else init.to_amount;
            timelock = init.timeout_grin;
            lock_time = none;
            swap_type = if is_grin init.from then offered else requested;
          };
          btc = record {
            amount = if is_btc init.from then init.from_amount else init.to_amount;
            timelock = init.timeout_btc;
            swap_type = if is_btc init.from then offered else requested;
            lock_time = none;
            pub_a = none;
            pub_b = none;
            pub_x = none;
          };
          meta = record { server = settings.tcp_addr; port = settings.tcp_port };
        };
        prv_slate = record {
          mw = record {
            inputs = [];
            partial_key = 0;
            shared_coin = none;
            change_coin = none;
            refund_coin = none;
            swapped_coin = none;
            refund_tx = none;
          };
          btc = record {
            inputs = [];
            witness = 0;
            sk = none;
            x = none;
            r_sk = none;
            change = none;
            swapped = none;
            lock = none;
            refunded = none;
          };
        };
      })
      else err (codes "Swapped currency setup not supported")
