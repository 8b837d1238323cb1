-- ===== src/Swap/Verify.antt =====
-- src/swap/protocol.rs: the loop that waits for the locked funds.
pub mod Polls
use mw_btc_swap.Prelude.{ℕ, zero, suc, Text, Bool, true, false, leb, ◌==◌, unwrap_or, if◌then◌else◌}
use mw_btc_swap.Prelude.Actions.{pure, after, ◌>>=◌, ◌>>◌}
use mw_btc_swap.Bitcoin.Crate.{BitcoinLib}
use mw_btc_swap.Grin.Ops.{GrinOps}
use mw_btc_swap.Swap.World.{Clients, Step, sleep}
use mw_btc_swap.Swap.Calls.{final_balance}

module _ {lib : BitcoinLib} {ops : GrinOps lib} (cl : Clients) (addr : Text) where
  abbrev pub poll : Step lib ops ℕ
  poll = after (λ r. unwrap_or r 0) (final_balance cl addr)

  -- With `remaining` attempts, what `verified_funds` is at the end.
  unfoldable pub verify_funds : ℕ → ℕ → Step lib ops Bool
  verify_funds amount zero = pure false
  verify_funds amount (suc remaining) =
      let again = verify_funds amount remaining in
      do
        balance ← poll
        if leb 1 balance
            then (if balance == amount then pure true else pure false)
            else (sleep 60 >> again)
