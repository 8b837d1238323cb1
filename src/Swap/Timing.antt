-- ===== src/Swap/Timing.antt =====
-- src/swap/protocol.rs: `check_if_enough_time` and `can_refund`.
pub mod Window
use mw_btc_swap.Prelude.{
  ℕ, ◌/◌, Bool, false, ℤ, Outcome, ok, unwrap, Profile, add_u64, ltb, leb, if◌then◌else◌,
}
use mw_btc_swap.Prelude.Results.{◌>>=◌ as ◌>>=ₒ◌}
use mw_btc_swap.Prelude.Actions.{lift, after, ◌>>=◌}
use mw_btc_swap.Constants.{btc_block_time, grin_block_time}
use mw_btc_swap.Bitcoin.Crate.{BitcoinLib}
use mw_btc_swap.Grin.Ops.{GrinOps}
use mw_btc_swap.Swap.World.{Clients, Step, to_u64}
use mw_btc_swap.Swap.Calls.{grin_height, btc_height, get_slate, need}

-- `height + (60 / block_time) <= u64::try_from(lock_time).unwrap()`
unfoldable pub hour_left : Profile → ℕ → ℕ → ℤ → Outcome Bool
hour_left p block_time height lock_time = add_u64 p height (60 / block_time) >>=ₒ λ later.
    to_u64 lock_time >>=ₒ λ lock. ok (leb later lock)

-- `height > u64::try_from(lock_time).unwrap()`
unfoldable pub passed : ℕ → ℤ → Outcome Bool
passed height lock_time = to_u64 lock_time >>=ₒ λ lock. ok (ltb lock height)

-- `a && b`, where `b` is evaluated only after a true `a`.
abbrev pub and_then : Outcome Bool → Outcome Bool → Outcome Bool
and_then a b = a >>=ₒ λ x. if x then b else ok false

module _ {lib : BitcoinLib} {ops : GrinOps lib} (cl : Clients) where
  unfoldable pub check_if_enough_time : Step lib ops Bool
  unfolding hour_left
  check_if_enough_time = do
    slate ← get_slate
    locktime_grin ← need slate.pub_slate.mw.lock_time
    locktime_btc ← need slate.pub_slate.btc.lock_time
    block_height_grin ← after unwrap (grin_height cl)
    block_height_btc ← after unwrap (btc_height cl)
    lift (
        and_then (hour_left cl.profile grin_block_time block_height_grin locktime_grin)
          (hour_left cl.profile btc_block_time block_height_btc locktime_btc))

  unfoldable pub can_refund : Step lib ops Bool
  unfolding passed
  can_refund = do
    slate ← get_slate
    locktime_grin ← need slate.pub_slate.mw.lock_time
    locktime_btc ← need slate.pub_slate.btc.lock_time
    block_height_grin ← after unwrap (grin_height cl)
    block_height_btc ← after unwrap (btc_height cl)
    lift (and_then (passed block_height_grin locktime_grin) (passed block_height_btc locktime_btc))
