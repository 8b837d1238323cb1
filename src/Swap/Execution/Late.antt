-- ===== src/Swap/Execution/Late.antt =====
-- What the execution phases of src/swap/protocol.rs do when it is too late.
use mw_btc_swap.Prelude.{ℕ, ◌+◌, ◌<◌, ◌≡◌, ◌∙◌, false, ◌&&◌, Text, codes, ok, err, leb, u64_mod, ap}
use mw_btc_swap.Prelude.Actions.{>>=-step}
use mw_btc_swap.Bitcoin.Crate.{BitcoinLib}
use mw_btc_swap.Grin.Ops.{GrinOps}
use mw_btc_swap.Swap.World.{Clients, World}
use mw_btc_swap.Swap.Timing.{check_if_enough_time}
use mw_btc_swap.Swap.Timing.Window.{Heights, Heights-slate, check_if_enough_time-Heights}
use mw_btc_swap.Swap.Execution.{exec_phase_swap_mw, exec_phase_swap_btc}

abbrev pub too_late : Text
too_late = codes "Not enough time left to execute atomic swap"

module _ {lib : BitcoinLib} {ops : GrinOps lib} (cl : Clients) {w w' : World lib ops}
    {lg lb hg hb : ℕ} (h : Heights cl w w' lg lb hg hb) where
  -- Where the answered heights, less than 2^64 by 60 and by 6, leave less than 60 Grin blocks or
  -- less than 6 Bitcoin blocks up to the lock times, both execution phases end in the error "not
  -- enough time" right after the two questions; the slate, the stream and the keys to come are as
  -- they were.
  pub exec_too_late :
      hg + 60 < u64_mod
      → hb + 6 < u64_mod
      → (leb (hg + 60) lg && leb (hb + 6) lb) ≡ false
      → (exec_phase_swap_mw cl w ≡ (err too_late, w'))
        × (exec_phase_swap_btc cl w ≡ (err too_late, w'))
        × (w'.slate ≡ w.slate)
        × (w'.stream ≡ w.stream)
        × (w'.entropy ≡ w.entropy)
  unfolding exec_phase_swap_mw exec_phase_swap_btc
  exec_too_late small_grin small_btc late =
      let (same_slate, same_stream, same_entropy) = Heights-slate h in
      let found : check_if_enough_time cl w ≡ (ok false, w') =
        check_if_enough_time-Heights cl h small_grin small_btc ∙ ap (λ b. (ok b, w')) late in
      (
        >>=-step (check_if_enough_time cl) _ found,
        >>=-step (check_if_enough_time cl) _ found,
        same_slate,
        same_stream,
        same_entropy,
      )
