-- ===== src/Tests/Swap.antt =====
-- src/swap: the timing of a swap, its refund, and the setup of the Mimblewimble side.
use mw_btc_swap.Prelude.{
  ℕ, ◌+◌, ◌<◌, ◌≡◌, ◌↔◌, refl, Text, codes, text_eq, true, ◌&&◌, [], ◌∷◌, ok, err, ltb, leb, arith,
  add_u64, sub_u64, parse_u64,
}
use mw_btc_swap.Net.Tcp.{ack, send_msg, receive_msg}
use mw_btc_swap.Net.Http.{answered}
use mw_btc_swap.Bitcoin.Amount.{sat_amount}
use mw_btc_swap.Bitcoin.Signing.{deserialize_pub_key}
use mw_btc_swap.Bitcoin.Core.{
  get_current_block_height, get_address_final_balance, import_btc_address,
}
use mw_btc_swap.Grin.Node.{get_block_height, push_transaction}
use mw_btc_swap.Swap.World.{World}
use mw_btc_swap.Swap.Calls.{grin_height, btc_height}
use mw_btc_swap.Swap.Timing.{check_if_enough_time, can_refund}
use mw_btc_swap.Swap.Timing.Window.{
  Heights, check_if_enough_time-Heights, can_refund-Heights, refund_after_window,
}
use mw_btc_swap.Swap.Verify.{verify_funds}
use mw_btc_swap.Swap.Verify.Polls.{FundsSeen, Mild, verify_funds-FundsSeen, verify_funds_bounded}
use mw_btc_swap.Swap.Refund.{refund_phase_swap_mw, refund_phase_swap_btc}
use mw_btc_swap.Swap.Refund.Due.{
  RefundedMw, refund_phase_swap_mw-RefundedMw, refund_too_early, too_early,
}
use mw_btc_swap.Swap.Execution.{exec_phase_swap_mw, exec_phase_swap_btc}
use mw_btc_swap.Swap.Execution.Late.{exec_too_late, too_late}
use mw_btc_swap.Swap.Locking.{exchange_keys_mw, lock_grin, locking_phase_swap_mw}
use mw_btc_swap.Swap.Locking.Verified.{LockedMw, locking_phase_swap_mw-LockedMw}
use mw_btc_swap.Tests.Crate.{toy}
use mw_btc_swap.Tests.Clients.{clients}
use mw_btc_swap.Tests.World.{ops, slate, line, reply, world}

-- Before the swap, in its last hour, and when the refunds are due.
abbrev early : World toy ops
early = world [] (reply (codes "540") ∷ reply (codes "694") ∷ [])

abbrev late : World toy ops
late = world [] (reply (codes "541") ∷ reply (codes "694") ∷ [])

abbrev due : World toy ops
due = world [] (reply (codes "601") ∷ reply (codes "701") ∷ reply (codes "") ∷ [])

abbrev asked : World toy ops → World toy ops
asked w = (btc_height clients (grin_height clients w).1).1

early-Heights : Heights clients early (asked early) 600 700 540 694
unfolding get_block_height get_current_block_height codes text_eq parse_u64
early-Heights = record {
  between = (grin_height clients early).1;
  time_grin = refl;
  time_btc = refl;
  answer_grin = refl;
  answer_btc = refl;
}

late-Heights : Heights clients late (asked late) 600 700 541 694
unfolding get_block_height get_current_block_height codes text_eq parse_u64
late-Heights = record {
  between = (grin_height clients late).1;
  time_grin = refl;
  time_btc = refl;
  answer_grin = refl;
  answer_btc = refl;
}

due-Heights : Heights clients due (asked due) 600 700 601 701
unfolding get_block_height get_current_block_height codes text_eq parse_u64
due-Heights = record {
  between = (grin_height clients due).1;
  time_grin = refl;
  time_btc = refl;
  answer_grin = refl;
  answer_btc = refl;
}

check_if_enough_time-Heights_example :
    check_if_enough_time clients early ≡ (ok (leb 600 600 && leb 700 700), asked early)
check_if_enough_time-Heights_example =
    check_if_enough_time-Heights clients early-Heights (omega arith) (omega arith)

can_refund-Heights_example : can_refund clients due ≡ (ok (ltb 600 601 && ltb 700 701), asked due)
can_refund-Heights_example = can_refund-Heights clients due-Heights

refund_after_window_example :
    (kg : ℕ) × (kb : ℕ) × Heights clients due (asked due) 600 700 kg kb
    × (540 + 60 < kg)
    × (694 + 6 < kb)
refund_after_window_example =
    refund_after_window clients early-Heights (omega arith) (omega arith)
      (check_if_enough_time-Heights clients early-Heights (omega arith) (omega arith)) refl refl
      (can_refund-Heights clients due-Heights)

refund_too_early_example :
    (refund_phase_swap_mw clients early ≡ (err too_early, asked early))
    × (refund_phase_swap_btc clients early ≡ (err too_early, asked early))
    × ((asked early).slate ≡ slate)
    × ((asked early).stream ≡ early.stream)
    × ((asked early).entropy ≡ 1 ∷ 5 ∷ [])
refund_too_early_example = refund_too_early clients early-Heights refl

exec_too_late_example :
    (exec_phase_swap_mw clients late ≡ (err too_late, asked late))
    × (exec_phase_swap_btc clients late ≡ (err too_late, asked late))
    × ((asked late).slate ≡ slate)
    × ((asked late).stream ≡ late.stream)
    × ((asked late).entropy ≡ 1 ∷ 5 ∷ [])
exec_too_late_example = exec_too_late clients late-Heights (omega arith) (omega arith) refl

refund_phase_swap_mw-RefundedMw_example :
    (refund_phase_swap_mw clients due ≡ (ok tt, (refund_phase_swap_mw clients due).1))
    ↔ RefundedMw clients due (refund_phase_swap_mw clients due).1
refund_phase_swap_mw-RefundedMw_example = refund_phase_swap_mw-RefundedMw clients

-- Two polls without an answer, then one that shows the amount.
abbrev unlocked : World toy ops
unlocked =
    world [] (answered 500 (codes "busy") ∷ answered 500 (codes "busy") ∷ reply (codes "") ∷ [])

verify_funds-FundsSeen_example :
    (verify_funds clients (codes "2N") 50000000 120 unlocked
      ≡ (ok true, (verify_funds clients (codes "2N") 50000000 120 unlocked).1))
    ↔ FundsSeen clients
        (codes "2N")
        50000000
        120
        unlocked
        (verify_funds clients (codes "2N") 50000000 120 unlocked).1
verify_funds-FundsSeen_example = verify_funds-FundsSeen clients (codes "2N") 50000000 120

verify_funds_bounded_example :
    Mild clients
      (codes "2N")
      50000000
      120
      unlocked
      (verify_funds clients (codes "2N") 50000000 120 unlocked).1
verify_funds_bounded_example = verify_funds_bounded clients (codes "2N") 50000000 120 unlocked

-- The messages of Bob: his ACKs, his keys 3 and 2, the lock height, the address and the txid.
abbrev meeting : Text → World toy ops
meeting address =
    world
      (line ack
        ∷ line (codes "aaa")
        ∷ line (codes "aa")
        ∷ line (codes "700")
        ∷ line address
        ∷ line (codes "beef")
        ∷ line ack
        ∷ [])
      (reply [] ∷ reply [] ∷ reply (codes "500") ∷ reply [] ∷ [])

abbrev set_up : World toy ops
set_up = (locking_phase_swap_mw clients (meeting (codes "2N"))).1

sets_up : locking_phase_swap_mw clients (meeting (codes "2N")) ≡ (ok tt, set_up)
unfolding locking_phase_swap_mw exchange_keys_mw verify_funds lock_grin codes send_msg text_eq
    receive_msg deserialize_pub_key parse_u64 import_btc_address get_address_final_balance add_u64
    sat_amount get_block_height sub_u64 push_transaction
sets_up = refl

locking_phase_swap_mw-LockedMw_example : LockedMw clients (meeting (codes "2N")) set_up
locking_phase_swap_mw-LockedMw_example = locking_phase_swap_mw-LockedMw clients sets_up
