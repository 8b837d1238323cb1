-- ===== src/Tests/Refund.antt =====
-- src/swap/protocol.rs: the refund of the Bitcoin side. Bob has key 2, Alice has key 1, x is 5.
use mw_btc_swap.Prelude.{◌≡◌, refl, codes, text_eq, some, [], ◌∷◌, ok, parse_u64, sub_u64}
use mw_btc_swap.Bitcoin.Core.{get_current_block_height, send_raw_transaction}
use mw_btc_swap.Bitcoin.Routines.{
  create_private_key, create_spend_lock_transaction, get_lock_pub_script, lock_pushes,
}
use mw_btc_swap.Bitcoin.Signing.{
  nth, sign_lock_transaction_refund, deserialize_priv_key, deserialize_pub_key, serialize_script,
  serialize_priv_key, serialize_pub_key,
}
use mw_btc_swap.Grin.Node.{get_block_height}
use mw_btc_swap.Swap.Types.{SwapSlate}
use mw_btc_swap.Swap.World.{World}
use mw_btc_swap.Swap.Timing.{can_refund}
use mw_btc_swap.Swap.Refund.{refund_keys, signed_refund, publish_refund_btc, refund_phase_swap_btc}
use mw_btc_swap.Swap.Refund.Reclaimed.{RefundedBtc, refund_phase_swap_btc-RefundedBtc}
use mw_btc_swap.Tests.Crate.{toy, toy_rules, tally}
use mw_btc_swap.Tests.Clients.{clients}
use mw_btc_swap.Tests.World.{ops, slate, reply, world}

abbrev locked : SwapSlate ops.Tx
locked =
    let p = slate.pub_slate in
    let v = slate.prv_slate in
    let b = p.btc in
    let q = v.btc in
    record slate {
      pub_slate = record p { btc = record b { pub_a = some (tally 1) } };
      prv_slate = record v {
        btc = record q {
          sk = some (2 ∷ []);
          x = some (5 ∷ []);
          lock = some (record {
            txid = codes "beef";
            vout = 0;
            value = 50000000;
            secret = [];
            pub_key = [];
            pub_script = [];
          });
        };
      };
    }

abbrev due : World toy ops
due =
    let w = world [] (reply (codes "601") ∷ reply (codes "701") ∷ reply (codes "") ∷ []) in
    record w { slate = locked }

abbrev refunded : World toy ops
refunded = (refund_phase_swap_btc clients due).1

refunds : refund_phase_swap_btc clients due ≡ (ok tt, refunded)
unfolding refund_phase_swap_btc publish_refund_btc signed_refund refund_keys can_refund codes
    text_eq parse_u64 sub_u64 create_private_key create_spend_lock_transaction get_lock_pub_script
    lock_pushes nth sign_lock_transaction_refund deserialize_priv_key deserialize_pub_key
    serialize_script serialize_priv_key serialize_pub_key get_block_height get_current_block_height
    send_raw_transaction
refunds = refl

refund_phase_swap_btc-RefundedBtc_example : RefundedBtc clients toy_rules due refunded
refund_phase_swap_btc-RefundedBtc_example =
    refund_phase_swap_btc-RefundedBtc clients toy_rules refunds
