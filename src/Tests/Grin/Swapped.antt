-- ===== src/Tests/Grin/Swapped.antt =====
-- The execution of a swap on the Bitcoin side: Bob has the secret 5 and his half of the shared coin.
use mw_btc_swap.Prelude.{
  ◌≡◌, refl, codes, text_eq, none, some, [], ◌∷◌, pos, ok, debug, add_u64, sub_u64, parse_u64,
}
use mw_btc_swap.Net.Tcp.{ack, send_msg, receive_msg}
use mw_btc_swap.Bitcoin.Core.{get_current_block_height}
use mw_btc_swap.Bitcoin.Signing.{deserialize_priv_key}
use mw_btc_swap.Grin.Node.{get_block_height, push_transaction}
use mw_btc_swap.Grin.Instance.{grin_ops}
use mw_btc_swap.Grin.Routines.{
  GrinCore, new_coin, deserialize_secret_key, create_secret_key, estimate_fees,
}
use mw_btc_swap.Grin.Core.{verify_outputs, set_part_sig}
use mw_btc_swap.Grin.Core.Joint.{d_spend_coins, valid_features, sub_keys, join}
use mw_btc_swap.Grin.Core.Recv
use mw_btc_swap.Grin.Core.Recv.{apt_recv_coins, receive_output, sign_both, place_sig}
use mw_btc_swap.Grin.Core.Fin.{fin_tx, replace_part_sig, sign_round_2}
use mw_btc_swap.Grin.Protocols.{on_core, on_line, send_slate, receive_text, receive_slate}
use mw_btc_swap.Grin.Protocols.Contract.{dcontract_mw_tx_bob}
use mw_btc_swap.Swap.Types.{SwapSlate}
use mw_btc_swap.Swap.World.{World}
use mw_btc_swap.Swap.Timing.{check_if_enough_time}
use mw_btc_swap.Swap.Execution.{publish_mw, execute_btc, exec_phase_swap_btc}
use mw_btc_swap.Swap.Execution.Swapped.{Swapped, exec_phase_swap_btc-Swapped}
use mw_btc_swap.Tests.Crate.{toy}
use mw_btc_swap.Tests.Clients.{clients}
use mw_btc_swap.Tests.World.{line, reply}
use mw_btc_swap.Tests.Grin.Integers.{◌+ℤ◌, ◌-ℤ◌}
use mw_btc_swap.Tests.Grin.Toy.{types, ToyTx, toy_grin}
use mw_btc_swap.Tests.Grin.Redeem.{slate}

abbrev bobs : SwapSlate ToyTx
bobs =
    let v = slate.prv_slate in
    let b = v.btc in record slate { prv_slate = record v { btc = record b { x = some (5 ∷ []) } } }

abbrev bob : GrinCore types
bob = record { rng = pos 35 ∷ pos 30 ∷ pos 32 ∷ pos 33 ∷ pos 31 ∷ []; chain = 1 }

abbrev ready : World toy (grin_ops toy_grin debug)
ready = record {
  slate = bobs;
  stream = record {
    incoming = line (codes "offer") ∷ line ack ∷ line (codes "signed") ∷ line ack ∷ [];
    outgoing = [];
    write_error = none;
  };
  wire = record { replies = reply (codes "540") ∷ reply (codes "694") ∷ reply [] ∷ []; sent = [] };
  grin_tx = bob;
  entropy = [];
  slept = 0;
}

abbrev done : World toy (grin_ops toy_grin debug)
done = (exec_phase_swap_btc clients ready).1

swaps : exec_phase_swap_btc clients ready ≡ (ok tt, done)
unfolding exec_phase_swap_btc execute_btc publish_mw check_if_enough_time dcontract_mw_tx_bob
    on_core on_line send_slate receive_text receive_slate send_msg receive_msg d_spend_coins
    valid_features sub_keys join deserialize_secret_key create_secret_key codes text_eq add_u64
    sub_u64 parse_u64 new_coin apt_recv_coins receive_output Recv.draw_keys Recv.build sign_both
    place_sig set_part_sig fin_tx verify_outputs replace_part_sig sign_round_2 deserialize_priv_key
    get_block_height get_current_block_height push_transaction estimate_fees ◌+ℤ◌ ◌-ℤ◌
swaps = refl

exec_phase_swap_btc-Swapped_example : Swapped toy_grin clients ready done
exec_phase_swap_btc-Swapped_example = exec_phase_swap_btc-Swapped toy_grin clients ready swaps
