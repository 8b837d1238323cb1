-- ===== src/Tests/Grin/Redeem.antt =====
-- The execution of a swap on the Mimblewimble side: Alice has key 1, Bob has key 2, x is 5.
use mw_btc_swap.Prelude.{
  ◌≡◌, refl, codes, text_eq, none, some, [], ◌∷◌, pos, ok, debug, add_u64, sub_u64, parse_u64,
}
use mw_btc_swap.Enums.{setup, offered, requested}
use mw_btc_swap.Net.Tcp.{send_msg, receive_msg}
use mw_btc_swap.Bitcoin.Core.{get_current_block_height, send_raw_transaction}
use mw_btc_swap.Bitcoin.Routines.{
  create_spend_lock_transaction, get_lock_pub_script, create_private_key, lock_pushes,
}
use mw_btc_swap.Bitcoin.Types.{new2}
use mw_btc_swap.Bitcoin.Signing.{
  nth, sign_lock_transaction_redeemer, deserialize_priv_key, deserialize_pub_key,
  private_key_from_grin_sk,
}
use mw_btc_swap.Grin.Node.{get_block_height}
use mw_btc_swap.Grin.Instance.{grin_ops}
use mw_btc_swap.Grin.Routines.{
  new_coin, deserialize_commitment, deserialize_secret_key, create_secret_key, sig_extract_s,
  estimate_fees,
}
use mw_btc_swap.Grin.Core.{verify_outputs, set_part_sig}
use mw_btc_swap.Grin.Core.Spend.{
  spend_coins, input_value, duplicate, change_of, too_small, add_inputs, add_change, add_coins,
  fill_slate, draw_keys, build, pre_transaction,
}
use mw_btc_swap.Grin.Core.Fin.{fin_tx, verify_adapted, sign_adapted, ext_witness}
use mw_btc_swap.Grin.Protocols.{on_core, on_line, send_slate, receive_text, receive_slate}
use mw_btc_swap.Grin.Protocols.Contract.{alice_finishes, dcontract_mw_tx_alice}
use mw_btc_swap.Swap.Types.{SwapSlate}
use mw_btc_swap.Swap.World.{World}
use mw_btc_swap.Swap.Timing.{check_if_enough_time}
use mw_btc_swap.Swap.Execution.{signed_redeem, redeem_btc, execute_mw, exec_phase_swap_mw}
use mw_btc_swap.Swap.Execution.Redeemed.{Keys}
use mw_btc_swap.Swap.Execution.Redeemed.Atomic.{Redeemed, exec_phase_swap_mw-Redeemed}
use mw_btc_swap.Tests.Crate.{toy, toy_rules, testnet_key, tally}
use mw_btc_swap.Tests.Clients.{clients}
use mw_btc_swap.Tests.World.{reply}
use mw_btc_swap.Tests.Grin.Integers.{◌+ℤ◌, ◌-ℤ◌}
use mw_btc_swap.Tests.Grin.Toy.{ToyTx, toy_grin, answer}
use mw_btc_swap.Tests.Grin.Laws.{toy-Schnorr}
use mw_btc_swap.Tests.Grin.Contract.{
  shared, alice, answers, bob, before_bob, bob-adapts, bob-Answers, one-is_utf8, two-is_utf8,
  one-read, two-read,
}

abbrev pub slate : SwapSlate ToyTx
slate = record {
  id = 1;
  pub_slate = record {
    status = setup;
    mw = record { amount = 900; timelock = 100; lock_time = some (pos 600); swap_type = offered };
    btc = record {
      amount = 50000000;
      timelock = 50;
      swap_type = requested;
      lock_time = some (pos 700);
      pub_a = some (tally 1);
      pub_b = some (tally 2);
      pub_x = some (tally 5);
    };
    meta = record { server = []; port = [] };
  };
  prv_slate = record {
    mw = record {
      inputs = [];
      partial_key = 0;
      shared_coin = some shared;
      change_coin = none;
      refund_coin = none;
      swapped_coin = none;
      refund_tx = none;
    };
    btc = record {
      inputs = [];
      witness = 0;
      sk = some (1 ∷ []);
      x = none;
      r_sk = none;
      change = none;
      swapped = none;
      lock = some (record {
        txid = codes "beef";
        vout = 0;
        value = 50000000;
        secret = [];
        pub_key = [];
        pub_script = [];
      });
      refunded = none;
    };
  };
}

abbrev ready : World toy (grin_ops toy_grin debug)
ready = record {
  slate = slate;
  stream = answers;
  wire = record { replies = reply (codes "540") ∷ reply (codes "694") ∷ reply [] ∷ []; sent = [] };
  grin_tx = alice;
  entropy = 7 ∷ [];
  slept = 0;
}

slate-Keys : Keys toy slate (testnet_key 1) (testnet_key 5) 2 (pos 700)
unfolding deserialize_priv_key deserialize_pub_key
slate-Keys = record {
  sk_text = 1 ∷ [];
  a_text = tally 1;
  b_text = tally 2;
  x_text = tally 5;
  has_sk = refl;
  has_a = refl;
  has_b = refl;
  has_x = refl;
  has_lock_time = refl;
  reads_sk = refl;
  reads_a = refl;
  reads_b = refl;
  reads_x = refl;
}

x-extracted : private_key_from_grin_sk toy (toy_grin.sk_to_btc (pos 5)) ≡ ok (testnet_key 5)
unfolding private_key_from_grin_sk
x-extracted = refl

abbrev swapped : World toy (grin_ops toy_grin debug)
swapped = (exec_phase_swap_mw clients ready).1

swaps : exec_phase_swap_mw clients ready ≡ (ok tt, swapped)
unfolding exec_phase_swap_mw execute_mw redeem_btc signed_redeem check_if_enough_time
    dcontract_mw_tx_alice alice_finishes on_core on_line send_slate receive_text receive_slate
    send_msg receive_msg spend_coins input_value duplicate change_of too_small add_inputs add_change
    add_coins fill_slate draw_keys build pre_transaction deserialize_commitment
    deserialize_secret_key create_secret_key codes text_eq add_u64 sub_u64 parse_u64 new_coin fin_tx
    verify_outputs verify_adapted sign_adapted set_part_sig ext_witness sig_extract_s
    private_key_from_grin_sk deserialize_priv_key deserialize_pub_key nth new2
    sign_lock_transaction_redeemer get_lock_pub_script create_spend_lock_transaction
    create_private_key get_block_height get_current_block_height send_raw_transaction estimate_fees
    lock_pushes ◌+ℤ◌ ◌-ℤ◌
swaps = refl

exec_phase_swap_mw-Redeemed_example :
    Redeemed clients toy_rules (testnet_key 1) (testnet_key 5) 2 (pos 700) ready swapped
exec_phase_swap_mw-Redeemed_example =
    exec_phase_swap_mw-Redeemed toy_grin clients toy-Schnorr toy_rules (codes "one") (codes "two")
      (answer (pos 66)) (answer (pos 61)) before_bob 897 (pos 5) bob ready (testnet_key 1)
      (testnet_key 5) 2 (pos 700) slate-Keys x-extracted bob-Answers one-is_utf8 two-is_utf8
      one-read two-read bob-adapts refl refl swaps
