-- ===== src/Tests/Grin.antt =====
-- src/grin: transactions, their texts, and the contract of a swap.
mod Integers
mod Toy
mod Laws
mod Contract
mod Redeem
mod Swapped
use mw_btc_swap.Prelude.{
  ◌<◌, ◌≡◌, ◌≢◌, refl, arith, codes, text_eq, none, some, List, [], ◌∷◌, pos, negsuc, ok, debug,
  add_u64, ℤ,
}
use mw_btc_swap.Grin.Types.{MwCoin}
use mw_btc_swap.Grin.Routines.{
  MpbpContext, GrinCore, ser_obj, to_string, from_string, new_coin, deserialize_commitment,
  deserialize_secret_key, create_secret_key,
}
use mw_btc_swap.Grin.Routines.Roundtrip.{from_string-to_string}
use mw_btc_swap.Grin.Core.{SpendCoinsResult, RecvCoinsResult, verify_outputs}
use mw_btc_swap.Grin.Core.Spend.{
  spend_coins, input_value, duplicate, change_of, too_small, add_inputs, add_change, add_coins,
  fill_slate, draw_keys, build, pre_transaction,
}
use mw_btc_swap.Grin.Core.Recv.{recv_coins, receive_output}
use mw_btc_swap.Grin.Core.Recv
use mw_btc_swap.Grin.Core.Recv.Balance.{recv_coins-Balances}
use mw_btc_swap.Grin.Core.Spend.Balance.{AllOpen, Balances}
use mw_btc_swap.Tests.Grin.Integers.{◌+ℤ◌, ◌-ℤ◌}
use mw_btc_swap.Grin.Core.Spend.Inputs.{Distinct}
use mw_btc_swap.Grin.Core.Spend.Accepts.{Covers}
use mw_btc_swap.Grin.Core.Spend.ChangeCoin.{Keeps, spend_coins-Keeps}
use mw_btc_swap.Tests.Grin.Toy.{ToyTx, types, toy_grin, write_int, write_ctx}
use mw_btc_swap.Tests.Grin.Laws.{toy_back, toy_pedersen, toy_book}

abbrev proof_ctx : MpbpContext types
proof_ctx = record {
  t_1 = pos 3;
  t_2 = negsuc 1;
  amount = 7;
  shared_nonce = pos 0;
  tau_x = pos 9;
  commit = negsuc 2;
}

proof_ctx-written : to_string toy_grin proof_ctx ≡ ok (write_ctx (ser_obj toy_grin proof_ctx))
unfolding to_string
proof_ctx-written = refl

from_string-to_string_example :
    from_string toy_grin (write_ctx (ser_obj toy_grin proof_ctx)) ≡ ok proof_ctx
from_string-to_string_example = from_string-to_string toy_back proof_ctx refl refl proof_ctx-written

-- Two coins of 40 and 60.
abbrev coins : List MwCoin
coins =
    record { commitment = write_int (pos 43); blinding_factor = write_int (pos 3); value = 40 }
    ∷ record { commitment = write_int (pos 67); blinding_factor = write_int (pos 7); value = 60 }
    ∷ []

abbrev sender : GrinCore types
sender = record { rng = pos 11 ∷ pos 12 ∷ pos 13 ∷ pos 14 ∷ pos 15 ∷ []; chain = 0 }

abbrev spent : SpendCoinsResult types
spent = record {
  slate = record {
    num_participants = 2;
    tx = some (record {
      inputs = pos 43 ∷ pos 67 ∷ [];
      outputs = (pos 56, 45) ∷ [];
      kernels = [];
      offset = pos 15;
    });
    amount = 50;
    fee_fields = 5;
    kernel_features = 0;
    kernel_features_args = none;
    offset = pos 15;
    participant_data =
        record { public_blind_excess = negsuc 13; public_nonce = pos 12; part_sig = none } ∷ [];
    rest = 0;
  };
  sig_key = negsuc 13;
  sig_nonce = pos 12;
  change_coin = some (record {
    commitment = write_int (pos 56);
    blinding_factor = write_int (pos 11);
    value = 45;
  });
}

coins-spent :
    spend_coins toy_grin debug coins 50 0 2 2 sender ≡ (ok spent, record { rng = []; chain = 0 })
unfolding spend_coins input_value duplicate change_of too_small add_inputs add_change add_coins
    fill_slate draw_keys build pre_transaction deserialize_commitment deserialize_secret_key
    create_secret_key codes text_eq add_u64 new_coin ◌+ℤ◌ ◌-ℤ◌
coins-spent = refl

spend_coins-Keeps_example :
    (coins ≢ [])
    × (0 < 50)
    × Distinct coins
    × Covers 100 50 5 2
    × Keeps toy_grin 45 spent.change_coin
spend_coins-Keeps_example =
    spend_coins-Keeps toy_grin debug coins 50 0 2 2 sender (omega arith) (omega arith) coins-spent

abbrev receiver : GrinCore types
receiver = record { rng = pos 21 ∷ pos 22 ∷ pos 23 ∷ pos 24 ∷ []; chain = 1 }

abbrev received : RecvCoinsResult types
received = record {
  slate = record {
    num_participants = 2;
    tx = some (record {
      inputs = pos 43 ∷ pos 67 ∷ [];
      outputs = (pos 71, 50) ∷ (pos 56, 45) ∷ [];
      kernels = [];
      offset = pos 15;
    });
    amount = 50;
    fee_fields = 5;
    kernel_features = 0;
    kernel_features_args = none;
    offset = pos 15;
    participant_data =
        record { public_blind_excess = negsuc 13; public_nonce = pos 12; part_sig = none }
        ∷ record { public_blind_excess = pos 21; public_nonce = pos 24; part_sig = none }
        ∷ [];
    rest = 0;
  };
  output_coin = record {
    commitment = write_int (pos 71);
    blinding_factor = write_int (pos 21);
    value = 50;
  };
}

coins-received :
    recv_coins toy_grin spent.slate 50 receiver ≡ (ok received, record { rng = []; chain = 1 })
unfolding recv_coins receive_output verify_outputs Recv.draw_keys Recv.build create_secret_key
    new_coin ◌+ℤ◌
coins-received = refl

coins-AllOpen : AllOpen toy_pedersen coins
unfolding deserialize_commitment deserialize_secret_key codes text_eq ◌+ℤ◌
coins-AllOpen = ((pos 43, pos 3, refl, refl, refl), ((pos 67, pos 7, refl, refl, refl), tt))

recv_coins-Balances_example :
    (tx : ToyTx) × (c : ℤ) × (k : ℤ) × (received.slate.tx ≡ some tx)
    × Balances toy_pedersen tx 5 (negsuc 13 +ℤ pos 15 +ℤ k)
    × (received.output_coin ≡ new_coin toy_grin c k 50)
    × (c ≡ pos 50 +ℤ k)
recv_coins-Balances_example =
    recv_coins-Balances toy_pedersen toy_book debug coins 50 0 2 2 sender receiver (omega arith)
      (omega arith) coins-AllOpen (omega arith) coins-spent coins-received
