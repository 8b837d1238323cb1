-- ===== src/Tests/Grin/Contract.antt =====
-- The contract of a swap: Bob's secret is 5, and the words of the toy crates are his two answers.
use mw_btc_swap.Prelude.{
  ℤ, ◌≡◌, refl, codes, text_eq, true, none, some, [], ◌∷◌, pos, ok, debug, add_u64, arith,
}
use mw_btc_swap.Net.Tcp.{Stream, ack, send_msg, receive_msg}
use mw_btc_swap.Net.Tcp.Utf8.{is_utf8}
use mw_btc_swap.Net.Tcp.Framing.{ends}
use mw_btc_swap.Grin.Types.{MwCoin}
use mw_btc_swap.Grin.Ops.{ContractMwResult}
use mw_btc_swap.Grin.Crate.{Slate}
use mw_btc_swap.Grin.Routines.{
  GrinCore, new_coin, deserialize_commitment, deserialize_secret_key, create_secret_key,
  sig_extract_s,
}
use mw_btc_swap.Grin.Core.{AptRecCoinsResult, verify_outputs, set_part_sig}
use mw_btc_swap.Grin.Core.Spend.{
  spend_coins, input_value, duplicate, change_of, too_small, add_inputs, add_change, add_coins,
  fill_slate, draw_keys, build, pre_transaction,
}
use mw_btc_swap.Grin.Core.Recv
use mw_btc_swap.Grin.Core.Recv.{apt_recv_coins, receive_output, sign_both, place_sig}
use mw_btc_swap.Grin.Core.Fin.{fin_tx, verify_adapted, sign_adapted, ext_witness}
use mw_btc_swap.Grin.Protocols.{on_core, on_line, send_slate, receive_text, receive_slate}
use mw_btc_swap.Grin.Protocols.Contract.{alice_finishes, dcontract_mw_tx_alice}
use mw_btc_swap.Grin.Protocols.Contract.Revealed.{Answers, dcontract_mw_tx_alice-x}
use mw_btc_swap.Tests.World.{line}
use mw_btc_swap.Tests.Grin.Integers.{◌+ℤ◌, ◌-ℤ◌}
use mw_btc_swap.Tests.Grin.Toy.{types, toy_grin, write_int, answer, read_slate}
use mw_btc_swap.Tests.Grin.Laws.{toy-Schnorr}

abbrev pub shared : MwCoin
shared = record {
  commitment = write_int (pos 910);
  blinding_factor = write_int (pos 10);
  value = 900;
}

abbrev pub alice : GrinCore types
alice = record { rng = pos 41 ∷ pos 42 ∷ pos 43 ∷ pos 44 ∷ pos 45 ∷ []; chain = 0 }

abbrev pub answers : Stream
answers = record {
  incoming = line ack ∷ line (codes "one") ∷ line ack ∷ line (codes "two") ∷ [];
  outgoing = [];
  write_error = none;
}

abbrev pub bob : GrinCore types
bob = record { rng = pos 30 ∷ pos 32 ∷ pos 33 ∷ pos 31 ∷ []; chain = 1 }

abbrev pub before_bob : Slate types
before_bob = toy_grin.blank_with_kernel_features 3 true 0 none

abbrev pub adapted : AptRecCoinsResult types
adapted = record {
  slate = record {
    num_participants = 3;
    tx = some (record { inputs = []; outputs = (pos 927, 897) ∷ []; kernels = []; offset = pos 0 });
    amount = 0;
    fee_fields = 0;
    kernel_features = 0;
    kernel_features_args = none;
    offset = pos 0;
    participant_data =
        record { public_blind_excess = pos 30; public_nonce = pos 31; part_sig = some (pos 66) }
        ∷ [];
    rest = 0;
  };
  output_coin = record {
    commitment = write_int (pos 927);
    blinding_factor = write_int (pos 30);
    value = 897;
  };
  prt_sig = (pos 66, pos 61);
}

pub bob-adapts :
    apt_recv_coins toy_grin before_bob 897 (pos 5) bob
    ≡ (ok adapted, record { rng = []; chain = 1 })
unfolding apt_recv_coins receive_output verify_outputs Recv.draw_keys Recv.build sign_both place_sig
    set_part_sig create_secret_key new_coin ◌+ℤ◌ ◌-ℤ◌
bob-adapts = refl

pub bob-Answers : Answers (codes "one") (codes "two") answers.incoming
unfolding codes
bob-Answers = record {
  r0 = line (codes "one") ∷ line ack ∷ line (codes "two") ∷ [];
  r1 = line ack ∷ line (codes "two") ∷ [];
  r2 = line (codes "two") ∷ [];
  r3 = [];
  ack1 = ends {line = ack} [] (ground arith);
  line1 = ends {line = codes "one"} [] (ground arith);
  ack2 = ends {line = ack} [] (ground arith);
  line2 = ends {line = codes "two"} [] (ground arith);
}

pub one-is_utf8 : is_utf8 (codes "one") ≡ true
unfolding is_utf8 codes
one-is_utf8 = refl

pub two-is_utf8 : is_utf8 (codes "two") ≡ true
unfolding is_utf8 codes
two-is_utf8 = refl

pub one-read : read_slate (codes "one") ≡ some (answer (pos 66))
unfolding codes text_eq
one-read = refl

pub two-read : read_slate (codes "two") ≡ some (answer (pos 61))
unfolding codes text_eq
two-read = refl

abbrev contract : ContractMwResult (Slate types) ℤ
contract = record { tx = answer (pos 61); coin = none; x = pos 5 }

contracts :
    dcontract_mw_tx_alice toy_grin debug shared 897 0 (pos 5) (alice, answers)
    ≡ (ok contract, (dcontract_mw_tx_alice toy_grin debug shared 897 0 (pos 5) (alice, answers)).1)
unfolding dcontract_mw_tx_alice alice_finishes on_core on_line send_slate receive_text receive_slate
    send_msg receive_msg spend_coins input_value duplicate change_of too_small add_inputs add_change
    add_coins fill_slate draw_keys build pre_transaction deserialize_commitment
    deserialize_secret_key create_secret_key codes text_eq add_u64 new_coin fin_tx verify_outputs
    verify_adapted sign_adapted set_part_sig ext_witness sig_extract_s ◌+ℤ◌ ◌-ℤ◌
contracts = refl

dcontract_mw_tx_alice-x_example : (contract.x ≡ pos 5) × (contract.tx ≡ answer (pos 61))
dcontract_mw_tx_alice-x_example =
    dcontract_mw_tx_alice-x toy_grin debug toy-Schnorr shared 897 0 (pos 5) (alice, answers)
      (codes "one") (codes "two") (answer (pos 66)) (answer (pos 61)) before_bob 897 (pos 5) bob
      bob-Answers one-is_utf8 two-is_utf8 one-read two-read bob-adapts refl refl contracts
