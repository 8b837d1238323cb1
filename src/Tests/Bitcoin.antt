-- ===== src/Tests/Bitcoin.antt =====
-- src/bitcoin: a lock of 10000 satoshis up to height 600, its redeem and its refund.
use mw_btc_swap.Prelude.{
  ℕ, ◌+◌, ◌-◌, ◌≤◌, ◌≡◌, ◌↔◌, ◌%◌, refl, Text, codes, true, false, not, some, [], ◌∷◌, pos, negsuc,
  ok, panic, debug, release, u64_mod, to_string, parse_u64, parse_i64, arith, add_u64, sub_u64,
  ◌==◌, ltb, if◌then◌else◌,
}
use mw_btc_swap.Prelude.Words.{overflow}
use mw_btc_swap.Prelude.Decimal.{parse_u64-to_string, parse_i64-to_string}
use mw_btc_swap.Bitcoin.Crate.{slice, key}
use mw_btc_swap.Bitcoin.Types.{BtcInput}
use mw_btc_swap.Bitcoin.Amount.{F32, sat_amount}
use mw_btc_swap.Bitcoin.Responses.{Utxo}
use mw_btc_swap.Bitcoin.Core.{sum_utxos, get_current_block_height}
use mw_btc_swap.Bitcoin.Core.Balance.{total, single_output-even, sum_utxos-total}
use mw_btc_swap.Bitcoin.Core.Answers.{GivesHeight, block_height_iff}
use mw_btc_swap.Bitcoin.Routines.{
  Tx, get_lock_pub_script, get_p2pkh_pub_script, unsigned_input, create_lock_transaction,
  create_spend_lock_transaction,
}
use mw_btc_swap.Bitcoin.Routines.Amounts.{
  input_value, output_value, lock_outputs, spend_outputs, spend_below_fee,
}
use mw_btc_swap.Bitcoin.Script.{spends, blank}
use mw_btc_swap.Bitcoin.Signing.{
  nth, sign_p2pkh_transaction, signed_hash, sign_lock_transaction_redeemer,
  sign_lock_transaction_refund,
}
use mw_btc_swap.Bitcoin.Signing.Shape.{sign_p2pkh_transaction-blank}
use mw_btc_swap.Bitcoin.Signing.Contract.{redeem_of_lock, refund_of_lock}
use mw_btc_swap.Net.Http.{Wire, answered}
use mw_btc_swap.Tests.Crate.{p2pkh, testnet_key, toy, toy_rules}
use mw_btc_swap.Tests.Clients.{btc_json, btc_core}

-- Alice has key 1, x is 2, Bob has key 3, and 4 for his change.
abbrev pub coin : BtcInput
coin = record {
  txid = codes "cafe";
  vout = 0;
  value = 12000;
  secret = 3 ∷ [];
  pub_key = codes "aaa";
  pub_script = [];
}

abbrev locked : Tx toy
locked = record {
  version = 1;
  lock_time = 0;
  input = unsigned_input toy (codes "cafe") 0 4294967295 ∷ [];
  output =
      record { value = 10000; script_pubkey = get_lock_pub_script toy 1 2 3 (pos 600) true }
      ∷ record { value = 1500; script_pubkey = p2pkh 4 }
      ∷ [];
}

locks : create_lock_transaction toy debug 1 2 3 4 (coin ∷ []) 10000 500 (pos 600) ≡ ok locked
unfolding create_lock_transaction add_u64 sub_u64
locks = refl

lock_outputs_example :
    (10500 ≤ input_value (coin ∷ []))
    × (locked.output
        ≡ record { value = 10000; script_pubkey = get_lock_pub_script toy 1 2 3 (pos 600) true }
          ∷ record {
            value = input_value (coin ∷ []) - 10500;
            script_pubkey = get_p2pkh_pub_script toy 4;
          }
          ∷ [])
    × (output_value locked.output + 500 ≡ input_value (coin ∷ []))
lock_outputs_example = lock_outputs toy 1 2 3 4 (coin ∷ []) 10000 500 (pos 600) locks

-- The lock output as an input, and what spends it to key 9.
abbrev lock : BtcInput
lock = record coin { txid = codes "beef"; value = 10000 }

abbrev spending : ℕ → ℕ → Tx toy
spending lock_time sequence = record {
  version = 1;
  lock_time = lock_time;
  input = unsigned_input toy (codes "beef") 0 sequence ∷ [];
  output = record { value = 9500; script_pubkey = p2pkh 9 } ∷ [];
}

redeems : create_spend_lock_transaction toy debug 9 lock 10000 500 0 ≡ ok (spending 0 4294967295)
unfolding create_spend_lock_transaction sub_u64
redeems = refl

refunds : create_spend_lock_transaction toy debug 9 lock 10000 500 600 ≡ ok (spending 600 0)
unfolding create_spend_lock_transaction sub_u64
refunds = refl

first_output :
    nth locked.output 0
    ≡ ok (record { value = 10000; script_pubkey = get_lock_pub_script toy 1 2 3 (pos 600) true })
unfolding nth
first_output = refl

redeem_of_lock_example :
    spends toy_rules
      (sign_lock_transaction_redeemer toy
        (spending 0 4294967295)
        0
        (get_lock_pub_script toy 1 2 3 (pos 600) false)
        (testnet_key 1)
        (testnet_key 2))
      0
      (get_lock_pub_script toy 1 2 3 (pos 600) true)
    ≡ true
redeem_of_lock_example =
    redeem_of_lock toy toy_rules debug (testnet_key 1) (testnet_key 2) 3 4 (coin ∷ []) 10000 500
      (pos 600) locks first_output 9 lock 10000 500 0 redeems

refund_of_lock_example :
    spends toy_rules
      (sign_lock_transaction_refund toy
        (spending 600 0)
        0
        (get_lock_pub_script toy 1 2 3 (pos 600) false)
        (testnet_key 3))
      0
      (get_lock_pub_script toy 1 2 3 (pos 600) true)
    ≡ not (600 == 0)
refund_of_lock_example =
    refund_of_lock toy toy_rules debug (testnet_key 3) 1 2 4 (coin ∷ []) 10000 500 600 (omega arith)
      locks first_output 9 lock 10000 500 refunds

spend_outputs_example :
    (lock.value ≡ 10000)
    × (output_value (spending 600 0).output + 500 ≡ lock.value)
    × ((spending 600 0).lock_time ≡ 600)
    × ((spending 600 0).output ≡ record { value = 9500; script_pubkey = p2pkh 9 } ∷ [])
    × (txid : Text) × (some (codes "beef") ≡ some txid)
    × ((spending 600 0).input ≡ unsigned_input toy txid 0 0 ∷ [])
spend_outputs_example = spend_outputs toy debug 9 lock 10000 500 600 (omega arith) refunds

spend_below_fee_example :
    (create_spend_lock_transaction toy debug 9 (record lock { value = 400 }) 400 500 0 ≡ panic)
    × (tx : Tx toy) × (create_spend_lock_transaction toy release 9
          (record lock { value = 400 })
          400
          500
          0
        ≡ ok tx)
    × (output_value tx.output ≡ 400 + u64_mod - 500)
spend_below_fee_example =
    spend_below_fee toy 9 (record lock { value = 400 }) 500 0 (codes "beef") refl (omega arith)

abbrev signed : Tx toy
signed = record locked {
  input =
      record {
        previous_output = record { txid = codes "cafe"; vout = 0 };
        script_sig =
            toy.build (slice (signed_hash toy locked 0 (p2pkh 3) (testnet_key 3)) ∷ key 3 ∷ []);
        sequence = 4294967295;
        witness = [];
      }
      ∷ [];
}

signs : sign_p2pkh_transaction toy locked (p2pkh 3 ∷ []) (testnet_key 3 ∷ []) (3 ∷ []) ≡ ok signed
unfolding sign_p2pkh_transaction
signs = refl

sign_p2pkh_transaction-blank_example : blank toy signed ≡ blank toy locked
sign_p2pkh_transaction-blank_example =
    sign_p2pkh_transaction-blank toy locked (p2pkh 3 ∷ []) (testnet_key 3 ∷ []) (3 ∷ []) signs

-- An output of 2 ^ 24 satoshis.
abbrev even_amount : F32
even_amount = record { mantissa = 11258999; exponent = negsuc 25 }

abbrev even_utxo : Utxo
even_utxo = record {
  txid = [];
  vout = 0;
  address = [];
  label = [];
  script_pub_key = [];
  amount = even_amount;
  confirmations = 1;
  spendable = true;
  solvable = true;
  safe = true;
}

sums : sum_utxos debug 0 (even_utxo ∷ []) ≡ ok 16777216
unfolding sum_utxos add_u64 sat_amount
sums = refl

single_output-even_example : 16777216 % 2 ≡ 0
single_output-even_example =
    single_output-even debug even_utxo (omega arith) sums (omega arith) (omega arith)

sum_utxos-total_example : sum_utxos release 0 (even_utxo ∷ even_utxo ∷ []) ≡ (
    if ltb (total (even_utxo ∷ even_utxo ∷ [])) u64_mod
    then ok (total (even_utxo ∷ even_utxo ∷ []))
    else overflow release (total (even_utxo ∷ even_utxo ∷ []) % u64_mod))
sum_utxos-total_example = sum_utxos-total release (even_utxo ∷ even_utxo ∷ [])

abbrev btc_network : Wire ℕ
btc_network = record { replies = answered 200 (codes "500") ∷ []; sent = [] }

block_height_iff_example :
    ((get_current_block_height btc_json btc_core btc_network).0 ≡ ok 500)
    ↔ GivesHeight btc_json btc_core (answered 200 (codes "500")) 500
block_height_iff_example =
    block_height_iff btc_json btc_core (answered 200 (codes "500")) btc_network refl refl 500

parse_u64-to_string_example : parse_u64 (to_string 10500) ≡ some 10500
parse_u64-to_string_example = parse_u64-to_string 10500 (omega arith)

parse_i64-to_string_example : parse_i64 (to_string 2100600) ≡ some (pos 2100600)
parse_i64-to_string_example = parse_i64-to_string 2100600 (omega arith)
