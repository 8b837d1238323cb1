-- ===== src/Tests/Parties.antt =====
-- src/swap/protocol.rs: Alice and Bob exchange keys for a lock up to height 700.
use mw_btc_swap.Prelude.{
  ℕ, true, debug, panic, add_u64, sub_u64, ◌≡◌, ◌≢◌, ◌++◌, ap, refl, err, false, codes, text_eq, [],
  ◌∷◌, map, pos, ok, arith, to_string, parse_u64,
}
use mw_btc_swap.Net.Tcp.{ack}
use mw_btc_swap.Net.Tcp.Framing.{ends, Hears, as_line}
use mw_btc_swap.Net.Http.{Wire}
use mw_btc_swap.Bitcoin.Core.{import_btc_address, get_current_block_height}
use mw_btc_swap.Bitcoin.Routines.{
  Tx, create_private_key, get_lock_pub_script, create_lock_transaction, unsigned_input,
}
use mw_btc_swap.Swap.World.{World}
use mw_btc_swap.Swap.Locking.{Lock, exchange_keys_mw, sign_lock, locking_phase_swap_mw}
use mw_btc_swap.Swap.Locking.Agreement.{alice_says, bob_says, bob_setup}
use mw_btc_swap.Enums.{failed}
use mw_btc_swap.Net.Tcp.Utf8.{is_utf8}
use mw_btc_swap.Swap.Locking.Verified.{mismatch}
use mw_btc_swap.Swap.Locking.OtherAddress.{other_address_stops}
use mw_btc_swap.Swap.Locking.Parties.{Party, public_slates_agree}
use mw_btc_swap.Tests.Crate.{toy, toy_keys, tally}
use mw_btc_swap.Swap.Locking.OneInput.{sign_lock-panics}
use mw_btc_swap.Tests.Bitcoin.{coin}
use mw_btc_swap.Tests.Clients.{clients, btc_json, btc_core}
use mw_btc_swap.Tests.World.{ops, world, line, reply}

abbrev alice : Party toy ops
alice = record {
  clients = clients;
  world =
      world (line ack ∷ line (tally 3) ∷ line (tally 2) ∷ line (to_string 700) ∷ [])
        (reply [] ∷ []);
  writable = refl;
}

abbrev bob : Party toy ops
bob = record {
  clients = clients;
  world = world (line (tally 1) ∷ line ack ∷ line ack ∷ line ack ∷ []) (reply (codes "650") ∷ []);
  writable = refl;
}

abbrev after_height : Wire ℕ
after_height = (get_current_block_height btc_json btc_core bob.world.wire).1

answered_650 : get_current_block_height btc_json btc_core bob.world.wire ≡ (ok 650, after_height)
unfolding get_current_block_height codes parse_u64 text_eq
answered_650 = refl

abbrev after_import : Wire ℕ
after_import = (import_btc_address btc_json btc_core (codes "2N") alice.world.wire).1

imported :
    import_btc_address btc_json btc_core (codes "2N") alice.world.wire ≡ (ok tt, after_import)
unfolding import_btc_address codes text_eq
imported = refl

alice-Hears : Hears (bob_says toy 3 2 700) alice.world.stream.incoming
unfolding codes to_string
alice-Hears = (
  line (tally 3) ∷ line (tally 2) ∷ line (to_string 700) ∷ [],
  ends {line = ack} [] (ground arith),
  (
    line (tally 2) ∷ line (to_string 700) ∷ [],
    ends {line = tally 3} [] (ground arith),
    (
      line (to_string 700) ∷ [],
      ends {line = tally 2} [] (ground arith),
      ([], ends {line = to_string 700} [] (ground arith), tt),
    ),
  ),
)

bob-Hears : Hears (alice_says toy 1) bob.world.stream.incoming
unfolding codes
bob-Hears = (
  line ack ∷ line ack ∷ line ack ∷ [],
  ends {line = tally 1} [] (ground arith),
  (
    line ack ∷ line ack ∷ [],
    ends {line = ack} [] (ground arith),
    (
      line ack ∷ [],
      ends {line = ack} [] (ground arith),
      ([], ends {line = ack} [] (ground arith), tt),
    ),
  ),
)

public_slates_agree_example :
    (lock : Lock toy) × (alice' : World toy ops) × (bob' : World toy ops) × (exchange_keys_mw
        clients
        (record alice.world { entropy = 1 ∷ [] })
      ≡ (ok lock, alice'))
    × (bob_setup clients (record bob.world { entropy = 3 ∷ 4 ∷ 2 ∷ [] }) ≡ (ok (pos 700), bob'))
    × (alice'.slate.pub_slate ≡ bob'.slate.pub_slate)
    × (alice'.stream.outgoing ≡ map as_line (alice_says toy 1))
    × (bob'.stream.outgoing ≡ map as_line (bob_says toy 3 2 700))
unfolding create_private_key get_lock_pub_script
public_slates_agree_example =
    public_slates_agree toy_keys alice bob 1 3 4 2 [] [] 650 refl alice-Hears bob-Hears answered_650
      (omega arith) refl imported refl

-- Bob has imported two inputs.
abbrev locked_twice : Tx toy
locked_twice = record {
  version = 1;
  lock_time = 0;
  input =
      unsigned_input toy (codes "cafe") 0 4294967295
      ∷ unsigned_input toy (codes "cafe") 0 4294967295
      ∷ [];
  output =
      record { value = 20000; script_pubkey = get_lock_pub_script toy 1 2 3 (pos 700) true }
      ∷ record { value = 3500; script_pubkey = toy.new_p2pkh 4 }
      ∷ [];
}

locks_twice :
    create_lock_transaction toy debug 1 2 3 4 (coin ∷ coin ∷ []) 20000 500 (pos 700)
    ≡ ok locked_twice
unfolding create_lock_transaction add_u64 sub_u64
locks_twice = refl

sign_lock-panics_example : (sign_lock clients locked_twice (coin ∷ coin ∷ []) bob.world).0 ≡ panic
sign_lock-panics_example =
    sign_lock-panics clients coin coin [] 1 2 3 4 20000 500 (pos 700) bob.world locks_twice

-- Bob sends the address 2M instead of 2N.
abbrev misled : Party toy ops
misled = record {
  clients = clients;
  world =
      world
        (line ack
          ∷ line (tally 3)
          ∷ line (tally 2)
          ∷ line (to_string 700)
          ∷ line (codes "2M")
          ∷ line (codes "beef")
          ∷ [])
        (reply [] ∷ []);
  writable = refl;
}

misled-Hears :
    Hears (bob_says toy 3 2 700 ++ codes "2M" ∷ codes "beef" ∷ []) misled.world.stream.incoming
unfolding codes to_string
misled-Hears = (
  line (tally 3)
      ∷ line (tally 2)
      ∷ line (to_string 700)
      ∷ line (codes "2M")
      ∷ line (codes "beef")
      ∷ [],
  ends {line = ack} [] (ground arith),
  (
    line (tally 2) ∷ line (to_string 700) ∷ line (codes "2M") ∷ line (codes "beef") ∷ [],
    ends {line = tally 3} [] (ground arith),
    (
      line (to_string 700) ∷ line (codes "2M") ∷ line (codes "beef") ∷ [],
      ends {line = tally 2} [] (ground arith),
      (
        line (codes "2M") ∷ line (codes "beef") ∷ [],
        ends {line = to_string 700} [] (ground arith),
        (
          line (codes "beef") ∷ [],
          ends {line = codes "2M"} [] (ground arith),
          ([], ends {line = codes "beef"} [] (ground arith), tt),
        ),
      ),
    ),
  ),
)

address-is_utf8 : is_utf8 (codes "2M") ≡ true
unfolding is_utf8 codes
address-is_utf8 = refl

txid-is_utf8 : is_utf8 (codes "beef") ≡ true
unfolding is_utf8 codes
txid-is_utf8 = refl

other_address : codes "2N" ≢ codes "2M"
unfolding codes text_eq
other_address eq = let same : true ≡ false = ap (text_eq (codes "2N")) eq in cc

other_address_stops_example :
    (w' : World toy ops) × (locking_phase_swap_mw clients (record misled.world { entropy = 1 ∷ [] })
      ≡ (err mismatch, w'))
    × (w'.slate.pub_slate.status ≡ failed)
    × (w'.wire ≡ after_import)
    × (w'.grin_tx ≡ misled.world.grin_tx)
    × (w'.stream.outgoing ≡ map as_line (alice_says toy 1 ++ ack ∷ ack ∷ []))
unfolding create_private_key get_lock_pub_script
other_address_stops_example =
    other_address_stops toy_keys misled 1 [] 3 2 700 (codes "2M") (codes "beef") misled-Hears
      (omega arith) address-is_utf8 txid-is_utf8 refl imported other_address
