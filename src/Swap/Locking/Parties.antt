-- ===== src/Swap/Locking/Parties.antt =====
-- The two parties of src/swap/protocol.rs, each hearing what the other writes.
use mw_btc_swap.Prelude.{
  ℕ, ◌+◌, ◌≤◌, ◌≡◌, ◌∙◌, sym, ap, some, none, List, ◌∷◌, ◌++◌, map, true, ok, pos, i64_max,
}
use mw_btc_swap.Net.Tcp.Framing.{Hears, as_line}
use mw_btc_swap.Net.Http.{Wire}
use mw_btc_swap.Bitcoin.Crate.{BitcoinLib, testnet}
use mw_btc_swap.Bitcoin.Core.{import_btc_address, get_current_block_height}
use mw_btc_swap.Bitcoin.Routines.{create_private_key, get_lock_pub_script}
use mw_btc_swap.Grin.Ops.{GrinOps}
use mw_btc_swap.Swap.World.{Clients, World}
use mw_btc_swap.Swap.Locking.{Lock, exchange_keys_mw}
use mw_btc_swap.Swap.Locking.Agreement.{
  KeyText, agreed, alice_says, bob_says, alice_exchanges, bob_exchanges, bob_setup,
}

-- A party whose stream can be written to.
pub record Party (lib : BitcoinLib) (ops : GrinOps lib) : Type 0 where
  pub clients : Clients
  pub world : World lib ops
  pub writable : world.stream.write_error ≡ none

abbrev pub public_of : (lib : BitcoinLib) → lib.SecretKey → lib.PublicKey
public_of lib k = lib.public_key (create_private_key lib k)

module _ {lib : BitcoinLib} {ops : GrinOps lib} (laws : KeyText lib) (alice bob : Party lib ops)
    (a b r x : lib.SecretKey) (keys_a keys_b : List lib.SecretKey) (height : ℕ) where
  -- Where Alice hears the four messages of Bob (ACK, his key, X and the lock height) and Bob the
  -- four of Alice (her key and three ACKs), each message in chunks of its own, over streams that
  -- can be written to, key texts can be read back and are UTF-8, Bob's node answers a height that
  -- gives with the timelock a lock height within an i64, and the lock address can be made and
  -- imported on Alice's side: both come through the exchange of keys and lock height, each has
  -- written exactly the four lines that the other hears, in that order, and where their public
  -- slates were equal they are equal again.
  pub public_slates_agree :
      {n : ℕ} {addr : lib.Address} {wire_a wire_b : Wire ops.Tx}
      → height + bob.world.slate.pub_slate.btc.timelock ≡ n
      → Hears (bob_says lib (public_of lib b) (public_of lib x) n) alice.world.stream.incoming
      → Hears (alice_says lib (public_of lib a)) bob.world.stream.incoming
      → get_current_block_height bob.clients.btc_json bob.clients.btc_core bob.world.wire
        ≡ (ok height, wire_b)
      → n ≤ i64_max
      → lib.address_from_script
          (get_lock_pub_script lib
            (public_of lib a)
            (public_of lib x)
            (public_of lib b)
            (pos n)
            true)
          testnet
        ≡ some addr
      → import_btc_address alice.clients.btc_json alice.clients.btc_core
          (lib.address_to_string addr)
          alice.world.wire
        ≡ (ok tt, wire_a)
      → bob.world.slate.pub_slate ≡ alice.world.slate.pub_slate
      → (lock : Lock lib) × (alice' : World lib ops) × (bob' : World lib ops) × (exchange_keys_mw
            alice.clients
            (record alice.world { entropy = a ∷ keys_a })
          ≡ (ok lock, alice'))
        × (bob_setup bob.clients (record bob.world { entropy = b ∷ r ∷ x ∷ keys_b })
            ≡ (ok (pos n), bob'))
        × (alice'.slate.pub_slate ≡ bob'.slate.pub_slate)
        × (alice'.stream.outgoing
            ≡ alice.world.stream.outgoing ++ map as_line (alice_says lib (public_of lib a)))
        × (bob'.stream.outgoing
            ≡ bob.world.stream.outgoing
              ++ map as_line (bob_says lib (public_of lib b) (public_of lib x) n))
  public_slates_agree {n} {addr} {wire_a} {wire_b} sum hears_a hears_b answer fits address imported
        same =
      let (r0, acked, (r1, key_b, (r2, key_x, (r3, time, done_a)))) = hears_a in
      let (q0, key_a, (q1, acked_b, (q2, acked_x, (q3, acked_n, done_b)))) = hears_b in
      let (alice', run_a, slate_a, stream_a, wire_is, grin_is) =
        alice_exchanges alice.clients laws alice.world alice.writable keys_a n a (public_of lib b)
          (public_of lib x) acked key_b key_x time fits address imported in
      let (bob', run_b, slate_b, wrote_b) =
        bob_exchanges bob.clients laws bob.world bob.writable keys_b n b r x (public_of lib a) key_a
          acked_b acked_x answer sum fits acked_n in
      (
        _,
        alice',
        bob',
        run_a,
        run_b,
        slate_a
            ∙ ap (λ p. agreed lib p (public_of lib a) (public_of lib b) (public_of lib x) n)
                (sym same)
            ∙ sym slate_b,
        ap (λ s. s.outgoing) stream_a,
        wrote_b,
      )
