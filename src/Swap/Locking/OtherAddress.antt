-- ===== src/Swap/Locking/OtherAddress.antt =====
-- Bob sends another lock address than the one that Alice computes (src/swap/protocol.rs).
use mw_btc_swap.Prelude.{
  ℕ, ◌≤◌, ◌≡◌, ◌≢◌, ◌∙◌, refl, sym, ap, Text, some, none, true, List, [], ◌∷◌, ◌++◌, map, ok, err,
  pos, i64_max,
}
use mathlib.Core.Path.{subst}
use mathlib.Core.List.{append_assoc}
use mw_btc_swap.Enums.{failed}
use mw_btc_swap.Net.Http.{Wire}
use mw_btc_swap.Net.Tcp.{ack}
use mw_btc_swap.Net.Tcp.Utf8.{is_utf8}
use mw_btc_swap.Net.Tcp.Framing.{Carries, Hears, as_line}
use mw_btc_swap.Bitcoin.Crate.{BitcoinLib, testnet}
use mw_btc_swap.Bitcoin.Core.{import_btc_address}
use mw_btc_swap.Bitcoin.Routines.{get_lock_pub_script}
use mw_btc_swap.Grin.Ops.{GrinOps}
use mw_btc_swap.Swap.World.{World, set_status}
use mw_btc_swap.Swap.Locking.{locking_phase_swap_mw}
use mw_btc_swap.Swap.Locking.Agreement.{
  KeyText, alice_says, bob_says, alice_exchanges, receives, after_line,
}
use mw_btc_swap.Swap.Locking.Parties.{Party, public_of}
use mw_btc_swap.Swap.Locking.Verified.{mismatch, locking_phase_swap_mw-mismatch}

module _ {lib : BitcoinLib} {ops : GrinOps lib} (laws : KeyText lib) (alice : Party lib ops)
    (a : lib.SecretKey) (keys : List lib.SecretKey) (pub_b pub_x : lib.PublicKey) (n : ℕ)
    (address txid : Text) where
  -- Where Alice hears Bob's four messages of the exchange and then another address than the one
  -- she computes, and a transaction id, each of valid UTF-8 and in chunks of its own, over a
  -- stream that can be written to, key texts can be read back and are UTF-8, the lock height is
  -- within an i64, and the lock address can be made and imported: the setup phase of the
  -- Mimblewimble side ends in the error "doesn't match" with the status failed; she has written
  -- the four lines of the exchange and two acknowledgements, the import was the last request to a
  -- node, and her keychain is as it was.
  pub other_address_stops :
      {addr : lib.Address} {wire : Wire ops.Tx}
      → Hears (bob_says lib pub_b pub_x n ++ address ∷ txid ∷ []) alice.world.stream.incoming
      → n ≤ i64_max
      → is_utf8 address ≡ true
      → is_utf8 txid ≡ true
      → lib.address_from_script
          (get_lock_pub_script lib (public_of lib a) pub_x pub_b (pos n) true)
          testnet
        ≡ some addr
      → import_btc_address alice.clients.btc_json alice.clients.btc_core
          (lib.address_to_string addr)
          alice.world.wire
        ≡ (ok tt, wire)
      → lib.address_to_string addr ≢ address
      → (w' : World lib ops) × (locking_phase_swap_mw alice.clients
            (record alice.world { entropy = a ∷ keys })
          ≡ (err mismatch, w'))
        × (w'.slate.pub_slate.status ≡ failed)
        × (w'.wire ≡ wire)
        × (w'.grin_tx ≡ alice.world.grin_tx)
        × (w'.stream.outgoing
            ≡ alice.world.stream.outgoing
              ++ map as_line (alice_says lib (public_of lib a) ++ ack ∷ ack ∷ []))
  other_address_stops
        (r0, acked, (r1, key_b, (r2, key_x, (r3, time, (r4, sent, (r5, told, done)))))) fits valid1
        valid2 address_of imported other =
      let cl = alice.clients in
      let (w1, run, slate_is, stream_is, wire_is, grin_is) =
        alice_exchanges cl laws alice.world alice.writable keys n a pub_b pub_x acked key_b key_x
          time fits address_of imported in
      let writable : w1.stream.write_error ≡ none =
        ap (λ s. s.write_error) stream_is ∙ alice.writable in
      let w2 : World lib ops = after_line cl w1 ack r4 in
      let w3 : World lib ops = after_line cl w2 ack r5 in
      let left =
        locking_phase_swap_mw-mismatch cl _ w1 w2 w3 run
          (receives cl w1 writable (subst (λ s. Carries address s.incoming r4) (sym stream_is) sent)
            valid1)
          (receives cl w2 writable told valid2) other in
      (
        (set_status failed w3).1,
        left,
        refl,
        wire_is,
        grin_is,
        append_assoc w1.stream.outgoing _ _
            ∙ ap (λ s. s.outgoing ++ as_line ack ∷ as_line ack ∷ []) stream_is
            ∙ append_assoc alice.world.stream.outgoing _ _,
      )
