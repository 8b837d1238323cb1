-- ===== src/Commands/Connect/Disagreement.antt =====
-- A party that connects and one that listens, over different public slates
-- (src/commands/cmd_types/{lock, execute, cancel, listen}.rs).
use mw_btc_swap.Prelude.{
  ◌≡◌, refl, Text, codes, eq_ignore_ascii_case, true, false, none, List, [], ◌∷◌, ◌++◌, map, err,
}
use mathlib.Core.List.{append_assoc}
use mw_btc_swap.Net.Tcp.{Stream, ack}
use mw_btc_swap.Net.Tcp.Utf8.{is_utf8}
use mw_btc_swap.Net.Tcp.Framing.{Hears, as_line}
use mw_btc_swap.Bitcoin.Crate.{BitcoinLib}
use mw_btc_swap.Grin.Ops.{GrinOps}
use mw_btc_swap.Swap.World.{Clients, World}
use mw_btc_swap.Swap.Locking.Agreement.{sends, receives, after_line}
use mw_btc_swap.Commands.Connect.{lock, execute, cancel}
use mw_btc_swap.Commands.Connect.Handshake.{differs, refused_checksum}
use mw_btc_swap.Commands.Listen.{serve}
use mw_btc_swap.Commands.Listen.Strangers.{serve-wrong_client}

-- What the party that connects says, and what the one that listens says.
abbrev pub connector_says : Text → List Text
connector_says checksum = checksum ∷ ack ∷ []

abbrev pub listener_says : List Text
listener_says = ack ∷ codes "FAULT" ∷ []

fault-is_utf8 : is_utf8 (codes "FAULT") ≡ true
unfolding is_utf8 codes
fault-is_utf8 = refl

fault-refuses : eq_ignore_ascii_case (codes "FAULT") (codes "OK") ≡ false
unfolding eq_ignore_ascii_case codes
fault-refuses = refl

-- `w'` has the slate, the network and the keys of `w`, and has said `said` over the stream `s`.
abbrev pub OnlySaid :
    {lib : BitcoinLib} {ops : GrinOps lib}
    → List Text
    → Stream
    → World lib ops
    → World lib ops
    → Type 0
OnlySaid said s w w' =
    (w'.slate ≡ w.slate)
    × (w'.wire ≡ w.wire)
    × (w'.entropy ≡ w.entropy)
    × (w'.stream.outgoing ≡ s.outgoing ++ map as_line said)

module _ {lib : BitcoinLib} {ops : GrinOps lib} (cl : Clients) where
  pub connector_refused :
      (checksum : Text) (w : World lib ops)
      → Hears listener_says w.stream.incoming
      → w.stream.write_error ≡ none
      → (w' : World lib ops) × (lock cl checksum w ≡ (err (codes "Checksums didn't match!"), w'))
        × (execute cl checksum w ≡ (err differs, w'))
        × (cancel cl checksum w ≡ (err differs, w'))
        × OnlySaid (connector_says checksum) w.stream w w'
  connector_refused checksum w (r0, acked, (r1, fault, done)) writable =
      let w1 : World lib ops = after_line cl w checksum r0 in
      let w2 : World lib ops = after_line cl w1 ack r1 in
      let (locks, executes, cancels, slate_is) =
        refused_checksum cl checksum w w1 w2 (sends cl w writable checksum acked)
          (receives cl w1 writable fault fault-is_utf8) fault-refuses in
      (w2, locks, executes, cancels, (refl, refl, refl, append_assoc w.stream.outgoing _ _))

  pub listener_refuses :
      (checksum other : Text) (w : World lib ops) (client : Stream) (clients : List Stream)
      → Hears (connector_says other) client.incoming
      → client.write_error ≡ none
      → is_utf8 other ≡ true
      → eq_ignore_ascii_case other checksum ≡ false
      → (w' : World lib ops) × (serve cl checksum (client ∷ clients) w
          ≡ serve cl checksum clients w')
        × OnlySaid listener_says client w w'
  listener_refuses checksum other w client clients (r0, sent, (r1, acked, done)) writable valid
        wrong =
      let start : World lib ops = record w { stream = client } in
      let w1 : World lib ops = after_line cl start ack r0 in
      let w2 : World lib ops = after_line cl w1 (codes "FAULT") r1 in
      let (goes_on, slate_is, wire_is, keys_are) =
        serve-wrong_client cl checksum w w1 w2 client clients
          (receives cl start writable sent valid) wrong
          (sends cl w1 writable (codes "FAULT") acked) in
      (w2, goes_on, (refl, refl, refl, append_assoc client.outgoing _ _))

module _ {lib : BitcoinLib} {ops : GrinOps lib} (cl_a cl_b : Clients) where
  -- Where a party that connects and one that listens have checksums that differ, not only in
  -- capitals, the first one valid UTF-8, and the one hears ACK and FAULT, the other the checksum
  -- and ACK, each message in chunks of its own, over streams that can be written to: lock, execute
  -- and cancel of the first end in an error that says so, the second goes on to its next client,
  -- each has written exactly the two lines that the other hears, and the slate, the network and
  -- the keys to come of both are as they were.
  pub checksums_differ :
      (checksum_a checksum_b : Text) (a b : World lib ops) (client : Stream) (clients : List Stream)
      → Hears listener_says a.stream.incoming
      → Hears (connector_says checksum_a) client.incoming
      → a.stream.write_error ≡ none
      → client.write_error ≡ none
      → is_utf8 checksum_a ≡ true
      → eq_ignore_ascii_case checksum_a checksum_b ≡ false
      → (a' : World lib ops) × (b' : World lib ops) × (lock cl_a checksum_a a
          ≡ (err (codes "Checksums didn't match!"), a'))
        × (execute cl_a checksum_a a ≡ (err differs, a'))
        × (cancel cl_a checksum_a a ≡ (err differs, a'))
        × (serve cl_b checksum_b (client ∷ clients) b ≡ serve cl_b checksum_b clients b')
        × OnlySaid (connector_says checksum_a) a.stream a a'
        × OnlySaid listener_says client b b'
  checksums_differ checksum_a checksum_b a b client clients hears_a hears_b writable_a writable_b
        valid wrong =
      let (a', locks, executes, cancels, said_a) =
        connector_refused cl_a checksum_a a hears_a writable_a in
      let (b', goes_on, said_b) =
        listener_refuses cl_b checksum_b checksum_a b client clients hears_b writable_b valid
          wrong in
      (a', b', locks, executes, cancels, goes_on, said_a, said_b)
