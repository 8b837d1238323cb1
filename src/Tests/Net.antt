-- ===== src/Tests/Net.antt =====
-- src/net: a message that comes in two chunks, an acknowledgement, and a lost message.
use mw_btc_swap.Prelude.{codes, ◌≡◌, refl, true, none, [], ◌∷◌, ◌++◌, ok, debug, arith}
use mw_btc_swap.Prelude.Actions.{◌>>◌}
use mw_btc_swap.Net.Tcp.{bytes, Stream, newline, ack, send_msg, receive_msg}
use mw_btc_swap.Net.Tcp.Utf8.{is_utf8}
use mw_btc_swap.Net.Tcp.Framing.{Carries, begins, ends, receive_msg-Carries, send_msg-Carries}
use mw_btc_swap.Net.Tcp.Loss.{at_end, coalesced_lost}

abbrev chunks : Stream
chunks = record {
  incoming = bytes (codes "6") ∷ bytes (codes "00" ++ newline ∷ []) ∷ [];
  outgoing = [];
  write_error = none;
}

height_arrives : Carries (codes "600") chunks.incoming []
unfolding codes
height_arrives =
    begins {tail = codes "00"} (codes "6") (ground arith) refl
      (ends {line = codes "00"} [] (ground arith))

height_is_utf8 : is_utf8 (codes "600") ≡ true
unfolding is_utf8 codes
height_is_utf8 = refl

receive_msg-Carries_example :
    receive_msg debug chunks
    ≡ (ok (codes "600"), record chunks { incoming = []; outgoing = (ack ++ newline ∷ []) ∷ [] })
receive_msg-Carries_example = receive_msg-Carries debug chunks height_arrives height_is_utf8 refl

abbrev acknowledged : Stream
acknowledged = record {
  incoming = bytes (ack ++ newline ∷ []) ∷ [];
  outgoing = [];
  write_error = none;
}

ack_arrives : Carries ack acknowledged.incoming []
unfolding codes
ack_arrives = ends {line = ack} [] (ground arith)

send_msg-Carries_example :
    send_msg debug (codes "600") acknowledged
    ≡ (ok tt, record acknowledged { incoming = []; outgoing = (codes "600" ++ newline ∷ []) ∷ [] })
send_msg-Carries_example = send_msg-Carries debug (codes "600") acknowledged ack_arrives refl

abbrev in_one_chunk : Stream
in_one_chunk = record {
  incoming = bytes (ack ++ (newline ∷ (codes "600" ++ newline ∷ []))) ∷ [];
  outgoing = [];
  write_error = none;
}

coalesced_lost_example :
    ((send_msg debug (codes "500") >> receive_msg debug) in_one_chunk).0 ≡ at_end debug
coalesced_lost_example = coalesced_lost debug (codes "500") (codes "600") in_one_chunk refl refl
