-- ===== src/Net/Tcp/Loss.antt =====
-- What the readers of src/net/tcp.rs lose: each call makes its own `BufReader` and drops it.
use mw_btc_swap.Prelude.{
  Text, ◌≡◌, none, [], ◌∷◌, ◌++◌, Outcome, ok, panic, Profile, debug, release, codes, arith,
}
use mw_btc_swap.Prelude.Actions.{◌>>◌}
use mw_btc_swap.Net.Tcp.{bytes, Stream, newline, ack, send_msg, receive_msg}
use mw_btc_swap.Net.Tcp.Framing.{Carries, ends, send_msg-Carries}

-- What a read past the end of the stream comes to.
abbrev pub at_end : Profile → Outcome Text
at_end debug = panic
at_end release = ok []

ack_behind :
    (answer : Text) (s : Stream)
    → s.incoming ≡ bytes (ack ++ (newline ∷ (answer ++ newline ∷ []))) ∷ []
    → Carries ack s.incoming []
unfolding codes
ack_behind answer s e = rw e (ends (answer ++ newline ∷ []) (ground arith))

-- Where the acknowledgement and the peer's next message arrive in one chunk and nothing after it,
-- and the stream can be written to, the message is lost, whatever it is: receive_msg after
-- send_msg panics in a debug build and returns the empty text in a release build.
pub coalesced_lost :
    (p : Profile) (msg answer : Text) (s : Stream)
    → s.incoming ≡ bytes (ack ++ (newline ∷ (answer ++ newline ∷ []))) ∷ []
    → s.write_error ≡ none
    → ((send_msg p msg >> receive_msg p) s).0 ≡ at_end p
unfolding receive_msg codes
coalesced_lost debug msg answer s e w =
    ground (arith, send_msg-Carries debug msg s (ack_behind answer s e) w)
coalesced_lost release msg answer s e w =
    ground (arith, send_msg-Carries release msg s (ack_behind answer s e) w)
