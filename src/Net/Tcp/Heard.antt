-- ===== src/Net/Tcp/Heard.antt =====
-- What is known after a call of src/net/tcp.rs that returned: what it took from the stream.
use mw_btc_swap.Prelude.{
  Text, ◌≡◌, ◌∙◌, sym, ap, true, List, ok, Profile, Option-cases, inl, inr, arith,
}
use mw_btc_swap.Prelude.Results.{ok_injective}
use mw_btc_swap.Net.Tcp.{Arrival, Stream, ack, send_msg, receive_msg}
use mw_btc_swap.Net.Tcp.Utf8.{is_utf8}
use mw_btc_swap.Net.Tcp.Framing.{
  Carries, send_msg-Carries, receive_msg-Carries, read_from_stream-Carries,
}

module _ (p : Profile) (s : Stream) {rest : List Arrival} where
  pub send_msg-heard :
      (msg : Text) {s' : Stream}
      → Carries ack s.incoming rest
      → send_msg p msg s ≡ (ok tt, s')
      → s'.incoming ≡ rest
  unfolding send_msg
  send_msg-heard msg c run = elim (Option-cases s.write_error) [
    | inl writable ↦ ap (λ x. x.1.incoming) (sym run ∙ send_msg-Carries p msg s c writable)
    | inr (e, broken) ↦ ground arith
  ]

  pub receive_msg-heard :
      {line msg : Text} {s' : Stream}
      → Carries line s.incoming rest
      → is_utf8 line ≡ true
      → receive_msg p s ≡ (ok msg, s')
      → (msg ≡ line) × (s'.incoming ≡ rest)
  unfolding receive_msg
  receive_msg-heard {line} {msg} {s'} c valid run = elim (Option-cases s.write_error) [
    | inl writable ↦
        let same = sym run ∙ receive_msg-Carries p s c valid writable in
        (ok_injective (ap (λ x. x.0) same), ap (λ x. x.1.incoming) same)
    | inr (e, broken) ↦ ground (arith, read_from_stream-Carries p s c valid)
  ]
