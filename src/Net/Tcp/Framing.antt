-- ===== src/Net/Tcp/Framing.antt =====
-- How a line comes through the chunks in which it arrives (src/net/tcp.rs).
use mathlib.Core.List.{append_assoc}
use mw_btc_swap.Prelude.{
  Text, ◌≡◌, ◌≢◌, refl, true, none, some, List, [], ◌∷◌, ◌++◌, ok, Profile, debug, release, arith,
  text_eq_refl, codes,
}
use mw_btc_swap.Net.Tcp.{
  Arrival, bytes, Stream, newline, until_newline, read_line, checked_utf8, truncate_last,
  read_from_stream, ack, send_msg, receive_msg,
}
use mw_btc_swap.Net.Tcp.Utf8.{is_utf8, is_utf8-newline}

abbrev pub IsLine : Text → Type 0
IsLine [] = Unit
IsLine (c ∷ s) = (c ≢ newline) × IsLine s

-- `Carries line incoming rest`: the next line to arrive, in one chunk or in several, and what is
-- left after the chunk in which it ends. `behind` is what this chunk holds after the newline.
pub data Carries : Text → List Arrival → List Arrival → Type 0 where
  ends :
      {line : Text} {rest : List Arrival} (behind : Text)
      → IsLine line
      → Carries line (bytes (line ++ newline ∷ behind) ∷ rest) rest
  begins :
      {line tail : Text} {incoming rest : List Arrival} (front : Text)
      → IsLine front
      → line ≡ front ++ tail
      → Carries tail incoming rest
      → Carries line (bytes front ∷ incoming) rest

-- The next lines to arrive are these messages, each in chunks of its own.
abbrev pub Hears : List Text → List Arrival → Type 0
Hears [] incoming = Unit
Hears (msg ∷ msgs) incoming = (rest : List Arrival) × Carries msg incoming rest × Hears msgs rest

-- What is written for a message.
abbrev pub as_line : Text → Text
as_line msg = msg ++ newline ∷ []

until_newline-line :
    (l t : Text) → IsLine l → until_newline (l ++ newline ∷ t) ≡ some (l ++ newline ∷ [])
unfolding until_newline
until_newline-line [] t h = refl
until_newline-line (c ∷ l) t h = ground (arith, until_newline-line l t h.1)

until_newline-none : (l : Text) → IsLine l → until_newline l ≡ none
unfolding until_newline
until_newline-none [] h = refl
until_newline-none (c ∷ l) h = ground (arith, until_newline-none l h.1)

read_line-Carries :
    {line : Text} {incoming rest : List Arrival} (msg : Text)
    → Carries line incoming rest
    → read_line msg incoming ≡ (ok (msg ++ line ++ newline ∷ []), rest)
unfolding read_line
read_line-Carries msg (ends {line = l} behind h) =
    ground (arith, until_newline-line l behind h, append_assoc msg l (newline ∷ []))
read_line-Carries msg (begins {line = l} {tail = t} front h e c) =
    cc (until_newline-none front h, read_line-Carries (msg ++ front) c, e, append_assoc msg front t)

truncate_last-newline : (p : Profile) (l : Text) → truncate_last p (l ++ newline ∷ []) ≡ ok l
unfolding truncate_last
truncate_last-newline debug [] = refl
truncate_last-newline release [] = refl
truncate_last-newline p (c ∷ []) = refl
truncate_last-newline p (c ∷ d ∷ l) = rw (truncate_last-newline p (d ∷ l))

checked_utf8-newline :
    (l : Text) → is_utf8 l ≡ true → checked_utf8 (l ++ newline ∷ []) ≡ ok (l ++ newline ∷ [])
unfolding checked_utf8
checked_utf8-newline l h = rw (is_utf8-newline l h)

module _ (p : Profile) {line : Text} (s : Stream) {rest : List Arrival}
    (c : Carries line s.incoming rest) (valid : is_utf8 line ≡ true) where
  pub read_from_stream-Carries : read_from_stream p s ≡ (ok line, record s { incoming = rest })
  unfolding read_from_stream
  read_from_stream-Carries =
      rw (read_line-Carries [] c)
        (rw (checked_utf8-newline line valid, truncate_last-newline p line))

  module _ (writable : s.write_error ≡ none) where
    -- A line of valid UTF-8 that arrives whole, in whatever chunks, is the message that
    -- receive_msg returns, and the acknowledgement has been written, where the stream can be
    -- written to.
    pub receive_msg-Carries : receive_msg p s ≡ (
      ok line,
      record s { incoming = rest; outgoing = s.outgoing ++ (ack ++ newline ∷ []) ∷ [] },
    )
    unfolding receive_msg
    receive_msg-Carries = rw read_from_stream-Carries (ground arith)

ack-is_utf8 : is_utf8 ack ≡ true
unfolding is_utf8 codes
ack-is_utf8 = refl

-- A message is sent, in one line, if the stream can be written to and an acknowledgement arrives;
-- what is in the chunk behind the acknowledgement is gone.
pub send_msg-Carries :
    (p : Profile) (msg : Text) (s : Stream) {rest : List Arrival}
    → Carries ack s.incoming rest
    → s.write_error ≡ none
    → send_msg p msg s
      ≡ (ok tt, record s { incoming = rest; outgoing = s.outgoing ++ (msg ++ newline ∷ []) ∷ [] })
unfolding send_msg
send_msg-Carries p msg s {rest} c writable =
    let written = record s { outgoing = s.outgoing ++ (msg ++ newline ∷ []) ∷ [] } in
    ground (arith, read_from_stream-Carries p written c ack-is_utf8, text_eq_refl ack)
