-- ===== src/Net/Tcp.antt =====
-- src/net/tcp.rs: messages as lines over a TCP stream, each answered by an ACK line.
pub mod Utf8
pub mod Framing
pub mod Loss
pub mod Heard
use Utf8.{is_utf8}
use mw_btc_swap.Prelude.{
  ℕ, Bool, Text, codes, text_eq, ◌&&◌, Option, none, some, List, [], ◌∷◌, ◌++◌, Outcome, ok, err,
  panic, unwrap, Profile, debug, release, leb, ltb, ◌==◌, if◌then◌else◌,
}
use mw_btc_swap.Prelude.Actions.{Action, pure, lift, after, ◌>>=◌, ◌>>◌}

abbrev pub newline : ℕ
newline = 10

-- What one `read` of the socket returns: the bytes that have arrived, or an error.
pub data Arrival : Type 0 where
  bytes : Text → Arrival
  broken : Text → Arrival

-- The stream as this party sees it: what will arrive (then the end of the file), the lines that it
-- has written, oldest first, and the error of the next write if there is one.
pub record Stream : Type 0 where
  pub incoming : List Arrival
  pub outgoing : List Text
  pub write_error : Option Text

-- The bytes up to the first newline and with it.
unfoldable pub until_newline : Text → Option Text
until_newline [] = none
until_newline (c ∷ s) =
    if c == newline
    then some (newline ∷ [])
    else elim (until_newline s) [ none ↦ none | some l ↦ some (c ∷ l) ]

-- `BufReader::read_line` with a reader made for this call: what has arrived behind the newline is
-- in the reader's buffer, and is dropped with the reader.
unfoldable pub read_line : Text → List Arrival → Outcome Text × List Arrival
unfolding until_newline
read_line msg [] = (ok msg, [])
read_line msg (broken e ∷ rest) = (err e, rest)
read_line msg (bytes b ∷ rest) = elim (until_newline b) [
  | none ↦ read_line (msg ++ b) rest
  | some l ↦ (ok (msg ++ l), rest)
]

unfoldable pub checked_utf8 : Text → Outcome Text
unfolding is_utf8
checked_utf8 s = if is_utf8 s then ok s else err (codes "stream did not contain valid UTF-8")

-- A continuation byte: `String::truncate` panics in front of one.
abbrev pub is_continuation : ℕ → Bool
is_continuation c = leb 128 c && ltb c 192

-- `msg.truncate(len - 1)` with `len` the length of `msg`. In a release build `0 - 1` wraps, and
-- `truncate` then changes nothing.
unfoldable pub truncate_last : Profile → Text → Outcome Text
truncate_last debug [] = panic
truncate_last release [] = ok []
truncate_last p (c ∷ []) = if is_continuation c then panic else ok []
truncate_last p (c ∷ d ∷ s) = elim (truncate_last p (d ∷ s)) [
  | ok l ↦ ok (c ∷ l)
  | err e ↦ err e
  | panic ↦ panic
]

unfoldable pub read_from_stream : Profile → Action Stream Text
unfolding read_line checked_utf8 truncate_last
read_from_stream p s =
    let (r, rest) = read_line [] s.incoming in
    (do line ← lift r; msg ← lift (checked_utf8 line); lift (truncate_last p msg))
      (record s { incoming = rest })

unfoldable pub write_to_stream : Text → Action Stream Unit
write_to_stream msg s = elim s.write_error [
  | none ↦ (ok tt, record s { outgoing = s.outgoing ++ (msg ++ newline ∷ []) ∷ [] })
  | some e ↦ (err e, s)
]

abbrev pub ack : Text
ack = codes "ACK"

-- `assert_eq!(r, "ACK")`
abbrev pub assert_ack : Text → Outcome (Unit {0})
assert_ack r = if text_eq r ack then ok tt else panic

unfoldable pub send_msg : Profile → Text → Action Stream Unit
unfolding write_to_stream read_from_stream
send_msg p msg = do
  after unwrap (write_to_stream msg)
  r ← after unwrap (read_from_stream p)
  lift (assert_ack r)

unfoldable pub receive_msg : Profile → Action Stream Text
unfolding write_to_stream read_from_stream
receive_msg p = do
  msg ← after unwrap (read_from_stream p)
  after unwrap (write_to_stream ack)
  pure msg
