-- ===== src/Commands/Connect/Handshake.antt =====
-- How the commands that connect end when the peer does not answer as they want.
use mw_btc_swap.Prelude.{
  ◌≡◌, ◌∙◌, ap, sym, Bool, if◌then◌else◌, Text, codes, text_eq, eq_ignore_ascii_case, false, not,
  [], ok, err, panic, Profile, debug, release, arith,
}
use mw_btc_swap.Prelude.Actions.{>>=-step, ◌>>=◌, continue, Action, fail}
use mw_btc_swap.Net.Tcp.{Stream, send_msg, read_from_stream, truncate_last, checked_utf8}
use mw_btc_swap.Net.Tcp.Utf8.{is_utf8}
use mw_btc_swap.Bitcoin.Crate.{BitcoinLib}
use mw_btc_swap.Grin.Ops.{GrinOps}
use mw_btc_swap.Swap.World.{Clients, World}
use mw_btc_swap.Swap.Calls.{send, receive}
use mw_btc_swap.Commands.Connect.{lock, execute, cancel}

-- A peer that closes the connection without a word.
unanswered :
    (p : Profile) (msg : Text) (s : Stream) → s.incoming ≡ [] → (send_msg p msg s).0 ≡ panic
unfolding send_msg read_from_stream checked_utf8 is_utf8 truncate_last codes text_eq
unanswered debug msg s closed = ground arith
unanswered release msg s closed = ground arith

abbrev pub differs : Text
differs = codes "Checksums didn't match"

turned_away {ℓ} :
    {S A : Type ℓ} (ok_said : Bool) (message : Text) (go_on : Action S A) (now : S)
    → ok_said ≡ false
    → (if not ok_said then fail message else go_on) now ≡ (err message, now)
turned_away ok_said message go_on now other =
    ap (λ b. (if not b then fail message else go_on) now) other

panics_first {ℓ} :
    {S A B : Type ℓ} (first : Action S A) (next : A → Action S B) {s : S}
    → (first s).0 ≡ panic
    → ((first >>= next) s).0 ≡ panic
panics_first first next {s} stopped = ap (λ r. (continue r next (first s).1).0) stopped

module _ {lib : BitcoinLib} {ops : GrinOps lib} (cl : Clients) (checksum : Text) where
  -- Where the peer takes the checksum and answers anything but OK, in capitals or not, the three
  -- commands lock, execute and cancel end in an error that says so, and no phase is begun: the
  -- slate is as it was.
  pub refused_checksum :
      (w w1 w2 : World lib ops) {resp : Text}
      → send cl checksum w ≡ (ok tt, w1)
      → receive cl w1 ≡ (ok resp, w2)
      → eq_ignore_ascii_case resp (codes "OK") ≡ false
      → (lock cl checksum w ≡ (err (codes "Checksums didn't match!"), w2))
        × (execute cl checksum w ≡ (err differs, w2))
        × (cancel cl checksum w ≡ (err differs, w2))
        × (w2.slate ≡ w.slate)
  unfolding lock execute cancel
  refused_checksum w w1 w2 {resp} sent answered wrong = (
    >>=-step (send cl checksum) _ {s = w} sent
        ∙ >>=-step (receive cl) _ {s = w1} answered
        ∙ turned_away (eq_ignore_ascii_case resp (codes "OK")) (codes "Checksums didn't match!") _
            w2 wrong,
    >>=-step (send cl checksum) _ {s = w} sent
        ∙ >>=-step (receive cl) _ {s = w1} answered
        ∙ turned_away (eq_ignore_ascii_case resp (codes "OK")) differs _ w2 wrong,
    >>=-step (send cl checksum) _ {s = w} sent
        ∙ >>=-step (receive cl) _ {s = w1} answered
        ∙ turned_away (eq_ignore_ascii_case resp (codes "OK")) differs _ w2 wrong,
    sym (ap (λ r. r.1.slate) sent ∙ ap (λ r. r.1.slate) answered),
  )

  -- Where the peer closes the connection without an answer, cancel panics, whatever the nodes
  -- would answer.
  pub cancel_needs_peer :
      (w : World lib ops) → w.stream.incoming ≡ [] → (cancel cl checksum w).0 ≡ panic
  unfolding cancel
  cancel_needs_peer w closed =
      panics_first (send cl checksum) _ {s = w} (unanswered cl.profile checksum w.stream closed)
