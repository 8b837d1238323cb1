-- ===== src/Grin/Protocols/Messages.antt =====
-- What a party of src/grin/grin_tx.rs has taken from the stream when a call has returned.
use mw_btc_swap.Prelude.{Text, ◌≡◌, ◌∙◌, sym, ap, true, none, some, Option, List, ok, Profile}
use mw_btc_swap.Prelude.Results.{ok_injective, some_injective}
use mw_btc_swap.Prelude.Actions.{Action, >>=-ok, need->>=-ok}
use mw_btc_swap.Net.Tcp.{Arrival, Stream, ack}
use mw_btc_swap.Net.Tcp.Utf8.{is_utf8}
use mw_btc_swap.Net.Tcp.Framing.{Carries}
use mw_btc_swap.Net.Tcp.Heard.{send_msg-heard, receive_msg-heard}
use mw_btc_swap.Bitcoin.Crate.{BitcoinLib}
use mw_btc_swap.Grin.Crate.{GrinTypes, GrinCrate, Slate}
use mw_btc_swap.Grin.Routines.{GrinCore}
use mw_btc_swap.Grin.Protocols.{on_core, on_line, must, send_slate, receive_text, receive_slate}

-- A step on the keys leaves the stream.
pub on_core-stream :
    {t : GrinTypes} {A : Type 0} (m : Action (GrinCore t) A) (s : GrinCore t × Stream)
    {s' : GrinCore t × Stream} {a : A}
    → on_core m s ≡ (ok a, s')
    → s'.1 ≡ s.1
unfolding on_core
on_core-stream m s run = ap (λ x. x.1.1) (sym run)

after_must :
    {t : GrinTypes} {A : Type 0} (o : Option A) {s s' : GrinCore t × Stream} {a : A}
    → must o s ≡ (ok a, s')
    → (o ≡ some a) × (s' ≡ s)
after_must (some b) run = (ap some (ok_injective (ap (λ x. x.0) run)), ap (λ x. x.1) (sym run))
after_must none run = cc

module _ {lib : BitcoinLib} {t : GrinTypes} (g : GrinCrate lib t) (p : Profile)
    (s : GrinCore t × Stream) {rest : List Arrival} {s' : GrinCore t × Stream} where
  pub send_slate-heard :
      (slate : Slate t)
      → Carries ack (s.1.incoming) rest
      → send_slate g p slate s ≡ (ok tt, s')
      → s'.1.incoming ≡ rest
  unfolding send_slate on_line
  send_slate-heard slate c run =
      let (text, e1, run1) = need->>=-ok (g.slate_to_text slate) _ {s = s} run in
      send_msg-heard p s.1 text {s' = s'.1} c (ap (λ x. (x.0, x.1.1)) run1)

  pub receive_slate-heard :
      {line : Text} {slate known : Slate t}
      → Carries line (s.1.incoming) rest
      → is_utf8 line ≡ true
      → g.deserialize_upgrade line ≡ some known
      → receive_slate g p s ≡ (ok slate, s')
      → (slate ≡ known) × (s'.1.incoming ≡ rest)
  unfolding receive_slate receive_text on_line
  receive_slate-heard c valid reads run =
      let (text, s1, e1, run1) = >>=-ok (receive_text g p) _ {s = s} run in
      let (same, left) = receive_msg-heard p s.1 {s' = s1.1} c valid (ap (λ x. (x.0, x.1.1)) e1) in
      let (is_slate, still) = after_must (g.deserialize_upgrade text) run1 in
      (
        some_injective (sym is_slate ∙ ap g.deserialize_upgrade same ∙ reads),
        ap (λ x. x.1.incoming) still ∙ left,
      )
