-- ===== src/Commands/Listen/Strangers.antt =====
-- Clients that do not know the public slate (src/commands/cmd_types/listen.rs).
use mw_btc_swap.Prelude.{◌≡◌, ◌∙◌, ap, sym, Text, codes, eq_ignore_ascii_case, false, List, ◌∷◌, ok}
use mw_btc_swap.Prelude.Actions.{otherwise, >>=-step}
use mw_btc_swap.Net.Tcp.{Stream}
use mw_btc_swap.Bitcoin.Crate.{BitcoinLib}
use mw_btc_swap.Grin.Ops.{GrinOps}
use mw_btc_swap.Swap.World.{Clients, World}
use mw_btc_swap.Swap.Calls.{send, receive}
use mw_btc_swap.Commands.Listen.{serve_client, serve}

module _ {lib : BitcoinLib} {ops : GrinOps lib} (cl : Clients) (checksum : Text) where
  pub serve-wrong_client :
      (w w1 w2 : World lib ops) (client : Stream) (clients : List Stream) {msg : Text}
      → receive cl (record w { stream = client }) ≡ (ok msg, w1)
      → eq_ignore_ascii_case msg checksum ≡ false
      → send cl (codes "FAULT") w1 ≡ (ok tt, w2)
      → (serve cl checksum (client ∷ clients) w ≡ serve cl checksum clients w2)
        × (w2.slate ≡ w.slate)
        × (w2.wire ≡ w.wire)
        × (w2.entropy ≡ w.entropy)
  unfolding serve serve_client
  serve-wrong_client w w1 w2 client clients {msg} heard wrong told =
      let start = record w { stream = client } in
      let served : serve_client cl checksum start ≡ (ok false, w2) =
        >>=-step (receive cl) _ {s = start} heard
        ∙ otherwise (eq_ignore_ascii_case msg checksum) _ _ {now = w1} wrong
        ∙ >>=-step (send cl (codes "FAULT")) _ {s = w1} told in
      (
        >>=-step (serve_client cl checksum) _ {s = start} served,
        sym (ap (λ r. r.1.slate) heard ∙ ap (λ r. r.1.slate) told),
        sym (ap (λ r. r.1.wire) heard ∙ ap (λ r. r.1.wire) told),
        sym (ap (λ r. r.1.entropy) heard ∙ ap (λ r. r.1.entropy) told),
      )
