-- ===== src/Tests/Commands.antt =====
-- src/commands and src/swap/slate.rs: a new swap, its files, and a peer that does not agree.
use mw_btc_swap.Prelude.{
  ℕ, ◌≡◌, arith, refl, Text, codes, text_eq, eq_ignore_ascii_case, to_string, true, false, Option,
  none, some, [], ◌∷◌, ok, err, panic, if◌then◌else◌, parse_u64,
}
use mw_btc_swap.Enums.{btc, grin, initialized, offered, requested}
use mw_btc_swap.Settings.{Settings}
use mw_btc_swap.Net.Tcp.{Stream, ack}
use mw_btc_swap.Swap.Types.{SwapSlate}
use mw_btc_swap.Swap.World.{World}
use mw_btc_swap.Swap.Calls.{send, receive}
use mw_btc_swap.Swap.Slate.{
  SlateJson, fresh_priv, Disk, write_slate_to_disk, read_slate_from_disk, get_slate_checksum,
  get_slate_path, create_priv_from_pub,
}
use mw_btc_swap.Swap.Slate.Accept.{accepted_slate, create_priv_from_pub-accepts}
use mw_btc_swap.Swap.Slate.Files.{read_slate-write_slate}
use mw_btc_swap.Commands.Init.{new, execute}
use mw_btc_swap.Commands.Init.Terms.{Terms, execute-Terms}
use mw_btc_swap.Commands.Parser.{parse_init}
use mw_btc_swap.Commands.Connect.{lock, execute as execute_phase, cancel}
use mw_btc_swap.Commands.Connect.Handshake.{differs, cancel_needs_peer}
use mw_btc_swap.Commands.Connect.Disagreement.{
  connector_says, listener_says, OnlySaid, checksums_differ,
}
use mw_btc_swap.Net.Tcp.Utf8.{is_utf8}
use mw_btc_swap.Net.Tcp.Framing.{Hears, ends}
use mw_btc_swap.Commands.Listen.{serve}
use mw_btc_swap.Tests.Crate.{toy}
use mw_btc_swap.Tests.Clients.{clients}
use mw_btc_swap.Tests.World.{ops, slate, line, reply, world}

-- `init --from-currency BTC --to-currency GRIN --from-amount 5 --to-amount 5 --timeout 5`
abbrev pub value_of : Text → Option Text
value_of name =
    if text_eq name (codes "from-currency")
    then some (codes "BTC")
    else if text_eq name (codes "to-currency")
    then some (codes "GRIN")
    else some (codes "5")

abbrev pub settings : Settings
settings = record {
  btc = record { url = []; user = []; pass = []; port = 0; id = [] };
  grin = record { url = []; user = []; pass = []; port = 0; id = [] };
  tcp_addr = codes "127.0.0.1";
  tcp_port = codes "80";
  slate_directory = codes "slates";
}

parses : parse_init (λ t. t) value_of ≡ ok (new btc grin 5 5 5)
unfolding parse_init codes text_eq parse_u64
parses = refl

-- Of a slate that is written and read.
abbrev pub json : SlateJson ℕ
json = record {
  pub_to_text = λ p. codes "pub";
  prv_to_text = λ p. codes "prv";
  pub_from_text = λ t. some slate.pub_slate;
  prv_from_text = λ t. some slate.prv_slate;
}

abbrev fresh_json : SlateJson ℕ
fresh_json = record json { prv_from_text = λ t. some (fresh_priv json) }

abbrev pub new_slate : SwapSlate ℕ
new_slate = record {
  id = 7;
  pub_slate = record {
    status = initialized;
    mw = record { amount = 5; timelock = 5; lock_time = none; swap_type = requested };
    btc = record {
      amount = 5;
      timelock = 0;
      swap_type = offered;
      lock_time = none;
      pub_a = none;
      pub_b = none;
      pub_x = none;
    };
    meta = record { server = codes "127.0.0.1"; port = codes "80" };
  };
  prv_slate = fresh_priv json;
}

makes : execute (new btc grin 5 5 5) settings 7 ≡ ok new_slate
unfolding execute new
makes = refl

execute-Terms_example : Terms new_slate
execute-Terms_example = execute-Terms settings 7 (λ t. t) value_of parses makes

abbrev pub empty_disk : Disk
empty_disk = record { files = λ p. none; refused = λ p. false }

read_slate-write_slate_example :
    (d' : Disk) × (write_slate_to_disk json slate (codes "slates") true true empty_disk
      ≡ (ok tt, d'))
    × (read_slate_from_disk json 1 (codes "slates") d' ≡ ok slate)
    × (get_slate_checksum json (λ t. t) 1 (codes "slates") d' ≡ ok (codes "pub"))
read_slate-write_slate_example =
    read_slate-write_slate json slate (codes "slates") empty_disk refl refl refl refl (λ t. t)

-- The directory of a party that was given the public slate.
abbrev given_disk : Disk
given_disk = record {
  files =
      λ p. if text_eq p (get_slate_path 1 (codes "slates") true) then some (codes "pub") else none;
  refused = λ p. false;
}

is_given : given_disk.files (get_slate_path 1 (codes "slates") true) ≡ some (codes "pub")
unfolding get_slate_path codes text_eq to_string
is_given = refl

create_priv_from_pub-accepts_example :
    (d' : Disk) × (create_priv_from_pub fresh_json 1 (codes "slates") given_disk
      ≡ (ok (accepted_slate fresh_json 1 slate.pub_slate), d'))
    × (d'.files (get_slate_path 1 (codes "slates") true) ≡ some (codes "pub"))
    × (read_slate_from_disk fresh_json 1 (codes "slates") d'
        ≡ ok (accepted_slate fresh_json 1 slate.pub_slate))
create_priv_from_pub-accepts_example =
    create_priv_from_pub-accepts fresh_json 1 (codes "slates") given_disk (codes "pub")
      slate.pub_slate refl is_given refl refl

-- A peer that is gone.
abbrev alone : World toy ops
alone = world [] (reply (codes "601") ∷ reply (codes "701") ∷ reply [] ∷ [])

-- A party with the checksum c0de connects to one with the checksum beef.
abbrev disagreeing : World toy ops
disagreeing = world (line ack ∷ line (codes "FAULT") ∷ []) []

abbrev connection : Stream
connection = record {
  incoming = line (codes "c0de") ∷ line ack ∷ [];
  outgoing = [];
  write_error = none;
}

connector-Hears : Hears listener_says disagreeing.stream.incoming
unfolding codes
connector-Hears = (
  line (codes "FAULT") ∷ [],
  ends {line = ack} [] (ground arith),
  ([], ends {line = codes "FAULT"} [] (ground arith), tt),
)

listener-Hears : Hears (connector_says (codes "c0de")) connection.incoming
unfolding codes
listener-Hears = (
  line ack ∷ [],
  ends {line = codes "c0de"} [] (ground arith),
  ([], ends {line = ack} [] (ground arith), tt),
)

checksum-is_utf8 : is_utf8 (codes "c0de") ≡ true
unfolding is_utf8 codes
checksum-is_utf8 = refl

checksums_are_other : eq_ignore_ascii_case (codes "c0de") (codes "beef") ≡ false
unfolding eq_ignore_ascii_case codes
checksums_are_other = refl

checksums_differ_example :
    (a' : World toy ops) × (b' : World toy ops) × (lock clients (codes "c0de") disagreeing
      ≡ (err (codes "Checksums didn't match!"), a'))
    × (execute_phase clients (codes "c0de") disagreeing ≡ (err differs, a'))
    × (cancel clients (codes "c0de") disagreeing ≡ (err differs, a'))
    × (serve clients (codes "beef") (connection ∷ []) alone ≡ serve clients (codes "beef") [] b')
    × OnlySaid (connector_says (codes "c0de")) disagreeing.stream disagreeing a'
    × OnlySaid listener_says connection alone b'
checksums_differ_example =
    checksums_differ clients clients (codes "c0de") (codes "beef") disagreeing alone connection []
      connector-Hears listener-Hears refl refl checksum-is_utf8 checksums_are_other

cancel_needs_peer_example : (cancel clients (codes "c0de") alone).0 ≡ panic
cancel_needs_peer_example = cancel_needs_peer clients (codes "c0de") alone refl

-- The same stranger connects to the party that listens, and nobody after it.
abbrev stranger : Stream
stranger = record {
  incoming = line (codes "bad") ∷ line ack ∷ [];
  outgoing = [];
  write_error = none;
}

abbrev stranger_heard : World toy ops
stranger_heard = (receive clients (record alone { stream = stranger })).1

abbrev stranger_told : World toy ops
stranger_told = (send clients (codes "FAULT") stranger_heard).1
