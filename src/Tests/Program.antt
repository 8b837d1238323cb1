-- ===== src/Tests/Program.antt =====
-- src/main.rs: a new swap that is written, and a setup that fails when the peer is lost.
use mw_btc_swap.Prelude.{
  ℕ, ◌≡◌, refl, codes, text_eq, eq_ignore_ascii_case, to_string, true, false, none, some, [], ◌∷◌,
  ok, debug, parse_u64,
}
use mw_btc_swap.Enums.{btc, grin, initialized}
use mw_btc_swap.Net.Tcp.{ack, send_msg, receive_msg}
use mw_btc_swap.Bitcoin.Routines.{create_private_key}
use mw_btc_swap.Swap.Slate.{SlateJson, Disk, fresh_priv, read_slate_from_disk, get_slate_checksum}
use mw_btc_swap.Swap.Locking.{locking_phase_swap_btc, exchange_keys_btc}
use mw_btc_swap.Commands.Init.{new, execute}
use mw_btc_swap.Commands.Parser.{parse_init}
use mw_btc_swap.Commands.Connect.{lock}
use mw_btc_swap.Commands.Arguments.{
  ArgMatches, arguments, subcommand, new_init, new_lock, new_cancel, parse_arguments,
}
use mw_btc_swap.Commands.Program.{Libraries, Machine, with_peer, run_command, run_arguments}
use mw_btc_swap.Commands.Program.Unrecorded.{Fails, lock_failed-no_refund}
use mw_btc_swap.Commands.Program.Recorded.{run_arguments-recorded}
use mw_btc_swap.Tests.Crate.{toy}
use mw_btc_swap.Tests.Clients.{btc_json, grin_json}
use mw_btc_swap.Tests.World.{ops, slate, line}
use mw_btc_swap.Tests.Commands.{settings, json, value_of, new_slate, empty_disk}

abbrev libraries : SlateJson ℕ → Libraries ops
libraries slate_json = record {
  profile = debug;
  btc_json = btc_json;
  grin_json = grin_json;
  slate_json = slate_json;
  settings_json = λ t. some settings;
  sha256 = λ t. t;
  to_uppercase = λ t. t;
}

abbrev machine : Disk → Machine toy ops
machine disk = record {
  disk = disk;
  peers = λ address.
      some (record {
        incoming = line ack ∷ line (codes "OK") ∷ [];
        outgoing = [];
        write_error = none;
      });
  callers = [];
  wire = record { replies = []; sent = [] };
  grin_tx = 0;
  entropy = 1 ∷ 5 ∷ [];
  slept = 0;
  fresh_id = 7;
}

-- `init`
abbrev init_json : SlateJson ℕ
init_json = record json {
  pub_from_text = λ t. some new_slate.pub_slate;
  prv_from_text = λ t. some (fresh_priv json);
}

abbrev init_matches : ArgMatches
init_matches = subcommand (λ name. none) (codes "init") (arguments value_of)

init_parsed : parse_arguments (λ t. t) init_matches ≡ ok (new_init (new btc grin 5 5 5))
unfolding parse_arguments parse_init codes text_eq parse_u64
init_parsed = refl

init_runs :
    run_command (libraries init_json) settings (new_init (new btc grin 5 5 5)) (machine empty_disk)
    ≡ (ok (some new_slate), machine empty_disk)
unfolding run_command execute new
init_runs = refl

run_arguments-recorded_example :
    (d : Disk) × (run_arguments (libraries init_json) settings init_matches (machine empty_disk)
      ≡ (ok true, machine d))
    × (read_slate_from_disk init_json 7 (codes "slates") d ≡ ok new_slate)
    × (get_slate_checksum init_json (λ t. t) 7 (codes "slates") d ≡ ok (codes "pub"))
run_arguments-recorded_example =
    run_arguments-recorded (libraries init_json) settings init_matches (machine empty_disk)
      (machine empty_disk) init_parsed init_runs refl refl refl refl

-- `lock` over a slate that no phase has touched.
abbrev lock_json : SlateJson ℕ
lock_json =
    let p = slate.pub_slate in
    record json { pub_from_text = λ t. some (record p { status = initialized }) }

abbrev full_disk : Disk
full_disk = record { files = λ p. some (codes "{}"); refused = λ p. false }

abbrev lock_matches : ArgMatches
lock_matches = subcommand (λ name. none) (codes "lock") (arguments (λ name. some (codes "1")))

lock_parsed : parse_arguments (λ t. t) lock_matches ≡ ok (new_lock 1)
unfolding parse_arguments codes text_eq parse_u64
lock_parsed = refl

initialized_read : read_slate_from_disk lock_json 1 (codes "slates") full_disk ≡ (
    let p = slate.pub_slate in ok (record slate { pub_slate = record p { status = initialized } }))
unfolding read_slate_from_disk
initialized_read = refl

lock-Fails : Fails ((run_command (libraries lock_json) settings (new_lock 1) (machine full_disk)).0)
unfolding run_command with_peer lock locking_phase_swap_btc exchange_keys_btc codes text_eq
    to_string send_msg receive_msg eq_ignore_ascii_case read_slate_from_disk get_slate_checksum
    create_private_key
lock-Fails = tt

abbrev later : Machine toy ops
later = (run_arguments (libraries lock_json) settings lock_matches (machine full_disk)).1

lock_failed-no_refund_example :
    Fails ((run_command (libraries lock_json) settings (new_cancel 1) later).0)
    × ((run_command (libraries lock_json) settings (new_cancel 1) later).1.wire ≡ later.wire)
lock_failed-no_refund_example =
    lock_failed-no_refund (libraries lock_json) settings lock_matches 1 (machine full_disk) later
      lock_parsed initialized_read refl lock-Fails refl
