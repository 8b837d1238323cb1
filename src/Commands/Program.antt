-- ===== src/Commands/Program.antt =====
-- src/main.rs, with what the `execute` methods in src/commands/cmd_types do around the phases: the
-- slate is read from the disk, the peer is connected, and what the command returns is written.
pub mod Unrecorded
pub mod Recorded
use mw_btc_swap.Prelude.{
  ℕ, Text, codes, ◌++◌, Bool, true, false, Option, none, some, List, [], Outcome, ok, unwrap,
  unwrap_option, Profile, leb, if◌then◌else◌,
}
use mw_btc_swap.Prelude.Results.{◌>>=◌ as ◌>>=ₒ◌}
use mw_btc_swap.Prelude.Actions.{Action, pure, gets, lift, after, ◌>>=◌, ◌>>◌}
use mw_btc_swap.Settings.{Settings}
use mw_btc_swap.Net.Tcp.{Stream}
use mw_btc_swap.Net.Http.{Wire}
use mw_btc_swap.Bitcoin.Crate.{BitcoinLib}
use mw_btc_swap.Bitcoin.Responses.{BtcJson}
use mw_btc_swap.Grin.Types.{GrinJson}
use mw_btc_swap.Grin.Ops.{GrinOps}
use mw_btc_swap.Swap.Types.{SwapSlate}
use mw_btc_swap.Swap.World.{Clients, World, Step}
use mw_btc_swap.Swap.Slate.{
  SlateJson, Disk, read_slate_from_disk, get_slate_checksum, write_slate_to_disk,
}
use mw_btc_swap.Commands.Init.{execute as execute_init}
use mw_btc_swap.Commands.Import.{accept, import_btc, import_grin}
use mw_btc_swap.Commands.Connect.{lock, execute, cancel}
use mw_btc_swap.Commands.Listen.{listen}
use mw_btc_swap.Commands.Arguments.{
  ArgMatches, Command, new_init, new_import_btc, new_import_grin, new_listen, new_accept, new_lock,
  new_cancel, new_execute, parse_arguments,
}

-- `env::var(name).unwrap_or(setting)`
abbrev or_setting : Option Text → Text → Text
or_setting none setting = setting
or_setting (some value) setting = value

unfoldable pub overwrite_settings_with_env : (Text → Option Text) → Settings → Settings
overwrite_settings_with_env env settings = record settings {
  tcp_addr = or_setting (env (codes "SETTINGS_TCP_ADDR")) settings.tcp_addr;
  tcp_port = or_setting (env (codes "SETTINGS_TCP_PORT")) settings.tcp_port;
  slate_directory = or_setting (env (codes "SETTINGS_SLATE_DIRECTORY")) settings.slate_directory;
}

-- The build, and what the program takes from serde_json, sha2 and the standard library.
pub record Libraries {lib : BitcoinLib} (ops : GrinOps lib) : Type 0 where
  pub profile : Profile
  pub btc_json : BtcJson
  pub grin_json : GrinJson
  pub slate_json : SlateJson ops.Tx
  pub settings_json : Text → Option Settings
  pub sha256 : Text → Text
  pub to_uppercase : Text → Text

-- The disk, the peer at each address and the clients that will connect, the network, a new
-- keychain, the keys and the number that the randomness generator will give.
pub record Machine (lib : BitcoinLib) (ops : GrinOps lib) : Type 0 where
  pub disk : Disk
  pub peers : Text → Option Stream
  pub callers : List Stream
  pub wire : Wire ops.Tx
  pub grin_tx : ops.State
  pub entropy : List lib.SecretKey
  pub slept : ℕ
  pub fresh_id : ℕ

module _ {lib : BitcoinLib} {ops : GrinOps lib} where
  abbrev pub on_disk : {A : Type 0} → Action Disk A → Action (Machine lib ops) A
  on_disk call m = let (r, d) = call m.disk in (r, record m { disk = d })

  abbrev pub world_of : Machine lib ops → SwapSlate ops.Tx → Stream → World lib ops
  world_of m slate stream = record {
    slate = slate;
    stream = stream;
    wire = m.wire;
    grin_tx = m.grin_tx;
    entropy = m.entropy;
    slept = m.slept;
  }

  abbrev after_world : Machine lib ops → World lib ops → Machine lib ops
  after_world m w = record m {
    wire = w.wire;
    grin_tx = w.grin_tx;
    entropy = w.entropy;
    slept = w.slept;
  }

  -- A phase over the slate that was read; it returns the slate that the phase leaves.
  abbrev pub at_world :
      {A B : Type 0}
      → SwapSlate ops.Tx
      → Stream
      → (A → SwapSlate ops.Tx → B)
      → Step lib ops A
      → Action (Machine lib ops) B
  at_world slate stream result phase m =
      let (r, w) = phase (world_of m slate stream) in
      (r >>=ₒ λ a. ok (result a w.slate), after_world m w)

abbrev idle : Stream
idle = record { incoming = []; outgoing = []; write_error = none }

module _ {lib : BitcoinLib} {ops : GrinOps lib} (l : Libraries ops) (settings : Settings) where
  -- `BitcoinCore::new` and `GrinCore::new` with the settings, outside of the tests' stub.
  abbrev pub clients_of : Clients
  clients_of = record {
    profile = l.profile;
    btc_core = record { settings = settings.btc; req_factory = record { response_stub = none } };
    btc_json = l.btc_json;
    grin_core = record { settings = settings.grin; req_factory = record { response_stub = none } };
    grin_json = l.grin_json;
  }

  abbrev pub read_slate : ℕ → Action (Machine lib ops) (SwapSlate ops.Tx)
  read_slate swapid m =
      (unwrap (read_slate_from_disk l.slate_json swapid settings.slate_directory m.disk), m)

  abbrev pub connect : SwapSlate ops.Tx → Machine lib ops → Outcome Stream
  connect slate m =
      let meta = slate.pub_slate.meta in
      unwrap_option (m.peers (meta.server ++ (codes ":" ++ meta.port)))

  abbrev pub checksum : SwapSlate ops.Tx → Machine lib ops → Outcome Text
  checksum slate m =
      unwrap (get_slate_checksum l.slate_json l.sha256 slate.id settings.slate_directory m.disk)

  -- lock, execute and cancel: `phase` is what they do from the first message on.
  unfoldable pub with_peer :
      ℕ → (Text → Step lib ops Unit) → Action (Machine lib ops) (Option (SwapSlate ops.Tx))
  with_peer swapid phase = do
    slate ← read_slate swapid
    stream ← (λ m. (connect slate m, m))
    sum ← (λ m. (checksum slate m, m))
    at_world slate stream (λ done end. some end) (phase sum)

  -- A loop that still waits for a client returns nothing.
  unfoldable pub with_callers : ℕ → Action (Machine lib ops) (Option (SwapSlate ops.Tx))
  with_callers swapid = do
    slate ← read_slate swapid
    sum ← (λ m. (checksum slate m, m))
    callers ← gets (λ m. m.callers)
    at_world slate idle (λ left end. if left then some end else none)
        (listen clients_of sum callers)

  -- `cmd.execute(..)`
  unfoldable pub run_command : Command → Action (Machine lib ops) (Option (SwapSlate ops.Tx))
  run_command (new_init command) = do
    id ← gets (λ m. m.fresh_id)
    slate ← lift (execute_init command settings id)
    pure (some slate)
  run_command (new_import_btc command) = do
    disk ← gets (λ m. m.disk)
    slate ← lift (import_btc l.slate_json settings lib command disk)
    pure (some slate)
  run_command (new_import_grin command) = do
    disk ← gets (λ m. m.disk)
    slate ← lift (import_grin l.slate_json settings command disk)
    pure (some slate)
  run_command (new_accept swapid) = do
    slate ← on_disk (accept l.slate_json settings swapid)
    pure (some slate)
  run_command (new_listen swapid) = with_callers swapid
  run_command (new_lock swapid) = with_peer swapid (lock clients_of)
  run_command (new_cancel swapid) = with_peer swapid (cancel clients_of)
  run_command (new_execute swapid) = with_peer swapid (execute clients_of)

  -- The slate that the command has returned is written; `false` where it has not returned.
  abbrev pub write_result : Option (SwapSlate ops.Tx) → Action (Machine lib ops) Bool
  write_result none = pure false
  write_result (some slate) = do
    on_disk (write_slate_to_disk l.slate_json slate settings.slate_directory true true)
    pure true

  unfoldable pub run_arguments : ArgMatches → Action (Machine lib ops) Bool
  run_arguments matches = do
    cmd ← lift (unwrap (parse_arguments l.to_uppercase matches))
    result ← after unwrap (run_command cmd)
    write_result result

-- `main`: what the settings file holds, the environment, the number of arguments, their matches.
unfoldable pub main :
    {lib : BitcoinLib} {ops : GrinOps lib}
    → Libraries ops
    → Option Text
    → (Text → Option Text)
    → ℕ
    → ArgMatches
    → Action (Machine lib ops) Bool
unfolding overwrite_settings_with_env
main l contents env args matches = do
  text ← lift (unwrap_option contents)
  settings ← lift (unwrap_option (l.settings_json text))
  if leb args 1
      then pure false
      else run_arguments l (overwrite_settings_with_env env settings) matches
