-- ===== src/Commands/Program/Recorded.antt =====
-- What a command that succeeds leaves on the disk (src/main.rs): the slate that the next command
-- reads.
use mw_btc_swap.Prelude.{◌≡◌, ◌∙◌, ap, true, false, some, ok, unwrap}
use mw_btc_swap.Prelude.Actions.{lift, after, ◌>>=◌, continue}
use mw_btc_swap.Bitcoin.Crate.{BitcoinLib}
use mw_btc_swap.Grin.Ops.{GrinOps}
use mw_btc_swap.Settings.{Settings}
use mw_btc_swap.Swap.Types.{SwapSlate}
use mw_btc_swap.Swap.Slate.{Disk, get_slate_path, read_slate_from_disk, get_slate_checksum}
use mw_btc_swap.Swap.Slate.Files.{read_slate-write_slate}
use mw_btc_swap.Commands.Arguments.{ArgMatches, Command, parse_arguments}
use mw_btc_swap.Commands.Program.{Libraries, Machine, run_command, run_arguments, write_result}

module _ {lib : BitcoinLib} {ops : GrinOps lib} (l : Libraries ops) (settings : Settings) where
  -- Where a command succeeds with a slate, the two paths of that slate may be written, and the
  -- JSON of its two parts can be read back: the program ends well, and the slate that is then read
  -- from the disk, and the checksum, are those of the slate that the command has returned.
  pub run_arguments-recorded :
      (matches : ArgMatches) (m m1 : Machine lib ops) {command : Command} {slate : SwapSlate ops.Tx}
      → parse_arguments l.to_uppercase matches ≡ ok command
      → run_command l settings command m ≡ (ok (some slate), m1)
      → m1.disk.refused (get_slate_path slate.id settings.slate_directory false) ≡ false
      → m1.disk.refused (get_slate_path slate.id settings.slate_directory true) ≡ false
      → l.slate_json.pub_from_text (l.slate_json.pub_to_text slate.pub_slate) ≡ some slate.pub_slate
      → l.slate_json.prv_from_text (l.slate_json.prv_to_text slate.prv_slate) ≡ some slate.prv_slate
      → (d : Disk) × (run_arguments l settings matches m ≡ (ok true, record m1 { disk = d }))
        × (read_slate_from_disk l.slate_json slate.id settings.slate_directory d ≡ ok slate)
        × (get_slate_checksum l.slate_json l.sha256 slate.id settings.slate_directory d
            ≡ ok (l.sha256 (l.slate_json.pub_to_text slate.pub_slate)))
  unfolding run_arguments
  run_arguments-recorded matches m m1 {command} {slate} parsed runs prv_allowed pub_allowed pub_law
        prv_law =
      let (d, wrote, reads, sum) =
        read_slate-write_slate l.slate_json slate settings.slate_directory m1.disk prv_allowed
          pub_allowed pub_law prv_law l.sha256 in
      (
        d,
        ap
              (λ c.
                (lift (unwrap c) >>= λ cmd.
                after unwrap (run_command l settings cmd) >>= write_result l settings)
                  m)
              parsed
            ∙ ap (λ r. continue (unwrap r.0) (write_result l settings) r.1) runs
            ∙ ap (λ r. continue r.0 (λ done. λ x. (ok true, x)) (record m1 { disk = r.1 })) wrote,
        reads,
        sum,
      )
