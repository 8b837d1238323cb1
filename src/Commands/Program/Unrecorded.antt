-- ===== src/Commands/Program/Unrecorded.antt =====
-- What a failed command leaves on the disk (src/main.rs): nothing, so what a phase has locked before
-- it failed cannot be refunded.
use mw_btc_swap.Prelude.{
  ℕ, Text, codes, eq_ignore_ascii_case, ◌≡◌, refl, sym, ap, ◌∙◌, Bool, true, false, not, some,
  Outcome, ok, err, panic, unwrap, if◌then◌else◌,
}
use mathlib.Core.Path.{subst}
use mw_btc_swap.Prelude.Results.{◌>>=◌ as ◌>>=ₒ◌}
use mw_btc_swap.Prelude.Actions.{Action, lift, after, fail, ◌>>=◌, >>=-step, continue}
use mw_btc_swap.Enums.{is_setup}
use mw_btc_swap.Net.Tcp.{Stream, send_msg, receive_msg}
use mw_btc_swap.Bitcoin.Crate.{BitcoinLib}
use mw_btc_swap.Grin.Ops.{GrinOps}
use mw_btc_swap.Settings.{Settings}
use mw_btc_swap.Swap.Types.{SwapSlate}
use mw_btc_swap.Swap.World.{Clients, World, Step, on_stream}
use mw_btc_swap.Swap.Slate.{read_slate_from_disk}
use mw_btc_swap.Commands.Connect.{cancel}
use mw_btc_swap.Commands.Arguments.{
  ArgMatches, Command, new_init, new_import_btc, new_import_grin, new_accept, new_listen, new_lock,
  new_cancel, new_execute, parse_arguments,
}
use mw_btc_swap.Commands.Program.{
  Libraries, Machine, world_of, after_world, read_slate, connect, checksum, with_callers,
  clients_of, with_peer, run_command, run_arguments, write_result, at_world,
}

-- A call that ends in `Err` or a panic.
abbrev pub Fails {ℓ} : {A : Type ℓ} → Outcome A → Type 0
Fails (ok a) = ⊥
Fails (err e) = Unit
Fails panic = Unit

-- The commands that run a phase.
abbrev pub RunsPhase : Command → Type 0
RunsPhase (new_listen swapid) = Unit
RunsPhase (new_lock swapid) = Unit
RunsPhase (new_cancel swapid) = Unit
RunsPhase (new_execute swapid) = Unit
RunsPhase _ = ⊥

-- What both parts of a sequence keep is kept.
keeps :
    {S A B C : Type 0} (part : S → C) (first : Action S A) (next : A → Action S B) (s : S)
    → part (first s).1 ≡ part s
    → ((a : A) (now : S) → part (next a now).1 ≡ part now)
    → part ((first >>= next) s).1 ≡ part s
keeps {S} {A} part first next s kept later = go (first s) kept
  where
    go : (r : Outcome A × S) → part r.1 ≡ part s → part (continue r.0 next r.1).1 ≡ part s
    go (ok a, now) same = later a now ∙ same
    go (err e, now) same = same
    go (panic, now) same = same

module _ {lib : BitcoinLib} {ops : GrinOps lib} where
  -- A step that fails and leaves the network.
  abbrev Stays : {A : Type 0} → World lib ops → Outcome A × World lib ops → Type 0
  Stays w r = Fails r.0 × (r.1.wire ≡ w.wire)

  abbrev MachineStays : {A : Type 0} → Machine lib ops → Outcome A × Machine lib ops → Type 0
  MachineStays m r = Fails r.0 × (r.1.wire ≡ m.wire)

  module _ {A B : Type 0} (w : World lib ops) where
    after_stream :
        (call : Action Stream A) (next : A → Step lib ops B)
        → ((a : A) (s : Stream) → Stays w (next a (record w { stream = s })))
        → Stays w ((on_stream call >>= next) w)
    after_stream call next later = go (call w.stream)
      where
        go : (r : Outcome A × Stream) → Stays w (continue (r.0) next (record w { stream = r.1 }))
        go (ok a, s) = later a s
        go (err e, s) = (tt, refl)
        go (panic, s) = (tt, refl)

  module _ {B : Type 0} (w : World lib ops) where
    either :
        (test : Bool) (first second : Step lib ops B) (now : World lib ops)
        → Stays w (first now)
        → Stays w (second now)
        → Stays w ((if test then first else second) now)
    either true first second now one two = one
    either false first second now one two = two

    turned_back :
        (set : Bool) (message : Text) (go_on : Step lib ops B) (now : World lib ops)
        → set ≡ false
        → now.wire ≡ w.wire
        → Stays w ((if not set then fail message else go_on) now)
    turned_back true message go_on now unset same = cc
    turned_back false message go_on now unset same = (tt, same)

  cancel-Stays :
      (cl : Clients) (sum : Text) (w : World lib ops)
      → is_setup w.slate.pub_slate.status ≡ false
      → Stays w (cancel cl sum w)
  unfolding cancel
  cancel-Stays cl sum w unset = after_stream w (send_msg cl.profile sum) _ (λ sent s.
      after_stream (record w { stream = s }) (receive_msg cl.profile) _
        (λ resp s'.
          either w (not (eq_ignore_ascii_case resp (codes "OK"))) _ _ (record w { stream = s' })
            (tt, refl)
            (turned_back w (is_setup w.slate.pub_slate.status) _ _ (record w { stream = s' }) unset
              refl)))

module _ {lib : BitcoinLib} {ops : GrinOps lib} (l : Libraries ops) (settings : Settings) where
  with_peer-disk :
      (swapid : ℕ) (phase : Text → Step lib ops Unit) (m : Machine lib ops)
      → (with_peer l settings swapid phase m).1.disk ≡ m.disk
  unfolding with_peer
  with_peer-disk swapid phase m =
      keeps (λ x. x.disk) (read_slate l settings swapid) _ m refl
        (λ slate m1.
          keeps (λ x. x.disk) (λ x. (connect l settings slate x, x)) _ m1 refl
            (λ stream m2.
              keeps (λ x. x.disk) (λ x. (checksum l settings slate x, x)) _ m2 refl
                (λ sum m3. refl)))

  with_callers-disk :
      (swapid : ℕ) (m : Machine lib ops) → (with_callers l settings swapid m).1.disk ≡ m.disk
  unfolding with_callers
  with_callers-disk swapid m =
      keeps (λ x. x.disk) (read_slate l settings swapid) _ m refl
        (λ slate m1.
          keeps (λ x. x.disk) (λ x. (checksum l settings slate x, x)) _ m1 refl (λ sum m2. refl))

  run_command-disk :
      (command : Command) (m : Machine lib ops)
      → RunsPhase command
      → (run_command l settings command m).1.disk ≡ m.disk
  unfolding run_command
  run_command-disk (new_listen swapid) m phase = with_callers-disk swapid m
  run_command-disk (new_lock swapid) m phase = with_peer-disk swapid _ m
  run_command-disk (new_cancel swapid) m phase = with_peer-disk swapid _ m
  run_command-disk (new_execute swapid) m phase = with_peer-disk swapid _ m
  run_command-disk (new_init c) m phase = absurd phase
  run_command-disk (new_import_btc c) m phase = absurd phase
  run_command-disk (new_import_grin c) m phase = absurd phase
  run_command-disk (new_accept swapid) m phase = absurd phase

  unwrap-Fails : {A : Type 0} (r : Outcome A) → Fails r → unwrap r ≡ panic
  unwrap-Fails (ok a) fails = absurd fails
  unwrap-Fails (err e) fails = refl
  unwrap-Fails panic fails = refl

  -- Where a command that runs a phase fails, the program panics after it, and the disk is as it was.
  pub run_arguments-Fails :
      (matches : ArgMatches) (m : Machine lib ops) {command : Command}
      → parse_arguments l.to_uppercase matches ≡ ok command
      → RunsPhase command
      → Fails ((run_command l settings command m).0)
      → (run_arguments l settings matches m ≡ (panic, (run_command l settings command m).1))
        × ((run_arguments l settings matches m).1.disk ≡ m.disk)
  unfolding run_arguments
  run_arguments-Fails matches m {command} parsed phase fails =
      let (r, later) = run_command l settings command m in
      let ends : run_arguments l settings matches m ≡ (panic, later) =
        ap
          (λ c.
            (lift (unwrap c) >>= λ cmd.
            after unwrap (run_command l settings cmd) >>= write_result l settings)
              m)
          parsed
        ∙ ap (λ x. continue x (write_result l settings) later) (unwrap-Fails r fails) in
      (ends, ap (λ x. x.1.disk) ends ∙ run_command-disk command m phase)

  -- A phase that fails over the slate that is read, wherever the peer is.
  with_peer-Stays :
      (swapid : ℕ) (phase : Text → Step lib ops Unit) (m : Machine lib ops)
      {slate : SwapSlate ops.Tx}
      → read_slate_from_disk l.slate_json swapid settings.slate_directory m.disk ≡ ok slate
      → ((sum : Text) (s : Stream) → Stays (world_of m slate s) (phase sum (world_of m slate s)))
      → MachineStays m (with_peer l settings swapid phase m)
  unfolding with_peer
  with_peer-Stays swapid phase m {slate} reads stays =
      subst (λ r. MachineStays m r)
        (sym (>>=-step (read_slate l settings swapid) _ {s = m} (ap (λ r. (unwrap r, m)) reads)))
        (go_connect (connect l settings slate m))
    where
      ended :
          (s : Stream) (r : Outcome Unit × World lib ops)
          → Stays (world_of m slate s) r
          → MachineStays m (r.0 >>=ₒ λ done. ok (some (r.1.slate)), after_world m r.1)
      ended s (ok done, w) fails = absurd (fails.0)
      ended s (err e, w) fails = (tt, fails.1)
      ended s (panic, w) fails = (tt, fails.1)

      go_sum :
          (s : Stream) (sum : Outcome Text)
          → MachineStays m (continue sum (λ t. at_world slate s (λ done end. some end) (phase t)) m)
      go_sum s (ok t) = ended s (phase t (world_of m slate s)) (stays t s)
      go_sum s (err e) = (tt, refl)
      go_sum s panic = (tt, refl)

      go_connect :
          (peer : Outcome Stream)
          → MachineStays m (
              continue peer
                (λ s. (λ x. (checksum l settings slate x, x)) >>= λ t.
                  at_world slate s (λ done end. some end) (phase t))
                m)
      go_connect (ok s) = go_sum s (checksum l settings slate m)
      go_connect (err e) = (tt, refl)
      go_connect panic = (tt, refl)

  -- Where the command lock fails over a slate on the disk that is not in the status SETUP,
  -- whatever the phase has locked, the command cancel that is run on the disk as the program
  -- leaves it fails too, whatever peer and nodes there are then, and asks the nodes nothing.
  pub lock_failed-no_refund :
      (matches : ArgMatches) (swapid : ℕ) (m m2 : Machine lib ops) {slate : SwapSlate ops.Tx}
      → parse_arguments l.to_uppercase matches ≡ ok (new_lock swapid)
      → read_slate_from_disk l.slate_json swapid settings.slate_directory m.disk ≡ ok slate
      → is_setup slate.pub_slate.status ≡ false
      → Fails ((run_command l settings (new_lock swapid) m).0)
      → m2.disk ≡ (run_arguments l settings matches m).1.disk
      → Fails ((run_command l settings (new_cancel swapid) m2).0)
        × ((run_command l settings (new_cancel swapid) m2).1.wire ≡ m2.wire)
  unfolding run_command
  lock_failed-no_refund matches swapid m m2 {slate} parsed reads unset fails next =
      let (ends, same) = run_arguments-Fails matches m parsed tt fails in
      with_peer-Stays swapid (cancel (clients_of l settings)) m2
        (ap (λ d. read_slate_from_disk l.slate_json swapid settings.slate_directory d) (next ∙ same)
          ∙ reads)
        (λ sum s. cancel-Stays (clients_of l settings) sum (world_of m2 slate s) unset)
