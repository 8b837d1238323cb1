-- ===== src/Swap/Refund/Reclaimed.antt =====
-- What a refund on the Bitcoin side is (src/swap/protocol.rs): a transaction that the script rules
-- let spend the lock, sent when its lock time has passed.
use mw_btc_swap.Prelude.{
  arith, false, ◌^◌, ℕ, pos, ◌<◌, ◌≡◌, ◌∙◌, sym, ap, true, not, ◌==◌, some, ok, unwrap_option,
  Profile, if◌then◌else◌,
}
use mw_btc_swap.Prelude.Results.{>>=-returns, ok_injective, some_of, some_injective}
use mw_btc_swap.Prelude.Actions.{guarded, >>=-ok, lift->>=-ok, ◌>>◌}
use mw_btc_swap.Constants.{btc_fee, ffffffff}
use mw_btc_swap.Enums.{failed}
use mw_btc_swap.Bitcoin.Crate.{BitcoinLib, PrivateKey, TxOut}
use mw_btc_swap.Bitcoin.Types.{BtcInput}
use mw_btc_swap.Bitcoin.Routines.{Tx, create_spend_lock_transaction}
use mw_btc_swap.Bitcoin.Script.{ScriptRules, spends, lock_time_reached}
use mw_btc_swap.Bitcoin.Signing.{
  nth, sign_lock_transaction_refund, serialize_script, serialize_priv_key, serialize_pub_key,
}
use mw_btc_swap.Bitcoin.Signing.Spend.{refunder_spends}
use mw_btc_swap.Bitcoin.Signing.Contract.{spend_input_of, reached_itself}
use mw_btc_swap.Grin.Ops.{GrinOps}
use mw_btc_swap.Swap.Types.{SwapSlate}
use mw_btc_swap.Swap.World.{Clients, World, Step, set_prv_btc, set_status}
use mw_btc_swap.Swap.Calls.{send_btc, new_private_key}
use mw_btc_swap.Swap.Timing.{can_refund}
use mw_btc_swap.Swap.Timing.Window.{Heights, Heights-slate, can_refund-past}
use mw_btc_swap.Swap.Execution.Redeemed.{new_private_key-slate}
use mw_btc_swap.Swap.Refund.{
  to_u32, RefundKeys, refund_keys, refund_lock_script, signed_refund, publish_refund_btc,
  refund_phase_swap_btc,
}
use mw_btc_swap.Swap.Refund.Due.{too_early}

-- The keys of the slate, and a transaction under its lock time that may spend the P2SH output of
-- their lock script, unless that time is 0.
pub record Unlocks {lib : BitcoinLib} (rules : ScriptRules lib) {GrinTx : Type 0}
    (slate : SwapSlate GrinTx) (lock_time : ℕ) (signed : Tx lib) : Type 0 where
  pub keys : RefundKeys lib
  pub held : refund_keys lib slate ≡ ok keys
  pub same_time : signed.lock_time ≡ lock_time
  pub spends_lock :
      spends rules signed 0 (refund_lock_script lib keys (pos lock_time) true)
      ≡ not (lock_time == 0)

to_u32-pos : {n m : ℕ} → to_u32 (pos n) ≡ ok m → m ≡ n
to_u32-pos h = ground arith

to_u32-fits : {n m : ℕ} → to_u32 (pos n) ≡ ok m → n < 2 ^ 32
to_u32-fits h = ground arith

module _ {lib : BitcoinLib} (rules : ScriptRules lib) {GrinTx : Type 0} (p : Profile)
    (slate : SwapSlate GrinTx) (lock_time : ℕ) where
  signed_refund-Unlocks :
      (sk : PrivateKey lib.SecretKey) {signed : Tx lib}
      → slate.pub_slate.btc.lock_time ≡ some (pos lock_time)
      → signed_refund lib p slate sk ≡ ok signed
      → Unlocks rules slate lock_time signed
  unfolding signed_refund sign_lock_transaction_refund
  signed_refund-Unlocks sk {signed} has_time run =
      let (keys, e1, run1) = >>=-returns (refund_keys lib slate) _ run in
      let (time, e2, run2) = >>=-returns (unwrap_option slate.pub_slate.btc.lock_time) _ run1 in
      let (lock, e3, run3) = >>=-returns (unwrap_option slate.prv_slate.btc.lock) _ run2 in
      let (height, e4, run4) = >>=-returns (to_u32 time) _ run3 in
      let (tx, e5, run5) =
        >>=-returns
          (create_spend_lock_transaction lib p (lib.public_key sk) lock slate.pub_slate.btc.amount
            btc_fee height)
          _ run4 in
      let is_time : time ≡ pos lock_time = some_injective (sym (some_of _ e2) ∙ has_time) in
      let is_height : height ≡ lock_time = to_u32-pos (ap to_u32 (sym is_time) ∙ e4) in
      let (txid, found, tx_time) =
        spend_input_of lib p (lib.public_key sk) lock slate.pub_slate.btc.amount btc_fee height
          e5 in
      let same = ok_injective {b = signed} run5 in
      record {
        keys = keys;
        held = e1;
        same_time = ap (λ z. z.lock_time) (sym same) ∙ tx_time ∙ is_height;
        spends_lock =
            ap (λ z. spends rules z 0 (refund_lock_script lib keys (pos lock_time) true)) (sym same)
            ∙ ap
                (λ z.
                  spends rules
                    (sign_lock_transaction_refund lib tx 0 (refund_lock_script lib keys z false)
                      keys.sk_b)
                    0 (refund_lock_script lib keys (pos lock_time) true))
                is_time
            ∙ refunder_spends lib rules tx 0 keys.sk_b keys.pub_a found (lib.public_key keys.x)
                lock_time (to_u32-fits (ap to_u32 (sym is_time) ∙ e4))
            ∙ ap (λ z. lock_time_reached (pos lock_time) z (if height == 0 then ffffffff else 0))
                tx_time
            ∙ ap (λ z. lock_time_reached (pos lock_time) z (if z == 0 then ffffffff else 0))
                is_height
            ∙ reached_itself lock_time;
      }

-- What the slate keeps of the refund, and the end of the phase.
abbrev pub refunded_input :
    (lib : BitcoinLib) → Tx lib → PrivateKey lib.SecretKey → TxOut lib.Script → BtcInput
refunded_input lib signed sk output = record {
  txid = lib.txid_to_string (lib.txid signed);
  vout = 0;
  value = output.value;
  secret = serialize_priv_key lib sk;
  pub_key = serialize_pub_key lib (lib.public_key sk);
  pub_script = serialize_script lib output.script_pubkey;
}

abbrev pub keep_refunded : {lib : BitcoinLib} {ops : GrinOps lib} → BtcInput → Step lib ops Unit
keep_refunded input = do set_prv_btc (λ b. record b { refunded = some input }); set_status failed

-- A refund on the Bitcoin side, from `w` to `w'`: both nodes answer heights past the lock times, a
-- key is drawn, and the Bitcoin node accepts, as the next request, a transaction that may spend the
-- lock output, whose lock time has passed; its output is kept in the slate, and the status is set.
pub record RefundedBtc {lib : BitcoinLib} {ops : GrinOps lib} (cl : Clients)
    (rules : ScriptRules lib) (w w' : World lib ops) : Type 0 where
  pub lock_grin : ℕ
  pub lock_btc : ℕ
  pub height_grin : ℕ
  pub height_btc : ℕ
  pub asked : World lib ops
  pub answers : Heights cl w asked lock_grin lock_btc height_grin height_btc
  pub past_grin : lock_grin < height_grin
  pub past_btc : lock_btc < height_btc
  pub signed : Tx lib
  pub unlocks : Unlocks rules w.slate lock_btc signed
  pub sk : PrivateKey lib.SecretKey
  pub keyed : World lib ops
  pub drawn : new_private_key asked ≡ (ok sk, keyed)
  pub sent : World lib ops
  pub accepted : send_btc cl signed keyed ≡ (ok tt, sent)
  pub output : TxOut lib.Script
  pub has_output : nth signed.output 0 ≡ ok output
  pub closed : keep_refunded (refunded_input lib signed sk output) sent ≡ (ok tt, w')

module _ {lib : BitcoinLib} {ops : GrinOps lib} (cl : Clients) (rules : ScriptRules lib)
    {w w' : World lib ops} where
  -- If the refund phase of the Bitcoin side succeeds, both nodes have answered heights past the
  -- lock times of the slate, and after a key was drawn the Bitcoin node has accepted, as the next
  -- request, a transaction under the lock time of the slate that by the script rules of a node may
  -- spend the lock output of the keys in the slate, unless the lock time is 0; the end state is
  -- the one after this answer, with the output kept in the slate and the status set to failed.
  pub refund_phase_swap_btc-RefundedBtc :
      refund_phase_swap_btc cl w ≡ (ok tt, w') → RefundedBtc cl rules w w'
  unfolding refund_phase_swap_btc publish_refund_btc
  refund_phase_swap_btc-RefundedBtc run =
      let (due, asked, found, run1) = >>=-ok (can_refund cl) _ {s = w} run in
      let (is_due, run2) = guarded due (publish_refund_btc cl) too_early run1 in
      let (lg, lb, hg, hb, h, past_grin, past_btc) =
        can_refund-past cl (found ∙ ap (λ b. (ok b, asked)) is_due) in
      let (same_slate, same_stream, same_entropy) = Heights-slate h in
      let (sk, w1, e1, run3) = >>=-ok new_private_key _ {s = asked} run2 in
      let (signed, e2, run4) =
        lift->>=-ok (signed_refund lib cl.profile w1.slate sk) _ {s = w1} run3 in
      let (sent, w2, e3, run5) = >>=-ok (send_btc cl signed) _ {s = w1} run4 in
      let (o, e4, run6) = lift->>=-ok (nth signed.output 0) _ {s = w2} run5 in
      let same = new_private_key-slate asked e1 ∙ same_slate in
      record {
        lock_grin = lg;
        lock_btc = lb;
        height_grin = hg;
        height_btc = hb;
        asked = asked;
        answers = h;
        past_grin = past_grin;
        past_btc = past_btc;
        signed = signed;
        unlocks =
            signed_refund-Unlocks rules cl.profile w.slate lb sk h.time_btc
              (ap (λ z. signed_refund lib cl.profile z sk) (sym same) ∙ e2);
        sk = sk;
        keyed = w1;
        drawn = e1;
        sent = w2;
        accepted = e3;
        output = o;
        has_output = e4;
        closed = run6;
      }
