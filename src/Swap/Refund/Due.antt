-- ===== src/Swap/Refund/Due.antt =====
-- When the refund phase of src/swap/protocol.rs refunds.
use mw_btc_swap.Prelude.{
  ℕ, ◌<◌, ◌≡◌, ◌↔◌, ◌∙◌, true, false, ◌&&◌, Text, codes, some, ok, err, ltb, ap, sym, arith,
}
use mw_btc_swap.Prelude.Actions.{guarded, >>=-ok, >>=-step, need->>=-step, need->>=-ok}
use mw_btc_swap.Enums.{failed}
use mw_btc_swap.Bitcoin.Crate.{BitcoinLib}
use mw_btc_swap.Grin.Ops.{GrinOps}
use mw_btc_swap.Swap.World.{Clients, World, set_status}
use mw_btc_swap.Swap.Calls.{push_grin}
use mw_btc_swap.Swap.Timing.{can_refund}
use mw_btc_swap.Swap.Timing.Window.{Heights, Heights-slate, can_refund-Heights, can_refund-past}
use mw_btc_swap.Swap.Refund.{refund_phase_swap_mw, publish_refund_mw, refund_phase_swap_btc}

abbrev pub too_early : Text
too_early = codes "Can't refund yet, too early"

-- A refund on the Mimblewimble side: both nodes answer heights past the lock times, then the Grin
-- node accepts the refund transaction that the slate holds, and the status is set.
pub record RefundedMw {lib : BitcoinLib} {ops : GrinOps lib} (cl : Clients) (w w' : World lib ops)
    : Type 0 where
  pub lock_grin : ℕ
  pub lock_btc : ℕ
  pub height_grin : ℕ
  pub height_btc : ℕ
  pub asked : World lib ops
  pub answers : Heights cl w asked lock_grin lock_btc height_grin height_btc
  pub past_grin : lock_grin < height_grin
  pub past_btc : lock_btc < height_btc
  pub tx : ops.Tx
  pub held : w.slate.prv_slate.mw.refund_tx ≡ some tx
  pub pushed : World lib ops
  pub accepted : push_grin cl tx asked ≡ (ok tt, pushed)
  pub closed : set_status failed pushed ≡ (ok tt, w')

both : {lg lb hg hb : ℕ} → lg < hg → lb < hb → (ltb lg hg && ltb lb hb) ≡ true
both past_grin past_btc = ground arith

module _ {lib : BitcoinLib} {ops : GrinOps lib} (cl : Clients) {w w' : World lib ops} where
  refunded : refund_phase_swap_mw cl w ≡ (ok tt, w') → RefundedMw cl w w'
  unfolding refund_phase_swap_mw publish_refund_mw
  refunded run =
      let (due, asked, found, run1) = >>=-ok (can_refund cl) _ {s = w} run in
      let (is_due, run2) = guarded due (publish_refund_mw cl) too_early run1 in
      let (lg, lb, hg, hb, h, past_grin, past_btc) =
        can_refund-past cl (found ∙ ap (λ b. (ok b, asked)) is_due) in
      let (same_slate, same_stream, same_entropy) = Heights-slate h in
      let (tx, held, run3) = need->>=-ok asked.slate.prv_slate.mw.refund_tx _ run2 in
      let (unit, pushed, accepted, run4) = >>=-ok (push_grin cl tx) _ run3 in
      record {
        lock_grin = lg;
        lock_btc = lb;
        height_grin = hg;
        height_btc = hb;
        asked = asked;
        answers = h;
        past_grin = past_grin;
        past_btc = past_btc;
        tx = tx;
        held = sym (ap (λ s. s.prv_slate.mw.refund_tx) same_slate) ∙ held;
        pushed = pushed;
        accepted = accepted;
        closed = run4;
      }

  refunds : RefundedMw cl w w' → refund_phase_swap_mw cl w ≡ (ok tt, w')
  unfolding refund_phase_swap_mw publish_refund_mw
  refunds r =
      let (same_slate, same_stream, same_entropy) = Heights-slate r.answers in
      >>=-step (can_refund cl) _ {s = w}
        (can_refund-Heights cl r.answers ∙ ap (λ b. (ok b, r.asked)) (both r.past_grin r.past_btc))
      ∙ need->>=-step r.asked.slate.prv_slate.mw.refund_tx _
          (ap (λ s. s.prv_slate.mw.refund_tx) same_slate ∙ r.held)
      ∙ >>=-step (push_grin cl r.tx) _ r.accepted
      ∙ r.closed

  -- The refund phase of the Mimblewimble side succeeds exactly if both nodes answer heights past
  -- the lock times of the slate, the slate holds a refund transaction, and the Grin node then
  -- accepts it; the end state is the one after these calls, with the status set to failed.
  pub refund_phase_swap_mw-RefundedMw :
      (refund_phase_swap_mw cl w ≡ (ok tt, w')) ↔ RefundedMw cl w w'
  refund_phase_swap_mw-RefundedMw = (refunded, refunds)

module _ {lib : BitcoinLib} {ops : GrinOps lib} (cl : Clients) {w w' : World lib ops}
    {lg lb hg hb : ℕ} (h : Heights cl w w' lg lb hg hb) where
  -- Where one of the two answered heights is not past its lock time, both refund phases end in the
  -- error "too early" right after the two questions; the slate, the stream and the keys to come
  -- are as they were.
  pub refund_too_early :
      (ltb lg hg && ltb lb hb) ≡ false
      → (refund_phase_swap_mw cl w ≡ (err too_early, w'))
        × (refund_phase_swap_btc cl w ≡ (err too_early, w'))
        × (w'.slate ≡ w.slate)
        × (w'.stream ≡ w.stream)
        × (w'.entropy ≡ w.entropy)
  unfolding refund_phase_swap_mw refund_phase_swap_btc
  refund_too_early early =
      let (same_slate, same_stream, same_entropy) = Heights-slate h in
      (
        >>=-step (can_refund cl) _ (can_refund-Heights cl h ∙ ap (λ b. (ok b, w')) early),
        >>=-step (can_refund cl) _ (can_refund-Heights cl h ∙ ap (λ b. (ok b, w')) early),
        same_slate,
        same_stream,
        same_entropy,
      )
