-- ===== src/Swap/Timing/Window.antt =====
-- What the two timing tests of src/swap/protocol.rs say of the heights that the nodes answer.
use mw_btc_swap.Prelude.{
  ℕ, ◌+◌, ◌≤◌, ◌<◌, ◌≡◌, refl, Bool, true, ◌&&◌, ℤ, pos, negsuc, some, ok, Outcome, unwrap_option,
  unwrap, Profile, ◌∙◌, add_u64, u64_mod, ltb, leb, arith, ap, sym,
}
use mw_btc_swap.Prelude.Actions.{
  >>=-step, after-unwrap-step, >>=-ok, need->>=-ok, lift-ok, after-unwrap-ok, after, ◌>>=◌,
}
use mw_btc_swap.Constants.{grin_block_time, btc_block_time}
use mw_btc_swap.Bitcoin.Crate.{BitcoinLib}
use mw_btc_swap.Grin.Ops.{GrinOps}
use mw_btc_swap.Swap.World.{Clients, World, Step}
use mw_btc_swap.Swap.Calls.{grin_height, btc_height, get_slate, need}
use mw_btc_swap.Swap.Timing.{hour_left, passed, and_then, check_if_enough_time, can_refund}

-- The lock times that the slate holds, the heights that the nodes answer
-- one after the other, and the state after the two answers.
pub record Heights {lib : BitcoinLib} {ops : GrinOps lib} (cl : Clients) (w w' : World lib ops)
    (lock_grin lock_btc height_grin height_btc : ℕ) : Type 0 where
  pub between : World lib ops
  pub time_grin : w.slate.pub_slate.mw.lock_time ≡ some (pos lock_grin)
  pub time_btc : w.slate.pub_slate.btc.lock_time ≡ some (pos lock_btc)
  pub answer_grin : grin_height cl w ≡ (ok height_grin, between)
  pub answer_btc : btc_height cl between ≡ (ok height_btc, w')

hours :
    (p : Profile) (lg lb hg hb : ℕ)
    → hg + 60 < u64_mod
    → hb + 6 < u64_mod
    → and_then (hour_left p grin_block_time hg (pos lg)) (hour_left p btc_block_time hb (pos lb))
      ≡ ok (leb (hg + 60) lg && leb (hb + 6) lb)
unfolding hour_left add_u64
hours p lg lb hg hb small_grin small_btc = ground arith

both_passed :
    (lg lb hg hb : ℕ)
    → and_then (passed hg (pos lg)) (passed hb (pos lb)) ≡ ok (ltb lg hg && ltb lb hb)
unfolding passed
both_passed lg lb hg hb = ground arith

module _ {lib : BitcoinLib} {ops : GrinOps lib} (cl : Clients) {w w' : World lib ops}
    {lg lb hg hb : ℕ} (h : Heights cl w w' lg lb hg hb) where
  -- The four questions that both tests ask, with what they do with the answers.
  query :
      {A : Type 0} (f : ℤ → ℤ → ℕ → ℕ → Step lib ops A)
      → (do
        slate ← get_slate
        time_grin ← need slate.pub_slate.mw.lock_time
        time_btc ← need slate.pub_slate.btc.lock_time
        height_grin ← after unwrap (grin_height cl)
        height_btc ← after unwrap (btc_height cl)
        f time_grin time_btc height_grin height_btc)
          w
        ≡ f (pos lg) (pos lb) hg hb w'
  query f =
      >>=-step (need w.slate.pub_slate.mw.lock_time) _ (ap (λ o. (unwrap_option o, w)) h.time_grin)
      ∙ >>=-step (need w.slate.pub_slate.btc.lock_time) _
          (ap (λ o. (unwrap_option o, w)) h.time_btc)
      ∙ >>=-step (after unwrap (grin_height cl)) _
          (after-unwrap-step (grin_height cl) h.answer_grin)
      ∙ >>=-step (after unwrap (btc_height cl)) _ (after-unwrap-step (btc_height cl) h.answer_btc)

  -- Where the slate holds two lock times that are not negative, with answered heights that are
  -- less than 2^64 by 60 and by 6, there is enough time exactly if 60 Grin blocks and 6 Bitcoin
  -- blocks are left up to the lock times.
  pub check_if_enough_time-Heights :
      hg + 60 < u64_mod
      → hb + 6 < u64_mod
      → check_if_enough_time cl w ≡ (ok (leb (hg + 60) lg && leb (hb + 6) lb), w')
  unfolding check_if_enough_time
  check_if_enough_time-Heights small_grin small_btc =
      query _ ∙ ap (λ r. (r, w')) (hours cl.profile lg lb hg hb small_grin small_btc)

  -- Where the slate holds two lock times that are not negative and both nodes answer, a refund is
  -- found due exactly if both answered heights are past their lock times.
  pub can_refund-Heights : can_refund cl w ≡ (ok (ltb lg hg && ltb lb hb), w')
  unfolding can_refund
  can_refund-Heights = query _ ∙ ap (λ r. (r, w')) (both_passed lg lb hg hb)

both_passed-ok :
    (zg zb : ℤ) {hg hb : ℕ}
    → and_then (passed hg zg) (passed hb zb) ≡ ok true
    → (lg : ℕ) × (lb : ℕ) × (zg ≡ pos lg) × (zb ≡ pos lb) × (lg < hg) × (lb < hb)
unfolding passed
both_passed-ok (pos lg) (pos lb) h = (lg, lb, refl, refl, ground arith, ground arith)
both_passed-ok (pos lg) (negsuc lb) h = ground arith
both_passed-ok (negsuc lg) zb h = ground arith

module _ {lib : BitcoinLib} {ops : GrinOps lib} (cl : Clients) {w w' : World lib ops} where
  -- A refund is found due only where both nodes have answered a height past the lock time.
  pub can_refund-past :
      can_refund cl w ≡ (ok true, w')
      → (lg : ℕ) × (lb : ℕ) × (hg : ℕ) × (hb : ℕ) × Heights cl w w' lg lb hg hb
        × (lg < hg)
        × (lb < hb)
  unfolding can_refund
  can_refund-past run =
      let (zg, some_grin, run1) = need->>=-ok w.slate.pub_slate.mw.lock_time _ run in
      let (zb, some_btc, run2) = need->>=-ok w.slate.pub_slate.btc.lock_time _ run1 in
      let (hg, s3, grin, run3) = >>=-ok (after unwrap (grin_height cl)) _ run2 in
      let (hb, s4, btc, run4) = >>=-ok (after unwrap (btc_height cl)) _ run3 in
      let (tests, end) = lift-ok _ run4 in
      let (lg, lb, grin_pos, btc_pos, past_grin, past_btc) = both_passed-ok zg zb tests in
      (
        lg,
        lb,
        hg,
        hb,
        record {
          between = s3;
          time_grin = some_grin ∙ ap some grin_pos;
          time_btc = some_btc ∙ ap some btc_pos;
          answer_grin = after-unwrap-ok (grin_height cl) grin;
          answer_btc = after-unwrap-ok (btc_height cl) btc ∙ ap (λ s. (ok hb, s)) end;
        },
        past_grin,
        past_btc,
      )

-- What the answers of the nodes leave alone.
pub Heights-slate :
    {lib : BitcoinLib} {ops : GrinOps lib} {cl : Clients} {w w' : World lib ops} {lg lb hg hb : ℕ}
    → Heights cl w w' lg lb hg hb
    → (w'.slate ≡ w.slate) × (w'.stream ≡ w.stream) × (w'.entropy ≡ w.entropy)
Heights-slate h = (
  sym (ap (λ r. r.1.slate) h.answer_grin ∙ ap (λ r. r.1.slate) h.answer_btc),
  sym (ap (λ r. r.1.stream) h.answer_grin ∙ ap (λ r. r.1.stream) h.answer_btc),
  sym (ap (λ r. r.1.entropy) h.answer_grin ∙ ap (λ r. r.1.entropy) h.answer_btc),
)

pos_inj : {a b : ℕ} → some (pos a) ≡ some (pos b) → a ≡ b
pos_inj eq = cc

both_left {ℓ} :
    {S : Type ℓ} {s t : S} (a b c d : ℕ)
    → ◌≡◌ {A = Outcome Bool × S} (ok (leb a b && leb c d), s) (ok true, t)
    → (a ≤ b) × (c ≤ d)
both_left a b c d eq = let tests = ap (λ r. r.0) eq in (ground arith, ground arith)

module _ {lib : BitcoinLib} {ops : GrinOps lib} (cl : Clients) {w w' v v' : World lib ops}
    {lg lb hg hb : ℕ} (h : Heights cl w w' lg lb hg hb) where
  -- Between a test that finds enough time, its answered heights less than 2^64 by 60 and by 6, and
  -- a test with the same lock times that finds a refund due, the answered heights have grown by
  -- more than 60 Grin blocks and by more than 6 Bitcoin blocks.
  pub refund_after_window :
      hg + 60 < u64_mod
      → hb + 6 < u64_mod
      → check_if_enough_time cl w ≡ (ok true, w')
      → v.slate.pub_slate.mw.lock_time ≡ w.slate.pub_slate.mw.lock_time
      → v.slate.pub_slate.btc.lock_time ≡ w.slate.pub_slate.btc.lock_time
      → can_refund cl v ≡ (ok true, v')
      → (kg : ℕ) × (kb : ℕ) × Heights cl v v' lg lb kg kb × (hg + 60 < kg) × (hb + 6 < kb)
  refund_after_window small_grin small_btc enough same_grin same_btc due =
      let (lg', lb', kg, kb, answers, past_grin, past_btc) = can_refund-past cl due in
      let equal_grin : lg' ≡ lg = pos_inj (sym answers.time_grin ∙ same_grin ∙ h.time_grin) in
      let equal_btc : lb' ≡ lb = pos_inj (sym answers.time_btc ∙ same_btc ∙ h.time_btc) in
      let (left_grin, left_btc) =
        both_left (hg + 60) lg (hb + 6) lb
          (sym (check_if_enough_time-Heights cl h small_grin small_btc) ∙ enough) in
      (
        kg,
        kb,
        record {
          between = answers.between;
          time_grin = same_grin ∙ h.time_grin;
          time_btc = same_btc ∙ h.time_btc;
          answer_grin = answers.answer_grin;
          answer_btc = answers.answer_btc;
        },
        omega arith,
        omega arith,
      )
