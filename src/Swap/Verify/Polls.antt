-- ===== src/Swap/Verify/Polls.antt =====
-- What the loop of src/swap/protocol.rs that waits for the locked funds has seen when it ends.
use mw_btc_swap.Prelude.{
  ℕ, zero, suc, ◌+◌, ◌*◌, ◌≤◌, ◌<◌, ◌≡◌, ◌↔◌, ◌∙◌, Bool, true, false, Text, Outcome, ok, err, panic,
  leb, ◌==◌, if◌then◌else◌, ap, refl, arith, inl, inr, ◌⊎◌,
}
use mw_btc_swap.Prelude.Actions.{pure, continue, >>=-ok, >>=-step, ◌>>◌}
use mw_btc_swap.Bitcoin.Crate.{BitcoinLib}
use mw_btc_swap.Grin.Ops.{GrinOps}
use mw_btc_swap.Swap.World.{Clients, World, Step, sleep}
use mw_btc_swap.Swap.Verify.{poll, verify_funds}

-- At most `n` polls from the first state to the second: each but the last finds nothing and is
-- followed by a minute of sleep; the last finds exactly the amount.
pub data FundsSeen {lib : BitcoinLib} {ops : GrinOps lib} (cl : Clients) (addr : Text) (amount : ℕ)
    : ℕ → World lib ops → World lib ops → Type 0 where
  now :
      {n : ℕ} {w w' : World lib ops}
      → 0 < amount
      → poll cl addr w ≡ (ok amount, w')
      → FundsSeen cl addr amount (suc n) w w'
  later :
      {n : ℕ} {w w1 w' : World lib ops}
      → poll cl addr w ≡ (ok 0, w1)
      → FundsSeen cl addr amount n (record w1 { slept = w1.slept + 60 }) w'
      → FundsSeen cl addr amount (suc n) w w'

module _ {lib : BitcoinLib} {ops : GrinOps lib} (cl : Clients) (addr : Text) (amount : ℕ) where
  judge : Step lib ops Bool → ℕ → Step lib ops Bool
  judge again balance =
      if leb 1 balance
      then (if balance == amount then pure true else pure false)
      else (sleep 60 >> again)

  choice :
      (x y : Bool) (again : Step lib ops Bool) {s t : World lib ops}
      → (if x then (if y then pure true else pure false) else (sleep 60 >> again)) s ≡ (ok true, t)
      → ((x ≡ false) × (again (record s { slept = s.slept + 60 }) ≡ (ok true, t)))
        ⊎ ((x ≡ true) × (y ≡ true) × (s ≡ t))
  choice true true again run = inr (refl, refl, ap (λ r. r.1) run)
  choice true false again run = cc
  choice false y again run = inl (refl, run)

  judge-true :
      (again : Step lib ops Bool) (b : ℕ) {s t : World lib ops}
      → judge again b s ≡ (ok true, t)
      → ((b ≡ 0) × (again (record s { slept = s.slept + 60 }) ≡ (ok true, t)))
        ⊎ ((b ≡ amount) × (0 < amount) × (s ≡ t))
  unfolding judge
  judge-true again b run = elim (choice (leb 1 b) (b == amount) again run) [
    | inl (none, on) ↦ inl (ground arith, on)
    | inr (positive, same, end) ↦ inr (ground arith, ground arith, end)
  ]

  seen :
      (n : ℕ) {w w' : World lib ops}
      → verify_funds cl addr amount n w ≡ (ok true, w')
      → FundsSeen cl addr amount n w w'
  unfolding verify_funds judge
  seen zero run = cc
  seen (suc n) {w} {w'} run =
      let (b, s, polled, run1) =
        >>=-ok (poll cl addr) (judge (verify_funds cl addr amount n)) {s = w} run in
      elim (judge-true (verify_funds cl addr amount n) b run1) [
        | inl (empty, on) ↦ later (polled ∙ ap (λ k. (ok k, s)) empty) (seen n on)
        | inr (equal, positive, end) ↦
            now positive (polled ∙ ap (λ k. (ok k, s)) equal ∙ ap (λ v. (ok amount, v)) end)
      ]

  judged_zero :
      (again : Step lib ops Bool) (s : World lib ops)
      → judge again 0 s ≡ again (record s { slept = s.slept + 60 })
  unfolding judge
  judged_zero again s = refl

  judged_amount :
      (again : Step lib ops Bool) (s : World lib ops)
      → 0 < amount
      → judge again amount s ≡ (ok true, s)
  unfolding judge
  judged_amount again s positive = ground arith

  verifies :
      {n : ℕ} {w w' : World lib ops}
      → FundsSeen cl addr amount n w w'
      → verify_funds cl addr amount n w ≡ (ok true, w')
  unfolding verify_funds judge
  verifies (now {n} {w} {w'} positive polled) =
      >>=-step (poll cl addr) (judge (verify_funds cl addr amount n)) {s = w} polled
      ∙ judged_amount (verify_funds cl addr amount n) w' positive
  verifies (later {n} {w} {w1} {w'} polled seen) =
      >>=-step (poll cl addr) (judge (verify_funds cl addr amount n)) {s = w} polled
      ∙ judged_zero (verify_funds cl addr amount n) w1
      ∙ verifies seen

  -- With n attempts the loop finds the funds verified exactly if one of at most n polls gives
  -- exactly the amount, which is not zero, and each poll before it gives zero (or an error) and is
  -- followed by a minute of sleep.
  pub verify_funds-FundsSeen :
      (n : ℕ) {w w' : World lib ops}
      → (verify_funds cl addr amount n w ≡ (ok true, w')) ↔ FundsSeen cl addr amount n w w'
  verify_funds-FundsSeen n = (seen n, verifies)

  -- What a run from a state may have changed: it has slept for n minutes at most.
  abbrev pub Mild : ℕ → World lib ops → World lib ops → Type 0
  Mild n w w' = (w'.slept ≤ w.slept + 60 * n) × (w'.slate ≡ w.slate) × (w'.stream ≡ w.stream)

  choice-Mild :
      (x y : Bool) (again : Step lib ops Bool) (n : ℕ) (s : World lib ops)
      → ((v : World lib ops) → Mild n v (again v).1)
      → Mild
          (suc n)
          s
          ((if x then (if y then pure true else pure false) else (sleep 60 >> again)) s).1
  choice-Mild true true again n s mild = (omega arith, refl, refl)
  choice-Mild true false again n s mild = (omega arith, refl, refl)
  choice-Mild false y again n s mild =
      let (time, slate, stream) = mild (record s { slept = s.slept + 60 }) in
      (omega arith, slate, stream)

  judged-Mild :
      (again : Step lib ops Bool) (n : ℕ) (r : Outcome ℕ) (s : World lib ops)
      → ((v : World lib ops) → Mild n v (again v).1)
      → Mild (suc n) s (continue r (judge again) s).1
  unfolding judge
  judged-Mild again n (ok b) s mild = choice-Mild (leb 1 b) (b == amount) again n s mild
  judged-Mild again n (err e) s mild = choice-Mild true true again n s mild
  judged-Mild again n panic s mild = choice-Mild true true again n s mild

  -- Whatever the node answers, the loop with n attempts sleeps n minutes at most, and leaves the
  -- slate and the stream as they are.
  pub verify_funds_bounded :
      (n : ℕ) (w : World lib ops) → Mild n w (verify_funds cl addr amount n w).1
  unfolding verify_funds judge
  verify_funds_bounded zero w = (omega arith, refl, refl)
  verify_funds_bounded (suc n) w =
      let (r, s) = poll cl addr w in
      judged-Mild (verify_funds cl addr amount n) n r s (verify_funds_bounded n)
