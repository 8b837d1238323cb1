-- ===== src/Bitcoin/Amount/Precision.antt =====
-- Single precision is not enough for satoshis (src/bitcoin/bitcoin_core.rs:131).
use mw_btc_swap.Prelude.{
  ℕ, zero, suc, ◌+◌, ◌-◌, ◌*◌, ◌/◌, ◌%◌, ◌^◌, ◌<◌, ◌≤◌, ◌≡◌, inl, inr, refl, sym, ap, ◌∙◌, ℤ, pos,
  negsuc, u64_mod, arith, ltb, Bool-cases,
}
use native.Mathlib.Nat.{pow-suc, pow-succ', div-div-eq-div-mul}
use mw_btc_swap.Bitcoin.Amount.{F32, precision, shift_for, round_shift, scale, saturate, sat_amount}

sat_amount_tenth : sat_amount (record { mantissa = 13421773; exponent = negsuc 26 }) ≡ 10000000
unfolding sat_amount
sat_amount_tenth = refl

sat_amount_half : sat_amount (record { mantissa = 8388608; exponent = negsuc 23 }) ≡ 50000000
unfolding sat_amount
sat_amount_half = refl

double : (q t : ℕ) → q * 2 ^ suc t ≡ 2 * (q * 2 ^ t)
double q t = rw pow-suc (omega arith)

half-pow : (n s : ℕ) → n / 2 / 2 ^ s ≡ n / 2 ^ suc s
half-pow n s = div-div-eq-div-mul n 2 (2 ^ s) ∙ ap (λ k. n / k) (sym (pow-succ' 2 s))

shifted-even : (q t : ℕ) → q ≤ precision → precision ≤ q * 2 ^ t → (q * 2 ^ t) % 2 ≡ 0
shifted-even q zero h k = omega arith
shifted-even q (suc t) h k = omega (arith, double q t)

shift_for-lt : (fuel n : ℕ) → n < precision * 2 ^ fuel → n / 2 ^ shift_for fuel n < precision
unfolding shift_for
shift_for-lt zero n h = omega arith
shift_for-lt (suc fuel) n h = elim (Bool-cases (ltb n precision)) [
  | inl small ↦ rw small (ground arith)
  | inr large ↦ rw large (
      rw (← half-pow n (shift_for fuel (n / 2)))
        (shift_for-lt fuel (n / 2) (omega (arith, pow-succ' 2 fuel))))
]

round_shift-le : (n s : ℕ) → n / 2 ^ s < precision → round_shift n s ≤ precision
unfolding round_shift
round_shift-le n zero h = omega arith
round_shift-le n (suc s) h = ground arith

scale-even : (q s : ℕ) (e : ℤ) → q ≤ precision → precision ≤ scale q s e → scale q s e % 2 ≡ 0
unfolding scale
scale-even q s (pos e) h k = shifted-even q (s + e) h k
scale-even q s (negsuc e) h k = elim (Bool-cases (ltb s (suc e))) [
  | inl cut ↦ rw cut (omega (arith, rw cut at k))
  | inr kept ↦ rw kept (shifted-even q (s - suc e) h (rw kept at k))
]

saturate-inv : (n : ℕ) → saturate n < u64_mod - 1 → saturate n ≡ n
saturate-inv n h = ground arith

-- From 2^24 satoshis on, an f32 amount with a mantissa below 2^24 is read as an even number of
-- satoshis, unless it is cut to the largest u64.
pub sat_amount-even :
    (x : F32)
    → x.mantissa < precision
    → precision ≤ sat_amount x
    → sat_amount x < u64_mod - 1
    → sat_amount x % 2 ≡ 0
unfolding sat_amount
sat_amount-even x small large fits =
    let n = x.mantissa * 100000000 in
    let s = shift_for 27 n in
    let q = round_shift n s in
    let exact = saturate-inv (scale q s x.exponent) fits in
    rw exact (
      scale-even q s x.exponent (round_shift-le n s (shift_for-lt 27 n (omega arith)))
        (rw exact at large))

saturate-lt : (n : ℕ) → saturate n < u64_mod
saturate-lt n = ground arith

pub sat_amount-lt : (x : F32) → sat_amount x < u64_mod
unfolding sat_amount
sat_amount-lt x =
    let n = x.mantissa * 100000000 in
    let s = shift_for 27 n in saturate-lt (scale (round_shift n s) s x.exponent)
