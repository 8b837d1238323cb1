-- ===== src/Bitcoin/Amount.antt =====
-- The conversion of src/bitcoin/bitcoin_core.rs:131 from an amount in bitcoins, an `f32`, to
-- satoshis: `(e.amount * 100_000_000.0) as u64`.
pub mod Precision
use mw_btc_swap.Prelude.{
  ℕ, zero, suc, ◌+◌, ◌-◌, ◌*◌, ◌/◌, ◌%◌, ◌^◌, ◌&&◌, ◌||◌, ℤ, pos, negsuc, u64_mod, ltb, ◌==◌,
  if◌then◌else◌,
}

-- A finite `f32` that is not negative: `mantissa * 2 ^ exponent`, the mantissa below 2 ^ 24.
pub record F32 : Type 0 where
  pub mantissa : ℕ
  pub exponent : ℤ

abbrev pub precision : ℕ
precision = 2 ^ 24

-- How far the product is shifted to the right, until it has at most 24 bits: it has at most 51.
shift_for : ℕ → ℕ → ℕ
shift_for zero n = 0
shift_for (suc fuel) n =
    let rest = shift_for fuel (n / 2) in if ltb n precision then 0 else suc rest

-- Division by 2 ^ s, to the nearest number, ties to even.
round_shift : ℕ → ℕ → ℕ
round_shift n zero = n
round_shift n (suc s) =
    let q = n / 2 ^ suc s in
    let r = n % 2 ^ suc s in if ltb (2 ^ s) r || (r == 2 ^ s && q % 2 == 1) then q + 1 else q

-- `q * 2 ^ (s + e)`, cut to a whole number and to the range of `u64`.
scale : ℕ → ℕ → ℤ → ℕ
scale q s (pos e) = q * 2 ^ (s + e)
scale q s (negsuc e) = if ltb s (suc e) then q / 2 ^ (suc e - s) else q * 2 ^ (s - suc e)

abbrev pub saturate : ℕ → ℕ
saturate n = if ltb n u64_mod then n else u64_mod - 1

unfoldable pub sat_amount : F32 → ℕ
unfolding shift_for round_shift scale
sat_amount x =
    let n = x.mantissa * 100000000 in
    let s = shift_for 27 n in saturate (scale (round_shift n s) s x.exponent)
