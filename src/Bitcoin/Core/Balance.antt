-- ===== src/Bitcoin/Core/Balance.antt =====
-- The balance that src/bitcoin/bitcoin_core.rs computes for an address.
use mw_btc_swap.Prelude.{
  ℕ, ◌+◌, ◌-◌, ◌%◌, ◌<◌, ◌≤◌, ◌≡◌, List, [], ◌∷◌, ok, panic, Profile, debug, release, u64_mod,
  add_u64, ltb, Bool-cases, inl, inr, if◌then◌else◌, arith,
}
use mw_btc_swap.Prelude.Words.{overflow}
use mw_btc_swap.Bitcoin.Amount.{precision, sat_amount}
use mw_btc_swap.Bitcoin.Amount.Precision.{sat_amount-even, sat_amount-lt}
use mw_btc_swap.Bitcoin.Responses.{Utxo}
use mw_btc_swap.Bitcoin.Core.{sum_utxos}

-- The sum of the outputs' amounts, with no bound.
abbrev pub total : List Utxo → ℕ
total [] = 0
total (e ∷ rest) = sat_amount e.amount + total rest

sum_utxos-debug :
    (b : ℕ) (l : List Utxo)
    → b < u64_mod
    → sum_utxos debug b l ≡ (if ltb (b + total l) u64_mod then ok (b + total l) else panic)
unfolding sum_utxos add_u64
sum_utxos-debug b [] h = ground arith
sum_utxos-debug b (e ∷ l) h = elim (Bool-cases (ltb (b + sat_amount e.amount) u64_mod)) [
  | inl fits ↦
      rw fits (rw (sum_utxos-debug (b + sat_amount e.amount) l (ground arith)) (ground arith))
  | inr large ↦ rw large (ground arith)
]

sum_utxos-release :
    (b : ℕ) (l : List Utxo) → b < u64_mod → sum_utxos release b l ≡ ok ((b + total l) % u64_mod)
unfolding sum_utxos add_u64
sum_utxos-release b [] h = ground arith
sum_utxos-release b (e ∷ l) h = elim (Bool-cases (ltb (b + sat_amount e.amount) u64_mod)) [
  | inl fits ↦
      rw fits (rw (sum_utxos-release (b + sat_amount e.amount) l (ground arith)) (ground arith))
  | inr large ↦
      rw large (
        rw (sum_utxos-release ((b + sat_amount e.amount) % u64_mod) l (omega arith)) (ground arith))
]

-- The loop over the unspent outputs gives the sum of their amounts where that is a u64; where it
-- is not, a debug build panics and a release build gives the sum modulo 2^64.
pub sum_utxos-total :
    (p : Profile) (l : List Utxo)
    → sum_utxos p 0 l
      ≡ (if ltb (total l) u64_mod then ok (total l) else overflow p (total l % u64_mod))
sum_utxos-total debug l = rw (sum_utxos-debug 0 l (omega arith)) (ground arith)
sum_utxos-total release l = rw (sum_utxos-release 0 l (omega arith)) (ground arith)

-- An address with one unspent output, whose amount is an f32 with a mantissa below 2^24, never
-- shows an odd balance from 2^24 satoshis (0.16777216 bitcoin) on and below 2^64 - 1.
pub single_output-even :
    (p : Profile) (e : Utxo) {b : ℕ}
    → e.amount.mantissa < precision
    → sum_utxos p 0 (e ∷ []) ≡ ok b
    → precision ≤ b
    → b < u64_mod - 1
    → b % 2 ≡ 0
unfolding sum_utxos add_u64
single_output-even p e {b} small run large fits =
    let shown : sat_amount e.amount ≡ b = ground (arith, sat_amount-lt e.amount) in
    rw (← shown) (sat_amount-even e.amount small (rw shown large) (rw shown fits))
