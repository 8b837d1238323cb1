-- ===== src/Prelude/Decimal.antt =====
-- Decimal text of the machine integers: `to_string`, `parse::<u64>`, `parse::<i64>`.
use mw_btc_swap.Prelude.Tests.{ltb→lt, ltb, leb, ◌==◌, if◌then◌else◌, Bool-cases}
use mw_btc_swap.Prelude.Strings.{Text}
use mw_btc_swap.Prelude.Int.{ℤ, pos, negsuc}
use mw_btc_swap.Prelude.Words.{u64_mod, i64_max}
use Prim.Native.Nat.{ℕ, zero, suc, ◌+◌, ◌-◌, ◌*◌, ◌/◌, ◌%◌, ◌≤◌, ◌<◌}
use mathlib.Core.Path.{◌≡◌, ap, ◌∙◌}
use mathlib.Core.Bool.{Bool, ◌&&◌}
use mathlib.Core.Logic.{inl, inr}
use mathlib.Core.Option.{Option, none, some}
use mathlib.Core.List.{[], ◌∷◌}
use native.Mathlib.Omega.{arith}

-- The digits of `n` in front of `out`, at most `fuel` of them.
digits : ℕ → ℕ → Text → Text
digits zero n out = out
digits (suc fuel) n out =
    let rest = digits fuel (n / 10) ((48 + n % 10) ∷ out) in
    if ltb n 10 then (48 + n) ∷ out else rest

-- A `u64` has at most twenty digits.
unfoldable pub to_string : ℕ → Text
unfolding digits
to_string n = digits 20 n []

is_digit : ℕ → Bool
is_digit c = leb 48 c && leb c 57

-- The digits are read into `n`; `none` past `bound`, as the checked operations of `from_str` do.
scan : ℕ → Text → ℕ → Option ℕ
unfolding is_digit
scan bound [] n = some n
scan bound (c ∷ s) n =
    let rest = scan bound s (n * 10 + (c - 48)) in
    if is_digit c && leb (n * 10 + (c - 48)) bound then rest else none

scan_digits : ℕ → Text → Option ℕ
scan_digits bound [] = none
scan_digits bound (c ∷ s) = scan bound (c ∷ s) 0

unfoldable pub parse_u64 : Text → Option ℕ
unfolding scan scan_digits
parse_u64 [] = none
parse_u64 (c ∷ s) = if c == b'+' then scan_digits (u64_mod - 1) s else scan (u64_mod - 1) (c ∷ s) 0

-- `negative n` is -n.
abbrev negative : ℕ → ℤ
negative zero = pos 0
negative (suc n) = negsuc n

abbrev map_int : (ℕ → ℤ) → Option ℕ → Option ℤ
map_int f none = none
map_int f (some n) = some (f n)

unfoldable pub parse_i64 : Text → Option ℤ
unfolding scan scan_digits
parse_i64 [] = none
parse_i64 (c ∷ s) =
    if c == b'-'
    then map_int negative (scan_digits (i64_max + 1) s)
    else map_int pos (if c == b'+' then scan_digits i64_max s else scan i64_max (c ∷ s) 0)

pow_ten : ℕ → ℕ
pow_ten zero = 1
pow_ten (suc k) = 10 * pow_ten k

scan-digits :
    (bound fuel n : ℕ) (out : Text)
    → n < pow_ten fuel
    → n ≤ bound
    → scan bound (digits fuel n out) 0 ≡ scan bound out n
unfolding digits scan pow_ten
scan-digits bound zero n out h k = let e : 0 ≡ n = omega arith in rw (← e)
scan-digits bound (suc fuel) n out h k = elim (Bool-cases (ltb n 10)) [
  | inl small ↦ rw small (ground arith)
  | inr large ↦ rw large (
      scan-digits bound fuel (n / 10) ((48 + n % 10) ∷ out) (ground arith) (omega arith)
      ∙ ground arith)
]

abbrev HeadIsDigit : Text → Type 0
HeadIsDigit [] = ⊥
HeadIsDigit (c ∷ s) = (48 ≤ c) × (c ≤ 57)

digits-HeadIsDigit : (fuel n : ℕ) (out : Text) → HeadIsDigit (digits (suc fuel) n out)
unfolding digits
digits-HeadIsDigit zero n out = ground arith
digits-HeadIsDigit (suc fuel) n out = elim (Bool-cases (ltb n 10)) [
  | inl small ↦ rw small (ground arith)
  | inr large ↦ rw large (digits-HeadIsDigit fuel (n / 10) ((48 + n % 10) ∷ out))
]

parse_u64-HeadIsDigit : (s : Text) → HeadIsDigit s → parse_u64 s ≡ scan (u64_mod - 1) s 0
unfolding parse_u64
parse_u64-HeadIsDigit [] h = absurd h
parse_u64-HeadIsDigit (c ∷ s) h = ground arith

parse_i64-HeadIsDigit : (s : Text) → HeadIsDigit s → parse_i64 s ≡ map_int pos (scan i64_max s 0)
unfolding parse_i64
parse_i64-HeadIsDigit [] h = absurd h
parse_i64-HeadIsDigit (c ∷ s) h = ground arith

pub parse_u64-to_string : (n : ℕ) → n < u64_mod → parse_u64 (to_string n) ≡ some n
unfolding to_string pow_ten scan
parse_u64-to_string n h =
    parse_u64-HeadIsDigit (digits 20 n []) (digits-HeadIsDigit 19 n [])
    ∙ scan-digits (u64_mod - 1) 20 n [] (omega arith) (omega arith)

pub parse_i64-to_string : (n : ℕ) → n ≤ i64_max → parse_i64 (to_string n) ≡ some (pos n)
unfolding to_string pow_ten scan
parse_i64-to_string n h =
    parse_i64-HeadIsDigit (digits 20 n []) (digits-HeadIsDigit 19 n [])
    ∙ ap (map_int pos) (scan-digits i64_max 20 n [] (omega arith) h)

abbrev pub IsDecimal : Text → Type 0
IsDecimal [] = Unit
IsDecimal (c ∷ s) = (c < 128) × IsDecimal s

digits-IsDecimal : (fuel n : ℕ) (out : Text) → IsDecimal out → IsDecimal (digits fuel n out)
unfolding digits
digits-IsDecimal zero n out h = h
digits-IsDecimal (suc fuel) n out h = elim (Bool-cases (ltb n 10)) [
  | inl small ↦ rw small (omega (arith, ltb→lt n 10 small), h)
  | inr large ↦ rw large (digits-IsDecimal fuel (n / 10) ((48 + n % 10) ∷ out) (omega arith, h))
]

-- A number is printed in ASCII.
pub to_string-IsDecimal : (n : ℕ) → IsDecimal (to_string n)
unfolding to_string
to_string-IsDecimal n = digits-IsDecimal 20 n [] tt
