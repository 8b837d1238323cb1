-- ===== src/Prelude/Words.antt =====
-- `u64` arithmetic. An overflow panics in a debug build and wraps in a release build.
use mw_btc_swap.Prelude.Tests.{ltb, leb, if◌then◌else◌}
use mw_btc_swap.Prelude.Results.{Outcome, ok, panic}
use Prim.Native.Nat.{ℕ, ◌+◌, ◌-◌, ◌%◌, ◌^◌}

pub data Profile : Type 0 where
  debug release : Profile

abbrev pub u64_mod : ℕ
u64_mod = 2 ^ 64

abbrev pub i64_max : ℕ
i64_max = 2 ^ 63 - 1

-- What an overflowing operation gives: `wrapped` is the result in a release build.
abbrev pub overflow : Profile → ℕ → Outcome ℕ
overflow debug wrapped = panic
overflow release wrapped = ok wrapped

unfoldable pub add_u64 : Profile → ℕ → ℕ → Outcome ℕ
add_u64 p a b = if ltb (a + b) u64_mod then ok (a + b) else overflow p ((a + b) % u64_mod)

unfoldable pub sub_u64 : Profile → ℕ → ℕ → Outcome ℕ
sub_u64 p a b = if leb b a then ok (a - b) else overflow p (a + u64_mod - b)
