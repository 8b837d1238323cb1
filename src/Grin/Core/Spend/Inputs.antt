-- ===== src/Grin/Core/Spend/Inputs.antt =====
-- The loops of spend_coins over its inputs (src/grin/grin_core.rs): the sum of their values, and
-- the search for a commitment that stands twice.
use mw_btc_swap.Prelude.{
  ℕ, ◌+◌, ◌<◌, ◌≡◌, ◌≢◌, inl, inr, Text, text_eq, text_eq_iff, false, List, [], ◌∷◌, ok, Profile,
  u64_mod, add_u64, arith, Bool-cases,
}
use mw_btc_swap.Grin.Types.{MwCoin}
use mw_btc_swap.Grin.Core.Spend.{input_value, has_commitment, duplicate}

-- The sum of the values, with no bound.
abbrev pub total : List MwCoin → ℕ
total [] = 0
total (coin ∷ rest) = coin.value + total rest

input_value-add :
    (p : Profile) (v : ℕ) (coins : List MwCoin)
    → v + total coins < u64_mod
    → input_value p v coins ≡ ok (v + total coins)
unfolding input_value add_u64
input_value-add p v [] h = ground arith
input_value-add p v (coin ∷ rest) h = ground (arith, input_value-add p (v + coin.value) rest)

pub input_value-total :
    (p : Profile) (coins : List MwCoin)
    → total coins < u64_mod
    → input_value p 0 coins ≡ ok (total coins)
input_value-total p coins h = ground (arith, input_value-add p 0 coins)

-- No coin of the list has this commitment.
abbrev pub Lacks : Text → List MwCoin → Type 0
Lacks commitment [] = Unit
Lacks commitment (coin ∷ rest) = (commitment ≢ coin.commitment) × Lacks commitment rest

-- No two places of the list have the same commitment.
abbrev pub Distinct : List MwCoin → Type 0
Distinct [] = Unit
Distinct (coin ∷ rest) = Lacks coin.commitment rest × Distinct rest

has_commitment-Lacks :
    (c : Text) (coins : List MwCoin) → has_commitment c coins ≡ false → Lacks c coins
has_commitment-Lacks c [] h = tt
has_commitment-Lacks c (coin ∷ rest) h = elim (Bool-cases (text_eq c coin.commitment)) [
  | inl same ↦ absurd (ground arith)
  | inr differ ↦
      (ground (arith, text_eq_iff c coin.commitment), has_commitment-Lacks c rest (ground arith))
]

pub duplicate-Distinct :
    (before coins : List MwCoin) → duplicate before coins ≡ false → Distinct coins
unfolding duplicate
duplicate-Distinct before [] h = tt
duplicate-Distinct before (coin ∷ rest) h = (
  has_commitment-Lacks coin.commitment rest (ground arith),
  duplicate-Distinct (coin ∷ before) rest (ground arith),
)
