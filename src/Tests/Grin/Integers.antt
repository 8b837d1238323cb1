-- ===== src/Tests/Grin/Integers.antt =====
-- The integers as a group, which stands for the keys and the points of the curve in the tests.
use mw_btc_swap.Prelude.{ℕ, suc, ◌+◌, ◌-◌, ◌≡◌, ℤ, pos, negsuc, arith, leb, if◌then◌else◌}
use mw_btc_swap.Grin.Pedersen.{Points}

abbrev pub pos_part : ℤ → ℕ
pos_part (pos n) = n
pos_part (negsuc n) = 0

abbrev pub neg_part : ℤ → ℕ
neg_part (pos n) = 0
neg_part (negsuc n) = suc n

-- a - b, as an integer.
abbrev sub_ℕ : ℕ → ℕ → ℤ
sub_ℕ a b = if leb b a then pos (a - b) else negsuc (b - a - 1)

infixl 65 ◌+ℤ◌ ◌-ℤ◌
unfoldable pub ◌+ℤ◌ : ℤ → ℤ → ℤ
a +ℤ b = sub_ℕ (pos_part a + pos_part b) (neg_part a + neg_part b)

unfoldable pub ◌-ℤ◌ : ℤ → ℤ → ℤ
a -ℤ b = sub_ℕ (pos_part a + neg_part b) (neg_part a + pos_part b)

+ℤ_parts :
    (a b : ℤ)
    → pos_part (a +ℤ b) + neg_part a + neg_part b ≡ neg_part (a +ℤ b) + pos_part a + pos_part b
unfolding ◌+ℤ◌
+ℤ_parts a b = ground arith

-ℤ_parts :
    (a b : ℤ)
    → pos_part (a -ℤ b) + neg_part a + pos_part b ≡ neg_part (a -ℤ b) + pos_part a + neg_part b
unfolding ◌-ℤ◌
-ℤ_parts a b = ground arith

eq_of_parts : (a b : ℤ) → pos_part a + neg_part b ≡ pos_part b + neg_part a → a ≡ b
eq_of_parts a b h = ground arith

ruleset int_laws = (arith, +ℤ_parts, -ℤ_parts, eq_of_parts)

pub +ℤ_assoc : (a b c : ℤ) → a +ℤ b +ℤ c ≡ a +ℤ (b +ℤ c)
+ℤ_assoc a b c = eq_of_parts (a +ℤ b +ℤ c) (a +ℤ (b +ℤ c)) (omega int_laws)

pub +ℤ_comm : (a b : ℤ) → a +ℤ b ≡ b +ℤ a
+ℤ_comm a b = eq_of_parts (a +ℤ b) (b +ℤ a) (omega int_laws)

pub +ℤ_zero : (a : ℤ) → a +ℤ pos 0 ≡ a
unfolding ◌+ℤ◌
+ℤ_zero a = ground arith

pub -ℤ+ℤ : (a b : ℤ) → a -ℤ b +ℤ b ≡ a
-ℤ+ℤ a b = eq_of_parts (a -ℤ b +ℤ b) a (omega int_laws)

pub neg_cancels : (s x : ℤ) → s +ℤ x +ℤ (pos 0 -ℤ s) ≡ x
neg_cancels s x = eq_of_parts (s +ℤ x +ℤ (pos 0 -ℤ s)) x (omega int_laws)

pub pos_add : (a b : ℕ) → pos (a + b) ≡ pos a +ℤ pos b
pos_add a b = eq_of_parts (pos (a + b)) (pos a +ℤ pos b) (omega int_laws)

abbrev pub int_points : Points
int_points = record {
  Point = ℤ;
  plus = λ a b. a +ℤ b;
  origin = pos 0;
  plus_assoc = +ℤ_assoc;
  plus_comm = +ℤ_comm;
  plus_origin = +ℤ_zero;
}
