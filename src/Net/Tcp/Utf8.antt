-- ===== src/Net/Tcp/Utf8.antt =====
-- UTF-8 validity, as `String` requires it of its bytes.
use mw_btc_swap.Prelude.{
  ℕ, zero, suc, Text, Bool, true, false, ◌&&◌, ◌||◌, [], ◌∷◌, leb, ltb, ◌==◌, if◌then◌else◌, ◌<◌,
  ◌≡◌, ◌++◌, refl, arith, and_elim, and_intro,
}

is_lead : ℕ → Bool
is_lead c = ltb c 128 || (leb 194 c && leb c 244)

-- The number of continuation bytes behind a lead byte, and the range of the first of them.
tail_count : ℕ → ℕ
tail_count c = if ltb c 128 then 0 else if ltb c 224 then 1 else if ltb c 240 then 2 else 3

tail_low : ℕ → ℕ
tail_low c = if c == 224 then 160 else if c == 240 then 144 else 128

tail_high : ℕ → ℕ
tail_high c = if c == 237 then 159 else if c == 244 then 143 else 191

utf8_from : ℕ → ℕ → ℕ → Text → Bool
unfolding is_lead tail_count tail_low tail_high
utf8_from zero low high [] = true
utf8_from (suc n) low high [] = false
utf8_from zero low high (c ∷ s) = is_lead c && utf8_from (tail_count c) (tail_low c) (tail_high c) s
utf8_from (suc n) low high (c ∷ s) = (leb low c && leb c high) && utf8_from n 128 191 s

unfoldable pub is_utf8 : Text → Bool
unfolding utf8_from
is_utf8 s = utf8_from 0 0 0 s

abbrev pub IsAscii : Text → Type 0
IsAscii [] = Unit
IsAscii (c ∷ s) = (c < 128) × IsAscii s

ascii-utf8_from : (low high : ℕ) (s : Text) → IsAscii s → utf8_from zero low high s ≡ true
unfolding utf8_from
ascii-utf8_from low high [] h = refl
ascii-utf8_from low high (c ∷ s) h = ground (arith, ascii-utf8_from 128 191 s h.1)

pub ascii-is_utf8 : (s : Text) → IsAscii s → is_utf8 s ≡ true
unfolding is_utf8
ascii-is_utf8 s h = ascii-utf8_from 0 0 s h

utf8_from-newline :
    (n low high : ℕ) (s : Text)
    → utf8_from n low high s ≡ true
    → utf8_from n low high (s ++ 10 ∷ []) ≡ true
unfolding utf8_from
utf8_from-newline zero low high [] h = refl
utf8_from-newline (suc n) low high [] h = cc
utf8_from-newline zero low high (c ∷ s) h =
    let parts = and_elim (is_lead c) (utf8_from (tail_count c) (tail_low c) (tail_high c) s) h in
    and_intro parts.0 (utf8_from-newline (tail_count c) (tail_low c) (tail_high c) s parts.1)
utf8_from-newline (suc n) low high (c ∷ s) h =
    let parts = and_elim (leb low c && leb c high) (utf8_from n 128 191 s) h in
    and_intro parts.0 (utf8_from-newline n 128 191 s parts.1)

pub is_utf8-newline : (s : Text) → is_utf8 s ≡ true → is_utf8 (s ++ 10 ∷ []) ≡ true
unfolding is_utf8
is_utf8-newline s h = utf8_from-newline 0 0 0 s h
