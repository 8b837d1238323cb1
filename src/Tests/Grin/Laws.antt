-- ===== src/Tests/Grin/Laws.antt =====
-- The laws of the Grin crates hold of the small instance.
use mw_btc_swap.Prelude.{
  ℤ, pos, negsuc, ◌≡◌, ◌⊎◌, inl, inr, refl, sym, ap, ◌∙◌, Text, codes, text_eq, zero, suc, true,
  false, some, List, [], ◌∷◌,
}
use mw_btc_swap.Prelude.Results.{some_injective}
use mw_btc_swap.Grin.Crate.{Output, SerMpCtx}
use mw_btc_swap.Grin.Routines.{zeros}
use mw_btc_swap.Grin.Routines.Roundtrip.{ReadsBack}
use mw_btc_swap.Grin.Core.Recv.Witness.{Schnorr}
use mw_btc_swap.Grin.Pedersen.{sum_of, Pedersen, Bookkeeping}
use mw_btc_swap.Tests.Grin.Integers.{◌+ℤ◌, ◌-ℤ◌, -ℤ+ℤ, neg_cancels, pos_add, int_points}
use mw_btc_swap.Tests.Grin.Toy.{
  types, toy_grin, write_int, read_int, or_zero, write_key, put, take_text, cons_part, write_ctx,
  read_ctx, to_pairs, of_pairs, sum_ints,
}

read_int-write_int : (k : ℤ) → read_int (write_int k) ≡ some k
read_int-write_int (pos n) = refl
read_int-write_int (negsuc n) = refl

take_text-put : (s out : Text) → take_text (put s out) ≡ (s, out)
take_text-put [] out = refl
take_text-put (c ∷ s) out = ap (cons_part c) (take_text-put s out)

of_pairs-to_pairs : (o : List (Output types)) → of_pairs (to_pairs o) ≡ o
of_pairs-to_pairs [] = refl
of_pairs-to_pairs (o ∷ os) = ap (λ rest. o ∷ rest) (of_pairs-to_pairs os)

pub toy-Schnorr : Schnorr toy_grin
toy-Schnorr = record {
  sign-extra = λ m k x n r q f sig apt signs adapts.
      let is_sig = some_injective signs in
      let is_apt = some_injective adapts in
      (
        sig,
        apt,
        read_int-write_int sig,
        read_int-write_int apt,
        ap (λ z. some (z +ℤ x)) (sym is_sig) ∙ ap some is_apt,
      );
  add-neg = λ s x a adds. (
    pos 0 -ℤ s,
    refl,
    ap (λ z. some (z +ℤ (pos 0 -ℤ s))) (sym (some_injective adds)) ∙ ap some (neg_cancels s x),
  );
}

abbrev pub toy_pedersen : Pedersen toy_grin int_points
toy_pedersen = record {
  point = λ c. c;
  value = pos;
  secret = λ k. k;
  blind = λ b. b;
  value_zero = refl;
  value_add = pos_add;
  commit_lem = λ v k c commits. sym (some_injective commits);
  blind-from_secret_key = λ k. refl;
  secret-key = λ b k same. sym (some_injective same);
  blind-split = λ a b c split. ap (λ z. z +ℤ b) (sym (some_injective split)) ∙ -ℤ+ℤ a b;
  blind-blind_sum = λ chain s b summed.
      ap (λ z. z +ℤ sum_ints s.negative_blinding_factors) (sym (some_injective summed))
      ∙ -ℤ+ℤ (sum_ints s.positive_blinding_factors) (sum_ints s.negative_blinding_factors);
}

pub toy_book : Bookkeeping toy_pedersen
toy_book = record {
  outputs-empty = refl;
  inputs-transaction_new = λ i o k. refl;
  outputs-transaction_new =
      λ i o k. ap (sum_of int_points (λ (x : Output types). x.commit)) (of_pairs-to_pairs o);
  inputs-with_output = λ o tx. refl;
  outputs-with_output = λ o tx. refl;
  inputs-with_offset = λ b tx. refl;
  outputs-with_offset = λ b tx. refl;
  tx-fill_round_1 = λ chain c s s' same. ap (λ z. z.tx) (sym (some_injective same));
  offset-fill_round_1 = λ chain c s s' same. ap (λ z. z.offset) (sym (some_injective same));
  tx-fill_round_2 = λ chain k n s s' same. ap (λ z. z.tx) (sym (some_injective same));
  tx-update_kernel =
      λ s s' tx same is_tx. (tx, ap (λ z. z.tx) (sym (some_injective same)) ∙ is_tx, refl, refl);
}

read_ctx-write_ctx : (c : SerMpCtx) → read_ctx (write_ctx c) ≡ some c
read_ctx-write_ctx c =
    rw (take_text-put c.t_1 (put c.t_2 (put c.shared_nonce (put c.commit (put c.tau_x []))))) (
      rw (take_text-put c.t_2 (put c.shared_nonce (put c.commit (put c.tau_x [])))) (
        rw (take_text-put c.shared_nonce (put c.commit (put c.tau_x [])))
          (rw (take_text-put c.commit (put c.tau_x [])) (rw (take_text-put c.tau_x [])))))

write_key-cases :
    (k : ℤ)
    → ((k ≡ pos 0) × (text_eq (write_key k) zeros ≡ true))
      ⊎ ((text_eq (write_key k) zeros ≡ false) × (read_int (write_key k) ≡ some k))
unfolding codes text_eq
write_key-cases (pos zero) = inl (refl, refl)
write_key-cases (pos (suc n)) = inr (refl, refl)
write_key-cases (negsuc n) = inr (refl, refl)

pub toy_back : ReadsBack toy_grin
toy_back = record {
  hex_decode-encode = λ s. refl;
  secret_from_slice-to_bytes = write_key-cases;
  public_from_slice-to_bytes = λ k valid. read_int-write_int k;
  commit_from_vec-to_bytes = λ c. ap or_zero (read_int-write_int c);
  ctx_from_text-to_text =
      λ c s written. ap read_ctx (sym (some_injective written)) ∙ read_ctx-write_ctx c;
}
