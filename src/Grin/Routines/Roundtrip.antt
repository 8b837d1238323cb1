-- ===== src/Grin/Routines/Roundtrip.antt =====
-- What is read from the text of a proof context, and of a coin (src/grin/grin_routines.rs).
use mw_btc_swap.Prelude.{Text, ◌≡◌, ◌⊎◌, inl, inr, sym, ap, text_eq, true, false, some, ok}
use mw_btc_swap.Prelude.Results.{some_of}
use mw_btc_swap.Bitcoin.Crate.{BitcoinLib}
use mw_btc_swap.Grin.Crate.{GrinTypes, GrinCrate, SerMpCtx}
use mw_btc_swap.Grin.Routines.{
  MpbpContext, zeros, serialize_secret_key, deserialize_secret_key, serialize_commitment,
  deserialize_commitment, serialize_grin_public_key, deserialize_grin_pub_key, ser_obj, to_string,
  from_string,
}

-- The crates read back what they write: hexadecimal digits, points, and secrets, of which
-- `from_slice` refuses the zero key, whose digits are zeros and no other key's.
pub record ReadsBack {lib : BitcoinLib} {t : GrinTypes} (g : GrinCrate lib t) : Type 0 where
  pub hex_decode-encode : (s : Text) → lib.hex_decode (lib.hex_encode s) ≡ some s
  pub secret_from_slice-to_bytes :
      (k : t.SecretKey)
      → ((k ≡ g.zero_key) × (text_eq (lib.hex_encode (g.secret_to_bytes k)) zeros ≡ true))
        ⊎ ((text_eq (lib.hex_encode (g.secret_to_bytes k)) zeros ≡ false)
            × (g.secret_from_slice (g.secret_to_bytes k) ≡ some k))
  pub public_from_slice-to_bytes :
      (k : t.PublicKey) → g.is_valid k ≡ true → g.public_from_slice (g.public_to_bytes k) ≡ some k
  pub commit_from_vec-to_bytes : (c : t.Commitment) → g.commit_from_vec (g.commit_to_bytes c) ≡ c
  pub ctx_from_text-to_text :
      (c : SerMpCtx) (s : Text) → g.ctx_to_text c ≡ some s → g.ctx_from_text s ≡ some c

module _ {lib : BitcoinLib} {t : GrinTypes} {g : GrinCrate lib t} (back : ReadsBack g) where
  pub deserialize-serialize_secret_key :
      (k : t.SecretKey) → deserialize_secret_key g (serialize_secret_key g k) ≡ ok k
  unfolding deserialize_secret_key serialize_secret_key
  deserialize-serialize_secret_key k = elim (back.secret_from_slice-to_bytes k) [
    | inl (is_zero, digits) ↦ rw digits (ap ok (sym is_zero))
    | inr (digits, reads) ↦ rw digits (rw (back.hex_decode-encode (g.secret_to_bytes k)) (rw reads))
  ]

  pub deserialize-serialize_commitment :
      (c : t.Commitment) → deserialize_commitment g (serialize_commitment g c) ≡ ok c
  unfolding deserialize_commitment serialize_commitment
  deserialize-serialize_commitment c =
      rw (back.hex_decode-encode (g.commit_to_bytes c)) (ap ok (back.commit_from_vec-to_bytes c))

  deserialize-serialize_public_key :
      (k : t.PublicKey)
      → g.is_valid k ≡ true
      → deserialize_grin_pub_key g (serialize_grin_public_key g k) ≡ ok k
  unfolding deserialize_grin_pub_key serialize_grin_public_key
  deserialize-serialize_public_key k valid =
      rw (back.hex_decode-encode (g.public_to_bytes k))
        (rw (back.public_from_slice-to_bytes k valid))

  -- A proof context whose two points are valid is read from the text that it is written to, also
  -- with the zero key in it; the crates read back what they write, and only the zero key has the
  -- digits of zero.
  pub from_string-to_string :
      (ctx : MpbpContext t) {s : Text}
      → g.is_valid ctx.t_1 ≡ true
      → g.is_valid ctx.t_2 ≡ true
      → to_string g ctx ≡ ok s
      → from_string g s ≡ ok ctx
  unfolding to_string from_string
  from_string-to_string ctx {s} valid1 valid2 written =
      rw (back.ctx_from_text-to_text (ser_obj g ctx) s (some_of _ written)) (
        rw (deserialize-serialize_public_key ctx.t_1 valid1) (
          rw (deserialize-serialize_public_key ctx.t_2 valid2) (
            rw (deserialize-serialize_secret_key ctx.shared_nonce) (
              rw (deserialize-serialize_secret_key ctx.tau_x)
                (rw (deserialize-serialize_commitment ctx.commit))))))
