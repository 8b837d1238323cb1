-- ===== src/Grin/Routines.antt =====
-- src/grin/grin_routines.rs: keys and commitments as hexadecimal text, and the rounds of a
-- bulletproof of two parties.
pub mod Roundtrip
use mw_btc_swap.Prelude.{
  ℕ, Text, codes, text_eq, Option, some, List, [], ◌∷◌, Outcome, ok, panic, unwrap_option,
  if◌then◌else◌, none,
}
use mw_btc_swap.Prelude.Results.{◌>>=◌ as ◌>>=ₒ◌}
use mw_btc_swap.Prelude.Actions.{Action, lift, ◌>>=◌, ◌>>◌}
use mw_btc_swap.Bitcoin.Crate.{BitcoinLib}
use mw_btc_swap.Grin.Crate.{GrinTypes, GrinCrate, Multisig, Context, SerMpCtx}
use mw_btc_swap.Grin.Types.{MwCoin}

-- `MPBPContext`, without its source of randomness and its curve.
pub record MpbpContext (t : GrinTypes) : Type 0 where
  pub t_1 : t.PublicKey
  pub t_2 : t.PublicKey
  pub amount : ℕ
  pub shared_nonce : t.SecretKey
  pub tau_x : t.SecretKey
  pub commit : t.Commitment

-- The fields of `GrinCore` that make transactions. `rng` holds the keys that the system's source
-- of randomness will give; every generator of the program is that source.
pub record GrinCore (t : GrinTypes) : Type 0 where
  pub rng : List t.SecretKey
  pub chain : t.Keychain

abbrev take_key : {t : GrinTypes} → List t.SecretKey → Action (GrinCore t) t.SecretKey
take_key [] s = (panic, s)
take_key (k ∷ ks) s = (ok k, record s { rng = ks })

-- `create_secret_key(rng, secp)`
unfoldable pub create_secret_key : {t : GrinTypes} → Action (GrinCore t) t.SecretKey
create_secret_key s = take_key s.rng s

-- `r.unwrap()`, `r.expect(..)` of a crate's call.
abbrev pub need : {t : GrinTypes} {A : Type 0} → Option A → Action (GrinCore t) A
need o = lift (unwrap_option o)

abbrev pub zeros : Text
zeros = codes "0000000000000000000000000000000000000000000000000000000000000000"

module _ {lib : BitcoinLib} {t : GrinTypes} (g : GrinCrate lib t) where
  unfoldable pub serialize_secret_key : t.SecretKey → Text
  serialize_secret_key key = lib.hex_encode (g.secret_to_bytes key)

  unfoldable pub deserialize_secret_key : Text → Outcome t.SecretKey
  deserialize_secret_key key =
      if text_eq key zeros
      then ok g.zero_key
      else (unwrap_option (lib.hex_decode key) >>=ₒ λ bytes.
          unwrap_option (g.secret_from_slice bytes))

  unfoldable pub serialize_commitment : t.Commitment → Text
  serialize_commitment commitment = lib.hex_encode (g.commit_to_bytes commitment)

  unfoldable pub deserialize_commitment : Text → Outcome t.Commitment
  deserialize_commitment commitment =
      unwrap_option (lib.hex_decode commitment) >>=ₒ λ bytes. ok (g.commit_from_vec bytes)

  unfoldable pub serialize_grin_public_key : t.PublicKey → Text
  serialize_grin_public_key pk = lib.hex_encode (g.public_to_bytes pk)

  unfoldable pub deserialize_grin_pub_key : Text → Outcome t.PublicKey
  deserialize_grin_pub_key str = unwrap_option (lib.hex_decode str) >>=ₒ λ pk_bytes.
      unwrap_option (g.public_from_slice pk_bytes)

  unfoldable pub sig_extract_s : t.Signature → Outcome t.SecretKey
  sig_extract_s sig = unwrap_option (g.secret_from_slice (g.raw_s sig))

  unfoldable pub create_minimal_ctx : t.SecretKey → t.SecretKey → ℕ → t.FeeFields → Context t
  create_minimal_ctx sec_key sec_nonce amount fee = record {
    sec_key = sec_key;
    sec_nonce = sec_nonce;
    initial_sec_key = sec_key;
    initial_sec_nonce = sec_nonce;
    amount = amount;
    fee = some fee;
  }

  -- `MWCoin::new`
  unfoldable pub new_coin : t.Commitment → t.SecretKey → ℕ → MwCoin
  unfolding serialize_commitment serialize_secret_key
  new_coin commitment blinding_factor value = record {
    commitment = serialize_commitment commitment;
    blinding_factor = serialize_secret_key blinding_factor;
    value = value;
  }

  -- `MPBPContext::new`
  unfoldable pub new : t.SecretKey → ℕ → t.Commitment → MpbpContext t
  new shared_nonce amount commitment = record {
    t_1 = g.new_public_key;
    t_2 = g.new_public_key;
    amount = amount;
    shared_nonce = shared_nonce;
    tau_x = g.zero_key;
    commit = commitment;
  }

  abbrev pub ser_obj : MpbpContext t → SerMpCtx
  ser_obj self = record {
    t_1 = serialize_grin_public_key self.t_1;
    t_2 = serialize_grin_public_key self.t_2;
    amount = self.amount;
    shared_nonce = serialize_secret_key self.shared_nonce;
    commit = serialize_commitment self.commit;
    tau_x = serialize_secret_key self.tau_x;
  }

  unfoldable pub to_string : MpbpContext t → Outcome Text
  to_string self = unwrap_option (g.ctx_to_text (ser_obj self))

  unfoldable pub from_string : Text → Outcome (MpbpContext t)
  from_string str = unwrap_option (g.ctx_from_text str) >>=ₒ λ ser.
      deserialize_grin_pub_key ser.t_1 >>=ₒ λ t_1. deserialize_grin_pub_key ser.t_2 >>=ₒ λ t_2.
      deserialize_secret_key ser.shared_nonce >>=ₒ λ shared_nonce.
      deserialize_secret_key ser.tau_x >>=ₒ λ tau_x.
      deserialize_commitment ser.commit >>=ₒ λ commit. ok (record {
        t_1 = t_1;
        t_2 = t_2;
        amount = ser.amount;
        shared_nonce = shared_nonce;
        tau_x = tau_x;
        commit = commit;
      })

  unfoldable pub add_commit : t.Commitment → MpbpContext t → Outcome (MpbpContext t)
  add_commit c2 self = unwrap_option (g.commit_sum (self.commit ∷ c2 ∷ []) []) >>=ₒ λ c.
      ok (record self { commit = c })

  -- A share is added to what is there, or put there where nothing valid is.
  abbrev pub add_share : t.PublicKey → t.PublicKey → Outcome t.PublicKey
  add_share old share =
      if g.is_valid old then unwrap_option (g.from_combination (old ∷ share ∷ [])) else ok share

  unfoldable pub add_t_1 : t.PublicKey → MpbpContext t → Outcome (MpbpContext t)
  add_t_1 share self = add_share self.t_1 share >>=ₒ λ k. ok (record self { t_1 = k })

  unfoldable pub add_t_2 : t.PublicKey → MpbpContext t → Outcome (MpbpContext t)
  add_t_2 share self = add_share self.t_2 share >>=ₒ λ k. ok (record self { t_2 = k })

  unfoldable pub add_tau_x : t.SecretKey → MpbpContext t → Outcome (MpbpContext t)
  add_tau_x share self =
      unwrap_option (g.key_add_assign self.tau_x share) >>=ₒ λ k. ok (record self { tau_x = k })

  unfoldable pub mp_bullet_proof_r1 :
      MpbpContext t → t.SecretKey → t.SecretKey → Action (GrinCore t) (MpbpContext t)
  unfolding add_t_1 add_t_2
  mp_bullet_proof_r1 ctx blind sec_nonce = do
    key ← create_secret_key
    c ← need (g.commit 0 key)
    let shares =
        g.bullet_proof_multisig ctx.amount blind ctx.shared_nonce none g.new_public_key
          g.new_public_key (c ∷ []) sec_nonce 1
    ctx1 ← lift (add_t_1 shares.t_one ctx)
    lift (add_t_2 shares.t_two ctx1)

  unfoldable pub mp_bullet_proof_r2 :
      MpbpContext t → t.SecretKey → t.SecretKey → Action (GrinCore t) (MpbpContext t)
  unfolding add_tau_x
  mp_bullet_proof_r2 ctx blind sec_nonce = do
    tau_x ← create_secret_key
    let shares =
        g.bullet_proof_multisig ctx.amount blind ctx.shared_nonce (some tau_x) ctx.t_1 ctx.t_2
          (ctx.commit ∷ []) sec_nonce 2
    lift (add_tau_x shares.tau_x ctx)

  unfoldable pub mp_bullet_proof_fin :
      MpbpContext t → t.SecretKey → t.SecretKey → Outcome t.RangeProof
  mp_bullet_proof_fin ctx blind sec_nonce = unwrap_option (
      Multisig.proof (
        g.bullet_proof_multisig ctx.amount blind ctx.shared_nonce (some ctx.tau_x) ctx.t_1 ctx.t_2
          (ctx.commit ∷ []) sec_nonce 0))

  unfoldable pub estimate_fees : ℕ → ℕ → ℕ → ℕ
  estimate_fees num_inp num_out num_ker = g.tx_fee num_inp num_out num_ker
