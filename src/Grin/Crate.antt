-- ===== src/Grin/Crate.antt =====
-- What src/grin takes from the crates grin_core, grin_keychain, grin_util and grin_wallet_libwallet:
-- the shapes of their plain structures, and their functions as the fields of a record that the
-- model is given. A `Result` that the program only unwraps is an `Option`.
use mw_btc_swap.Prelude.{ℕ, Text, Bool, Option, List, [], ◌∷◌, ◌++◌}
use mw_btc_swap.Bitcoin.Crate.{BitcoinLib}

-- The opaque types. `SlateRest` is what a `Slate` has besides the fields that the program names,
-- `Kernel` a `TxKernel`.
pub record GrinTypes : Type 1 where
  pub SecretKey : Type 0
  pub PublicKey : Type 0
  pub Signature : Type 0
  pub Message : Type 0
  pub Commitment : Type 0
  pub RangeProof : Type 0
  pub BlindingFactor : Type 0
  pub Keychain : Type 0
  pub Kernel : Type 0
  pub Transaction : Type 0
  pub FeeFields : Type 0
  pub SlateRest : Type 0

-- `BlindSum`, of blinding factors only.
pub record BlindSum (BlindingFactor : Type 0) : Type 0 where
  pub positive_blinding_factors : List BlindingFactor
  pub negative_blinding_factors : List BlindingFactor

module _ {BlindingFactor : Type 0} where
  abbrev pub empty_sum : BlindSum BlindingFactor
  empty_sum = record { positive_blinding_factors = []; negative_blinding_factors = [] }

  abbrev pub add_blinding_factor :
      BlindingFactor → BlindSum BlindingFactor → BlindSum BlindingFactor
  add_blinding_factor b s = record s {
    positive_blinding_factors = s.positive_blinding_factors ++ (b ∷ []);
  }

  abbrev pub sub_blinding_factor :
      BlindingFactor → BlindSum BlindingFactor → BlindSum BlindingFactor
  sub_blinding_factor b s = record s {
    negative_blinding_factors = s.negative_blinding_factors ++ (b ∷ []);
  }

module _ (t : GrinTypes) where
  open t use {
    SecretKey, PublicKey, Signature, Commitment, RangeProof, BlindingFactor, Transaction, FeeFields,
    SlateRest,
  }

  -- An `Output` of the features `Plain`; an `Input` of these features is its commitment.
  pub record Output : Type 0 where
    pub commit : Commitment
    pub proof : RangeProof

  pub record ParticipantData : Type 0 where
    pub public_blind_excess : PublicKey
    pub public_nonce : PublicKey
    pub part_sig : Option Signature

  -- `Slate`; the arguments of the kernel features are the lock height alone.
  pub record Slate : Type 0 where
    pub num_participants : ℕ
    pub tx : Option Transaction
    pub amount : ℕ
    pub fee_fields : FeeFields
    pub kernel_features : ℕ
    pub kernel_features_args : Option ℕ
    pub offset : BlindingFactor
    pub participant_data : List ParticipantData
    pub rest : SlateRest

  -- `Context`; the fields that the program always leaves empty are left out.
  pub record Context : Type 0 where
    pub sec_key : SecretKey
    pub sec_nonce : SecretKey
    pub initial_sec_key : SecretKey
    pub initial_sec_nonce : SecretKey
    pub amount : ℕ
    pub fee : Option FeeFields

  -- What `bullet_proof_multisig` returns, and leaves in its mutable arguments.
  pub record Multisig : Type 0 where
    pub proof : Option RangeProof
    pub tau_x : SecretKey
    pub t_one : PublicKey
    pub t_two : PublicKey

-- `SerMPCtx`
pub record SerMpCtx : Type 0 where
  pub t_1 : Text
  pub t_2 : Text
  pub amount : ℕ
  pub shared_nonce : Text
  pub commit : Text
  pub tau_x : Text

pub record GrinCrate (lib : BitcoinLib) (t : GrinTypes) : Type 0 where
  -- grin_util::secp
  pub zero_key : t.SecretKey
  pub secret_to_bytes : t.SecretKey → Text
  pub secret_from_slice : Text → Option t.SecretKey
  pub key_add_assign : t.SecretKey → t.SecretKey → Option t.SecretKey
  pub key_neg_assign : t.SecretKey → Option t.SecretKey
  pub new_public_key : t.PublicKey
  pub is_valid : t.PublicKey → Bool
  pub from_secret_key : t.SecretKey → Option t.PublicKey
  pub from_combination : List t.PublicKey → Option t.PublicKey
  pub public_eq : t.PublicKey → t.PublicKey → Bool
  pub public_to_bytes : t.PublicKey → Text
  pub public_from_slice : Text → Option t.PublicKey
  pub sig_eq : t.Signature → t.Signature → Bool
  -- the upper half of `to_raw_data`
  pub raw_s : t.Signature → Text
  pub commit : ℕ → t.SecretKey → Option t.Commitment
  pub commit_sum : List t.Commitment → List t.Commitment → Option t.Commitment
  pub commit_to_bytes : t.Commitment → Text
  pub commit_from_vec : Text → t.Commitment
  -- value, blinding factor, rewind nonce, private nonce
  pub bullet_proof : ℕ → t.SecretKey → t.SecretKey → t.SecretKey → t.RangeProof
  pub verify_bullet_proof : t.Commitment → t.RangeProof → Bool
  -- amount, blinding factor, shared nonce, tau_x, t_one, t_two, commitments, private nonce, step
  pub bullet_proof_multisig :
      ℕ
      → t.SecretKey
      → t.SecretKey
      → Option t.SecretKey
      → t.PublicKey
      → t.PublicKey
      → List t.Commitment
      → t.SecretKey
      → ℕ
      → Multisig t
  -- grin_util::secp::aggsig: message, key, nonce, extra, sum of nonces, sum of keys, final sum
  pub sign_single :
      t.Message
      → t.SecretKey
      → Option t.SecretKey
      → Option t.SecretKey
      → Option t.PublicKey
      → Option t.PublicKey
      → Option t.PublicKey
      → Option t.Signature
  -- signature, message, sum of nonces, key, sum of keys, extra, partial
  pub verify_single :
      t.Signature
      → t.Message
      → Option t.PublicKey
      → t.PublicKey
      → Option t.PublicKey
      → Option t.PublicKey
      → Bool
      → Bool
  -- grin_keychain
  pub bf_from_secret_key : t.SecretKey → t.BlindingFactor
  pub bf_secret_key : t.BlindingFactor → Option t.SecretKey
  pub bf_split : t.BlindingFactor → t.BlindingFactor → Option t.BlindingFactor
  pub blind_sum : t.Keychain → BlindSum t.BlindingFactor → Option t.BlindingFactor
  -- grin_core
  pub tx_fee : ℕ → ℕ → ℕ → ℕ
  pub fee_fields_new : ℕ → ℕ → Option t.FeeFields
  pub empty_tx : t.Transaction
  pub transaction_new : List t.Commitment → List (Output t) → List t.Kernel → t.Transaction
  pub tx_inputs : t.Transaction → List t.Commitment
  pub tx_outputs : t.Transaction → List (Output t)
  pub tx_kernels : t.Transaction → List t.Kernel
  pub with_output : Output t → t.Transaction → t.Transaction
  pub with_offset : t.BlindingFactor → t.Transaction → t.Transaction
  -- grin_wallet_libwallet
  pub blank_with_kernel_features : ℕ → Bool → ℕ → Option ℕ → Slate t
  pub fill_round_1 : t.Keychain → Context t → Slate t → Option (Slate t)
  pub fill_round_2 : t.Keychain → t.SecretKey → t.SecretKey → Slate t → Option (Slate t)
  pub update_kernel : Slate t → Option (Slate t)
  pub finalize : t.Keychain → Slate t → Option (Slate t)
  pub pub_nonce_sum : Slate t → Option t.PublicKey
  pub pub_blind_sum : Slate t → Option t.PublicKey
  pub msg_to_sign : Slate t → Option t.Message
  -- `serde_json` at a slate, and `Slate::deserialize_upgrade`
  pub slate_to_text : Slate t → Option Text
  pub deserialize_upgrade : Text → Option (Slate t)
  -- `serde_json` at a `SerMPCtx`
  pub ctx_to_text : SerMpCtx → Option Text
  pub ctx_from_text : Text → Option SerMpCtx
  -- `PublicKey::from_slice(pk.to_bytes())`, `SecretKey::from_slice(sk.to_bytes())` and back
  pub pk_from_btc : lib.PublicKey → Option t.PublicKey
  pub sk_from_btc : lib.SecretKey → Option t.SecretKey
  pub sk_to_btc : t.SecretKey → Option lib.SecretKey
