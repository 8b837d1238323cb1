-- ===== src/Grin/Core/Fin.antt =====
-- src/grin/grin_core.rs: fin_tx, which signs and finalizes, and ext_witness.
use mw_btc_swap.Prelude.{
  ℕ, zero, suc, Bool, true, false, Option, some, none, List, [], ◌∷◌, Outcome, ok, panic,
  unwrap_option, if◌then◌else◌,
}
use mw_btc_swap.Prelude.Results.{◌>>=◌ as ◌>>=ₒ◌}
use mw_btc_swap.Prelude.Actions.{Action, pure, gets, lift, ◌>>=◌, ◌>>◌}
use mw_btc_swap.Bitcoin.Crate.{BitcoinLib}
use mw_btc_swap.Grin.Crate.{GrinTypes, GrinCrate, ParticipantData, Slate}
use mw_btc_swap.Grin.Routines.{GrinCore, need, sig_extract_s}
use mw_btc_swap.Grin.Core.{verify_outputs, set_part_sig, num_participants}

module _ {lib : BitcoinLib} {t : GrinTypes} (g : GrinCrate lib t) where
  -- The partial signatures that are there are verified, each against the adaptor point.
  unfoldable pub verify_adapted :
      t.Message
      → t.PublicKey
      → t.PublicKey
      → t.PublicKey
      → List (ParticipantData t)
      → Outcome (Unit {0})
  verify_adapted msg pub_nonce_sum pub_blind_sum pub_x [] = ok tt
  verify_adapted msg pub_nonce_sum pub_blind_sum pub_x (entry ∷ rest) = elim entry.part_sig [
    | none ↦ verify_adapted msg pub_nonce_sum pub_blind_sum pub_x rest
    | some sig ↦
        if g.verify_single sig msg (some pub_nonce_sum) entry.public_blind_excess
          (some pub_blind_sum) (some pub_x) true
        then verify_adapted msg pub_nonce_sum pub_blind_sum pub_x rest
        else panic
  ]

  abbrev is_sig : t.Signature → Option t.Signature → Bool
  is_sig sig none = false
  is_sig sig (some other) = g.sig_eq other sig

  -- The first entry with the old signature has the new one. An index without an entry panics.
  unfoldable pub replace_part_sig :
      ℕ → t.Signature → t.Signature → List (ParticipantData t) → Outcome (List (ParticipantData t))
  replace_part_sig zero old_sig new_sig entries = ok entries
  replace_part_sig (suc left) old_sig new_sig [] = panic
  replace_part_sig (suc left) old_sig new_sig (entry ∷ entries) =
      if is_sig old_sig entry.part_sig
      then ok (record entry { part_sig = some new_sig } ∷ entries)
      else (replace_part_sig left old_sig new_sig entries >>=ₒ λ rest. ok (entry ∷ rest))

  -- The branch with `pub_x`: one's own signature without `fill_round_2`.
  unfoldable pub sign_adapted :
      Slate t → t.SecretKey → t.SecretKey → t.PublicKey → Action (GrinCore t) (Slate t)
  sign_adapted slate sec_key sec_nonce pub_x = do
    pub_nonce_sum ← need (g.pub_nonce_sum slate)
    pub_blind_sum ← need (g.pub_blind_sum slate)
    msg ← need (g.msg_to_sign slate)
    lift (verify_adapted msg pub_nonce_sum pub_blind_sum pub_x slate.participant_data)
    sig ← need (
        g.sign_single msg sec_key (some sec_nonce) none (some pub_nonce_sum) (some pub_blind_sum)
          (some pub_nonce_sum))
    pub_excess ← need (g.from_secret_key sec_key)
    pub_nonce ← need (g.from_secret_key sec_nonce)
    entries ←
        lift (
          set_part_sig g (num_participants g slate) pub_excess pub_nonce sig slate.participant_data)
    pure (record slate { participant_data = entries })

  abbrev pub replaced :
      Option (t.Signature × t.Signature) → Slate t → Outcome (List (ParticipantData t))
  replaced none slate = ok slate.participant_data
  replaced (some (old_sig, new_sig)) slate =
      replace_part_sig (num_participants g slate) old_sig new_sig slate.participant_data

  -- The branch without: the adapted signature is replaced where there is one, and the second round
  -- is filled. The slate is printed as JSON in between.
  unfoldable pub sign_round_2 :
      Slate t
      → t.SecretKey
      → t.SecretKey
      → Option (t.Signature × t.Signature)
      → Action (GrinCore t) (Slate t)
  sign_round_2 slate sec_key sec_nonce replace_sig = do
    entries ← lift (replaced replace_sig slate)
    need (g.slate_to_text (record slate { participant_data = entries }))
    chain ← gets (λ s. s.chain)
    need (g.fill_round_2 chain sec_key sec_nonce (record slate { participant_data = entries }))

  abbrev pub signed :
      Slate t
      → t.SecretKey
      → t.SecretKey
      → Option t.PublicKey
      → Option (t.Signature × t.Signature)
      → Action (GrinCore t) (Slate t)
  signed slate sec_key sec_nonce (some pub_x) replace_sig =
      sign_adapted slate sec_key sec_nonce pub_x
  signed slate sec_key sec_nonce none replace_sig = sign_round_2 slate sec_key sec_nonce replace_sig

  unfoldable pub fin_tx :
      Slate t
      → t.SecretKey
      → t.SecretKey
      → Bool
      → Option t.PublicKey
      → Option (t.Signature × t.Signature)
      → Action (GrinCore t) (Slate t)
  fin_tx slate sec_key sec_nonce finalize pub_x replace_sig = do
    tx ← need slate.tx
    lift (verify_outputs g (g.tx_outputs tx))
    done ← signed slate sec_key sec_nonce pub_x replace_sig
    chain ← gets (λ s. s.chain)
    if finalize then need (g.finalize chain done) else pure done

  unfoldable pub ext_witness : t.Signature → t.Signature → Outcome t.SecretKey
  ext_witness prt_sig apt_sig = sig_extract_s g apt_sig >>=ₒ λ apt_s.
      sig_extract_s g prt_sig >>=ₒ λ prt_s. unwrap_option (g.key_neg_assign prt_s) >>=ₒ λ negated.
      unwrap_option (g.key_add_assign apt_s negated)
