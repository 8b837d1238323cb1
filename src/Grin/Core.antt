-- ===== src/Grin/Core.antt =====
-- src/grin/grin_core.rs: the steps that make a Mimblewimble transaction. The loops over inputs,
-- outputs and participants are functions of their own.
pub mod Spend
pub mod Joint
pub mod Recv
pub mod Shared
pub mod Fin
use mw_btc_swap.Prelude.{
  ℕ, zero, suc, ◌&&◌, Option, none, some, List, [], ◌∷◌, Outcome, ok, panic, if◌then◌else◌,
}
use mw_btc_swap.Prelude.Results.{◌>>=◌ as ◌>>=ₒ◌}
use mw_btc_swap.Bitcoin.Crate.{BitcoinLib}
use mw_btc_swap.Grin.Types.{MwCoin}
use mw_btc_swap.Grin.Crate.{GrinTypes, GrinCrate, Output, ParticipantData, Slate}
use mw_btc_swap.Grin.Routines.{MpbpContext}

pub record SpendCoinsResult (t : GrinTypes) : Type 0 where
  pub slate : Slate t
  pub sig_key : t.SecretKey
  pub sig_nonce : t.SecretKey
  pub change_coin : Option MwCoin

pub record RecvCoinsResult (t : GrinTypes) : Type 0 where
  pub slate : Slate t
  pub output_coin : MwCoin

-- `prt_sig` has the adapted signature first.
pub record AptRecCoinsResult (t : GrinTypes) : Type 0 where
  pub slate : Slate t
  pub output_coin : MwCoin
  pub prt_sig : t.Signature × t.Signature

pub record DRecvCoinsResult (t : GrinTypes) : Type 0 where
  pub slate : Slate t
  pub out_key_blind : t.SecretKey
  pub sig_nonce : t.SecretKey
  pub prf_nonce : t.SecretKey
  pub prf_ctx : MpbpContext t

module _ {lib : BitcoinLib} {t : GrinTypes} (g : GrinCrate lib t) where
  -- `slate.tx.unwrap_or_else(|| Transaction::empty())`
  abbrev pub tx_or_empty : Option t.Transaction → t.Transaction
  tx_or_empty (some tx) = tx
  tx_or_empty none = g.empty_tx

  -- The rangeproof of every output is verified.
  unfoldable pub verify_outputs : List (Output t) → Outcome (Unit {0})
  verify_outputs [] = ok tt
  verify_outputs (out ∷ rest) =
      if g.verify_bullet_proof out.commit out.proof then verify_outputs rest else panic

  -- The loop that puts a signature into one's own entry: `left` is how many indices are left, and
  -- an index without an entry panics.
  unfoldable pub set_part_sig :
      ℕ
      → t.PublicKey
      → t.PublicKey
      → t.Signature
      → List (ParticipantData t)
      → Outcome (List (ParticipantData t))
  set_part_sig zero pub_excess pub_nonce sig entries = ok entries
  set_part_sig (suc left) pub_excess pub_nonce sig [] = panic
  set_part_sig (suc left) pub_excess pub_nonce sig (e ∷ entries) =
      if g.public_eq e.public_blind_excess pub_excess && g.public_eq e.public_nonce pub_nonce
      then ok (record e { part_sig = some sig } ∷ entries)
      else (set_part_sig left pub_excess pub_nonce sig entries >>=ₒ λ rest. ok (e ∷ rest))

  -- `slate.num_participants()`
  abbrev pub num_participants : Slate t → ℕ
  num_participants slate = elim slate.num_participants [ zero ↦ 2 | suc n ↦ suc n ]
