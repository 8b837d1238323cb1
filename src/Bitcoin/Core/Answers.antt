-- ===== src/Bitcoin/Core/Answers.antt =====
-- What a successful call of src/bitcoin/bitcoin_core.rs rests on.
use mw_btc_swap.Prelude.{
  ℕ, Text, text_eq_sound, text_eq_refl, Option-cases, inl, inr, ◌↔◌, ◌≡◌, true, Option, none, some,
  List, ◌∷◌, Outcome, ok, arith,
}
use mw_btc_swap.Net.Http.{Reply, answered, unreachable, unreadable, is_success, Wire}
use mw_btc_swap.Bitcoin.Responses.{Error, BlockCountResponse, BtcJson}
use mw_btc_swap.Bitcoin.Core.{BitcoinCore, checked, get_current_block_height}

pub checked-ok {ℓ} :
    {A : Type ℓ} (mismatch expected id : Text) (error : Option Error) (result : Outcome A) {a : A}
    → checked mismatch expected id error result ≡ ok a
    → (id ≡ expected) × (error ≡ none) × (result ≡ ok a)
unfolding checked
checked-ok mismatch expected id error result h = ground (arith, text_eq_sound id expected)

-- The reply gives the height `h`: it has a success status, it parses, it carries the id of the
-- settings and no error, and its result is `h`.
abbrev pub GivesHeight : BtcJson → BitcoinCore → Reply → ℕ → Type 0
GivesHeight json core (answered status content) h =
    (is_success status ≡ true)
    × (parsed : BlockCountResponse) × (json.block_count content ≡ some parsed)
    × (parsed.id ≡ core.settings.id)
    × (parsed.error ≡ none)
    × (parsed.result ≡ h)
GivesHeight json core _ h = ⊥

height_given :
    {Tx : Type 0} (json : BtcJson) (core : BitcoinCore) (reply : Reply) (w : Wire Tx)
    → core.req_factory.response_stub ≡ none
    → {later : List Reply} → w.replies ≡ reply ∷ later
    → (h : ℕ) → (get_current_block_height json core w).0 ≡ ok h
    → GivesHeight json core reply h
unfolding get_current_block_height
height_given json core unreachable w real next h run = ground arith
height_given json core unreadable w real next h run = ground arith
height_given json core (answered status content) w real next h run =
    elim (Option-cases (json.block_count content)) [
      | inl unparsed ↦ absurd (ground arith)
      | inr (parsed, e) ↦ (
        ground arith,
        parsed,
        e,
        ground (arith, text_eq_sound parsed.id core.settings.id),
        ground arith,
        ground arith,
      )
    ]

module _ {Tx : Type 0} (json : BtcJson) (core : BitcoinCore) (reply : Reply) (w : Wire Tx)
    (real : core.req_factory.response_stub ≡ none) {later : List Reply}
    (next : w.replies ≡ reply ∷ later) where
  height_returned :
      (h : ℕ) → GivesHeight json core reply h → (get_current_block_height json core w).0 ≡ ok h
  unfolding get_current_block_height
  height_returned h given = ground (arith, text_eq_refl core.settings.id)

  -- Outside of the tests' stub, get_current_block_height returns a height exactly where the next
  -- reply gives it: a success status, an answer that parses, with the id of the settings, without
  -- an error.
  pub block_height_iff :
      (h : ℕ) → ((get_current_block_height json core w).0 ≡ ok h) ↔ GivesHeight json core reply h
  block_height_iff h = (height_given json core reply w real next h, height_returned h)
