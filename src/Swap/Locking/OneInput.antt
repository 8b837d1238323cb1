-- ===== src/Swap/Locking/OneInput.antt =====
-- The setup phase of the Bitcoin side signs with one key only (src/swap/protocol.rs).
use mathlib.Core.List.{append_assoc, append-nil}
use mw_btc_swap.Prelude.{
  ℕ, ◌≡◌, ◌∙◌, refl, ap, Option, some, none, List, [], ◌∷◌, ◌++◌, ok, panic, ℤ, Profile, add_u64,
  sub_u64, unwrap_option, arith,
}
use mw_btc_swap.Prelude.Results.{◌>>=◌, >>=-returns}
use mw_btc_swap.Prelude.Actions.{Action, continue}
use mw_btc_swap.Bitcoin.Crate.{BitcoinLib, PrivateKey, TxIn}
use mw_btc_swap.Bitcoin.Types.{BtcInput}
use mw_btc_swap.Bitcoin.Routines.{Tx, unsigned_input, lock_inputs, create_lock_transaction}
use mw_btc_swap.Bitcoin.Signing.{
  nth, sign_p2pkh_inputs, sign_p2pkh_transaction, deserialize_script, deserialize_priv_key,
}
use mw_btc_swap.Grin.Ops.{GrinOps}
use mw_btc_swap.Swap.World.{Clients, World}
use mw_btc_swap.Swap.Locking.{sign_lock}
use mw_btc_swap.Constants.{ffffffff}

module _ (lib : BitcoinLib) where
  open lib use {Txid, Script, SecretKey, PublicKey, txid_from_str}

  -- The inputs so far stay at the front.
  lock_inputs-front :
      (p : Profile) (b : ℕ) (acc : List (TxIn Txid Script)) (inputs : List BtcInput) {sum : ℕ}
      {made : List (TxIn Txid Script)}
      → lock_inputs lib p b acc inputs ≡ ok (sum, made)
      → (rest : List (TxIn Txid Script)) × (made ≡ acc ++ rest)
  unfolding lock_inputs
  lock_inputs-front p b acc [] run = ([], ground (arith, append-nil acc))
  lock_inputs-front p b acc (i ∷ rest) {sum} {made} run =
      let (t, e1, run1) = >>=-returns (unwrap_option (txid_from_str i.txid)) _ run in
      let (s, e2, run2) = >>=-returns (add_u64 p b i.value) _ run1 in
      let (more, eq) =
        lock_inputs-front p s (acc ++ unsigned_input lib t i.vout ffffffff ∷ []) rest {sum = sum}
          {made = made} run2 in
      (
        unsigned_input lib t i.vout ffffffff ∷ more,
        eq ∙ append_assoc acc (unsigned_input lib t i.vout ffffffff ∷ []) more,
      )

  two_inputs :
      (p : Profile) (i j : BtcInput) (rest : List BtcInput)
      (recv_pk pub_x refund_pk change_pk : PublicKey) (amount fee : ℕ) (time : ℤ) {tx : Tx lib}
      → create_lock_transaction lib p recv_pk pub_x refund_pk change_pk
          (i ∷ j ∷ rest)
          amount
          fee
          time
        ≡ ok tx
      → (a : TxIn Txid Script) × (b : TxIn Txid Script) × (more : List (TxIn Txid Script))
        × (tx.input ≡ a ∷ b ∷ more)
  unfolding create_lock_transaction lock_inputs add_u64 sub_u64
  two_inputs p i j rest r x f c amount fee time run =
      let (sums, e, run1) = >>=-returns (lock_inputs lib p 0 [] (i ∷ j ∷ rest)) _ run in
      let (t, e1, e2) = >>=-returns (unwrap_option (txid_from_str i.txid)) _ e in
      let (s, e3, e4) = >>=-returns (add_u64 p 0 i.value) _ e2 in
      let (u, e5, e6) = >>=-returns (unwrap_option (txid_from_str j.txid)) _ e4 in
      let (v, e7, e8) = >>=-returns (add_u64 p s j.value) _ e6 in
      let first = unsigned_input lib t i.vout ffffffff in
      let second = unsigned_input lib u j.vout ffffffff in
      let (more, made) =
        lock_inputs-front p v (first ∷ second ∷ []) rest {sum = sums.0} {made = sums.1} e8 in
      (first, second, more, ground (arith, made))

  one_key :
      (tx : Tx lib) (a b : TxIn Txid Script) (more : List (TxIn Txid Script)) (s : Script)
      (k : PrivateKey SecretKey) (pk : PublicKey)
      → sign_p2pkh_inputs lib tx 0 (a ∷ b ∷ more) (s ∷ []) (k ∷ []) (pk ∷ []) ≡ panic
  unfolding sign_p2pkh_inputs
  one_key tx a b more s k pk = refl

-- An option that is unwrapped, and what is made of it, in front of a panic.
unwraps_to_panic {ℓ} :
    {S A B C : Type ℓ} (o : Option A) (make : A → B) (next : B → Action S C) (now : S)
    → ((b : B) → (next b now).0 ≡ panic)
    → (continue (unwrap_option o >>= λ x. ok (make x)) next now).0 ≡ panic
unwraps_to_panic none make next now h = refl
unwraps_to_panic (some x) make next now h = h (make x)

unwrapped_to_panic {ℓ} :
    {S A C : Type ℓ} (o : Option A) (next : A → Action S C) (now : S)
    → ((a : A) → (next a now).0 ≡ panic)
    → (continue (unwrap_option o) next now).0 ≡ panic
unwrapped_to_panic none next now h = refl
unwrapped_to_panic (some x) next now h = h x

module _ {lib : BitcoinLib} {ops : GrinOps lib} (cl : Clients) where
  open lib use {PublicKey}

  signs_none :
      (tx : Tx lib) (a b : TxIn lib.Txid lib.Script) (more : List (TxIn lib.Txid lib.Script))
      (i : BtcInput) (rest : List BtcInput) (w : World lib ops)
      → tx.input ≡ a ∷ b ∷ more
      → (sign_lock {ops = ops} cl tx (i ∷ rest) w).0 ≡ panic
  unfolding sign_lock sign_p2pkh_transaction deserialize_script deserialize_priv_key nth
  signs_none tx a b more i rest w two =
      unwraps_to_panic (lib.hex_decode i.pub_script) lib.from_bytes _ w λ script.
        unwrapped_to_panic (lib.from_wif i.secret) _ w λ sk.
          ap
            (λ inputs.
              sign_p2pkh_inputs lib tx 0 inputs (script ∷ []) (sk ∷ []) (lib.public_key sk ∷ [])
              >>= λ signed. ok (record tx { input = signed }))
            two
          ∙ ap (λ r. r >>= λ signed. ok (record tx { input = signed }))
              (one_key lib tx a b more script sk (lib.public_key sk))

  -- With two or more imported Bitcoin inputs, where the lock transaction can be made at all, its
  -- signing panics: only the script and the key of the first input are given to it.
  pub sign_lock-panics :
      (i j : BtcInput) (rest : List BtcInput) (recv_pk pub_x refund_pk change_pk : PublicKey)
      (amount fee : ℕ) (time : ℤ) (w : World lib ops) {tx : Tx lib}
      → create_lock_transaction lib cl.profile recv_pk pub_x refund_pk change_pk
          (i ∷ j ∷ rest)
          amount
          fee
          time
        ≡ ok tx
      → (sign_lock cl tx (i ∷ j ∷ rest) w).0 ≡ panic
  sign_lock-panics i j rest r x f c amount fee time w run =
      let (a, b, more, two) = two_inputs lib cl.profile i j rest r x f c amount fee time run in
      signs_none _ a b more i (j ∷ rest) w two
