-- ===== src/Bitcoin/Signing/Shape.antt =====
-- Signing changes nothing of a transaction but the scripts of its inputs
-- (src/bitcoin/btcroutines.rs).
use mw_btc_swap.Prelude.{ℕ, zero, suc, ◌+◌, ◌≡◌, refl, List, [], ◌∷◌, map, some, ok, arith}
use mw_btc_swap.Prelude.Results.{>>=-returns}
use mw_btc_swap.Bitcoin.Crate.{PrivateKey, TxIn, BitcoinLib}
use mw_btc_swap.Bitcoin.Routines.{Tx}
use mw_btc_swap.Bitcoin.Script.{blank, blank_input, get_input}
use mw_btc_swap.Bitcoin.Signing.{
  nth, with_script, sign_input_at, sign_p2pkh_inputs, sign_p2pkh_transaction,
}

module _ (lib : BitcoinLib) where
  open lib use {SecretKey, PublicKey, Txid, Script}

  pub blank-sign_input_at :
      (i ix : ℕ) (s : Script) (inputs : List (TxIn Txid Script))
      → map (blank_input lib) (sign_input_at lib i ix s inputs) ≡ map (blank_input lib) inputs
  unfolding sign_input_at
  blank-sign_input_at i ix s [] = refl
  blank-sign_input_at i ix s (inp ∷ rest) = ground (arith, blank-sign_input_at (i + 1) ix s rest)

  get_input-sign_input_at :
      (i k : ℕ) (s : Script) (inputs : List (TxIn Txid Script)) {inp : TxIn Txid Script}
      → get_input inputs k ≡ some inp
      → get_input (sign_input_at lib i (i + k) s inputs) k ≡ some (with_script lib inp s)
  unfolding sign_input_at
  get_input-sign_input_at i zero s (x ∷ rest) e = ground arith
  get_input-sign_input_at i (suc k) s (x ∷ rest) e =
      let shift : i + suc k ≡ i + 1 + k = omega arith in
      rw shift (get_input-sign_input_at (i + 1) k s rest e)
  get_input-sign_input_at i zero s [] e = cc
  get_input-sign_input_at i (suc k) s [] e = cc

  pub get_input-sign_input :
      (ix : ℕ) (s : Script) (inputs : List (TxIn Txid Script)) {inp : TxIn Txid Script}
      → get_input inputs ix ≡ some inp
      → get_input (sign_input_at lib 0 ix s inputs) ix ≡ some (with_script lib inp s)
  get_input-sign_input ix s inputs e =
      let same : 0 + ix ≡ ix = omega arith in rw same at (get_input-sign_input_at 0 ix s inputs e)

  sign_p2pkh_inputs-blank :
      (tx : Tx lib) (i : ℕ) (inputs : List (TxIn Txid Script)) (scripts : List Script)
      (skeys : List (PrivateKey SecretKey)) (pkeys : List PublicKey)
      {signed : List (TxIn Txid Script)}
      → sign_p2pkh_inputs lib tx i inputs scripts skeys pkeys ≡ ok signed
      → map (blank_input lib) signed ≡ map (blank_input lib) inputs
  unfolding sign_p2pkh_inputs
  sign_p2pkh_inputs-blank tx i [] scripts skeys pkeys run = ground arith
  sign_p2pkh_inputs-blank tx i (inp ∷ rest) scripts skeys pkeys run =
      let (script, e1, run1) = >>=-returns (nth scripts i) _ run in
      let (sk, e2, run2) = >>=-returns (nth skeys i) _ run1 in
      let (pk, e3, run3) = >>=-returns (nth pkeys i) _ run2 in
      let (tail, e4, run4) =
        >>=-returns (sign_p2pkh_inputs lib tx (i + 1) rest scripts skeys pkeys) _ run3 in
      ground (arith, sign_p2pkh_inputs-blank tx (i + 1) rest scripts skeys pkeys e4)

  -- Where a transaction can be signed, the signed one has the inputs, the outputs and the lock
  -- time of the unsigned one; only the scripts of the inputs differ.
  pub sign_p2pkh_transaction-blank :
      (tx : Tx lib) (scripts : List Script) (skeys : List (PrivateKey SecretKey))
      (pkeys : List PublicKey) {signed : Tx lib}
      → sign_p2pkh_transaction lib tx scripts skeys pkeys ≡ ok signed
      → blank lib signed ≡ blank lib tx
  unfolding sign_p2pkh_transaction
  sign_p2pkh_transaction-blank tx scripts skeys pkeys run =
      let (inputs, e, rest) =
        >>=-returns (sign_p2pkh_inputs lib tx 0 tx.input scripts skeys pkeys) _ run in
      ground (arith, sign_p2pkh_inputs-blank tx 0 tx.input scripts skeys pkeys e)
