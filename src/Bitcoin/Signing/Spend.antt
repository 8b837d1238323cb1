-- ===== src/Bitcoin/Signing/Spend.antt =====
-- The two transactions that spend the lock output are valid under its script
-- (src/bitcoin/btcroutines.rs), by the node's rules of Bitcoin/Script.
use mw_btc_swap.Prelude.{
  ℕ, ◌≡◌, refl, ap, true, false, Text, map, List, [], ◌∷◌, some, ℤ, pos, ◌<◌, ◌^◌, text_eq,
  text_eq_refl, arith,
}
use mw_btc_swap.Constants.{sighash_all}
use mw_btc_swap.Bitcoin.Crate.{PrivateKey, TxIn, Push, BitcoinLib}
use mw_btc_swap.Bitcoin.Routines.{Tx, lock_pushes, get_lock_pub_script}
use mw_btc_swap.Bitcoin.Script.{
  ScriptRules, blank, get_input, Item, item_of, run, top_true, env_of, spends, lock_time_reached,
}
use mw_btc_swap.Bitcoin.Signing.{
  with_script, sign_input_at, signed_hash, redeem_script, refund_script,
  sign_lock_transaction_redeemer, sign_lock_transaction_refund,
}
use mw_btc_swap.Bitcoin.Signing.Shape.{blank-sign_input_at, get_input-sign_input}

module _ (lib : BitcoinLib) (rules : ScriptRules lib) where
  open lib use {
    SecretKey, PublicKey, Txid, Script, public_key, build, to_bytes, from_bytes, new_p2sh,
  }

  -- The signature of an unsigned transaction checks for the signed one.
  signature_checks :
      (tx signed : Tx lib) (ix : ℕ) (script : Script) (sk : PrivateKey SecretKey)
      → blank lib signed ≡ blank lib tx
      → rules.check_signature
          (rules.key_bytes (public_key sk))
          (signed_hash lib tx ix script sk)
          (lib.signature_hash signed ix script sighash_all)
        ≡ true
  unfolding signed_hash
  signature_checks tx signed ix script sk e =
      rw (rules.signature_hash-blank signed tx ix script sighash_all e)
        (rules.check_signature-sign sk (lib.signature_hash tx ix script sighash_all))

  abbrev items : List (Push PublicKey) → List Item
  items pushes = map (item_of rules.key_bytes rules.script_num) pushes

  -- What `spends` comes to, once the input's script leaves the lock script on a stack.
  spends_by :
      (signed : Tx lib) (ix : ℕ) (pushes sig_pushes : List (Push PublicKey))
      (inp : TxIn Txid Script) (st : List Text)
      → get_input signed.input ix ≡ some (with_script lib inp (build sig_pushes))
      → run rules (env_of rules signed ix inp.sequence (build [])) (items sig_pushes) [] []
        ≡ some (to_bytes (build pushes) ∷ st)
      → spends rules signed ix (new_p2sh (build pushes))
        ≡ top_true
            (run rules (env_of rules signed ix inp.sequence (build pushes)) (items pushes) [] st)
  unfolding spends
  spends_by signed ix pushes sig_pushes inp st found left =
      rw (rules.p2sh_hash-new (build pushes), found, rules.items_of-build sig_pushes, left)
        (rw (
          rules.from_bytes-to_bytes (build pushes),
          text_eq_refl (rules.hash160 (to_bytes (build pushes))),
          rules.items_of-build pushes,
        ))

  module _ (tx : Tx lib) (ix : ℕ) (sk : PrivateKey SecretKey) (other_pk : PublicKey)
      {inp : TxIn Txid Script} (found : get_input tx.input ix ≡ some inp) where
    blank_signed :
        (s : Script)
        → blank lib (record tx { input = sign_input_at lib 0 ix s tx.input }) ≡ blank lib tx
    blank_signed s = ap (λ l. record tx { input = l }) (blank-sign_input_at lib 0 ix s tx.input)

    -- With both secrets the redeemer's signed input, if the transaction has it, may spend the P2SH
    -- output of the lock script by the script rules of a node, whatever the refund time is.
    pub redeemer_spends :
        (x : PrivateKey SecretKey) (refund_time : ℤ)
        → let lock = get_lock_pub_script lib (public_key sk) (public_key x) other_pk refund_time in
          spends rules (sign_lock_transaction_redeemer lib tx ix (lock false) sk x) ix (lock true)
          ≡ true
    unfolding run lock_pushes get_lock_pub_script sign_lock_transaction_redeemer redeem_script
        text_eq
    redeemer_spends x refund_time =
        let pushes = lock_pushes lib (public_key sk) (public_key x) other_pk refund_time in
        let script = build pushes in
        let sig_pushes = redeem_script lib tx ix script sk x in
        let signed = sign_lock_transaction_redeemer lib tx ix script sk x in
        rw
          (spends_by signed ix pushes sig_pushes inp _
            (get_input-sign_input lib ix (build sig_pushes) tx.input found) refl)
          (rw (
            signature_checks tx signed ix script sk (blank_signed (build sig_pushes)),
            signature_checks tx signed ix script x (blank_signed (build sig_pushes)),
          ))

    -- The refunder's signed input, if the transaction has it, may spend the P2SH output of the
    -- lock script by the script rules of a node exactly where the transaction's lock time has
    -- reached the refund time (both heights, or both times) and the input is not final.
    pub refunder_spends :
        (pub_x : PublicKey) (height : ℕ)
        → height < 2 ^ 32
        → let lock = get_lock_pub_script lib other_pk pub_x (public_key sk) (pos height) in
          spends rules (sign_lock_transaction_refund lib tx ix (lock false) sk) ix (lock true)
          ≡ lock_time_reached (pos height) tx.lock_time inp.sequence
    unfolding run lock_pushes get_lock_pub_script sign_lock_transaction_refund refund_script
    refunder_spends pub_x height fits =
        let pushes = lock_pushes lib other_pk pub_x (public_key sk) (pos height) in
        let script = build pushes in
        let sig_pushes = refund_script lib tx ix script sk in
        let signed = sign_lock_transaction_refund lib tx ix script sk in
        rw
          (spends_by signed ix pushes sig_pushes inp _
            (get_input-sign_input lib ix (build sig_pushes) tx.input found) refl)
          (rw rules.script_num-one (
            ground (
              arith,
              rules.read_num-script_num height fits,
              signature_checks tx signed ix script sk (blank_signed (build sig_pushes)),
            )))
