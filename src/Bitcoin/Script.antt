-- ===== src/Bitcoin/Script.antt =====
-- How a Bitcoin node validates the spending of a P2SH output, for the opcodes that
-- src/bitcoin/btcroutines.rs pushes: BIP 16 (P2SH), BIP 65 (OP_CHECKLOCKTIMEVERIFY) and the stack
-- rules of Bitcoin Script. It is the specification that the scripts of the swap are held to, not
-- code of the program.
use mw_btc_swap.Prelude.{
  ℕ, zero, suc, Text, Bool, true, false, not, ◌&&◌, ◌||◌, ◌≡◌, Option, none, some, List, [], ◌∷◌,
  ◌++◌, map, ℤ, pos, negsuc, ◌<◌, ◌^◌, leb, ltb, ◌==◌, text_eq, if◌then◌else◌,
}
use mw_btc_swap.Constants.{ffffffff, sighash_all}
use mw_btc_swap.Bitcoin.Crate.{
  PrivateKey, TxIn, Opcode, op_if, op_else, op_endif, op_drop, op_cltv, op_checksig,
  op_checkmultisig, op_pushnum_2, op_pushbytes_0, Push, opcode, int, key, slice, BitcoinLib,
}
use mw_btc_swap.Bitcoin.Routines.{Tx}

-- The transaction with the scripts of its inputs taken out: a signature hash is of this.
abbrev pub blank_input : (lib : BitcoinLib) → TxIn lib.Txid lib.Script → TxIn lib.Txid lib.Script
blank_input lib i = record i { script_sig = lib.build [] }

abbrev pub blank : (lib : BitcoinLib) → Tx lib → Tx lib
blank lib tx = record tx { input = map (blank_input lib) tx.input }

-- What a node reads in a script: an operation, or bytes for the stack. It reads OP_0 as no bytes,
-- OP_1 to OP_16 as that one byte, OP_1NEGATE as the byte 129, and a pushed slice as its bytes.
pub data Item : Type 0 where
  operation : Opcode → Item
  push : Text → Item

-- What a node reads for one call of the crate's Builder. Different calls give the same item, since
-- the Builder has only bytes: `push_int(2)`, OP_PUSHNUM_2; `push_int(0)`, OP_PUSHBYTES_0, the empty
-- slice; a key, the slice of its bytes.
abbrev pub item_of : {Key : Type 0} → (Key → Text) → (ℤ → Text) → Push Key → Item
item_of key_bytes script_num (opcode op_pushbytes_0) = push []
item_of key_bytes script_num (opcode op_pushnum_2) = push (2 ∷ [])
item_of key_bytes script_num (opcode o) = operation o
item_of key_bytes script_num (int z) = push (script_num z)
item_of key_bytes script_num (key k) = push (key_bytes k)
item_of key_bytes script_num (slice t) = push t

-- What the node's rules take from hashing, signatures and the encoding of scripts. `script_num` is
-- the encoding of numbers on the stack, and `read_num` reads the operand of
-- OP_CHECKLOCKTIMEVERIFY, which has at most five bytes.
pub record ScriptRules (lib : BitcoinLib) : Type 0 where
  pub items_of : lib.Script → List Item
  pub script_num : ℤ → Text
  pub read_num : Text → Option ℤ
  pub key_bytes : lib.PublicKey → Text
  pub hash160 : Text → Text
  pub p2sh_hash : lib.Script → Option Text
  pub check_signature : Text → Text → lib.SigHash → Bool
  pub items_of-build :
      (pushes : List (Push lib.PublicKey))
      → items_of (lib.build pushes) ≡ map (item_of key_bytes script_num) pushes
  pub script_num-one : script_num (pos 1) ≡ 1 ∷ []
  pub read_num-script_num : (n : ℕ) → n < 2 ^ 32 → read_num (script_num (pos n)) ≡ some (pos n)
  pub from_bytes-to_bytes : (s : lib.Script) → lib.from_bytes (lib.to_bytes s) ≡ s
  pub p2sh_hash-new :
      (s : lib.Script) → p2sh_hash (lib.new_p2sh s) ≡ some (hash160 (lib.to_bytes s))
  pub check_signature-sign :
      (sk : PrivateKey lib.SecretKey) (m : lib.SigHash)
      → check_signature
          (key_bytes (lib.public_key sk))
          (lib.serialize_der (lib.sign m sk.key) ++ sighash_all ∷ [])
          m
        ≡ true
  pub signature_hash-blank :
      (t u : Tx lib) (i : ℕ) (s : lib.Script) (flag : ℕ)
      → blank lib t ≡ blank lib u
      → lib.signature_hash t i s flag ≡ lib.signature_hash u i s flag

-- What a script sees of the transaction that spends.
pub record Env : Type 0 where
  pub check : Text → Text → Bool
  pub lock_time : ℕ
  pub sequence : ℕ

-- Bytes are false if they are all 0, but for a last byte 128 (the negative zero).
abbrev pub truth : Text → Bool
truth [] = false
truth (c ∷ []) = not (c == 0 || c == 128)
truth (c ∷ d ∷ s) = not (c == 0) || truth (d ∷ s)

abbrev from_bool : Bool → Text
from_bool true = 1 ∷ []
from_bool false = []

abbrev is_two : Text → Bool
is_two t = text_eq t (2 ∷ [])

-- Lock times below 500000000 are block heights, the others are times.
-- A final input (sequence ffffffff) fails the test.
abbrev pub lock_time_reached : ℤ → ℕ → ℕ → Bool
lock_time_reached (pos n) lock_time sequence =
    leb n lock_time
    && ((ltb n 500000000 && ltb lock_time 500000000)
        || (leb 500000000 n && leb 500000000 lock_time))
    && not (sequence == ffffffff)
lock_time_reached (negsuc n) lock_time sequence = false

abbrev executing : List Bool → Bool
executing [] = true
executing (f ∷ fs) = f && executing fs

module _ {lib : BitcoinLib} (rules : ScriptRules lib) (env : Env) where
  abbrev check_sig : List Text → Option (List Text)
  check_sig (k ∷ s ∷ st) = some (from_bool (env.check k s) ∷ st)
  check_sig _ = none

  -- Two signatures for two keys, in the same order, above the element that the opcode drops.
  abbrev check_multisig : List Text → Option (List Text)
  check_multisig (m ∷ k2 ∷ k1 ∷ n ∷ s2 ∷ s1 ∷ extra ∷ st) =
      if is_two m && is_two n
      then some (from_bool (env.check k1 s1 && env.check k2 s2) ∷ st)
      else none
  check_multisig _ = none

  abbrev reached : Option ℤ → List Text → Option (List Text)
  reached none st = none
  reached (some z) st = if lock_time_reached z env.lock_time env.sequence then some st else none

  abbrev check_lock_time : List Text → Option (List Text)
  check_lock_time (t ∷ st) = reached (rules.read_num t) (t ∷ st)
  check_lock_time _ = none

  abbrev drop_top : List Text → Option (List Text)
  drop_top [] = none
  drop_top (c ∷ st) = some st

  abbrev exec : Item → List Text → Option (List Text)
  exec (push t) st = some (t ∷ st)
  exec (operation op_drop) st = drop_top st
  exec (operation op_cltv) st = check_lock_time st
  exec (operation op_checksig) st = check_sig st
  exec (operation op_checkmultisig) st = check_multisig st
  exec (operation _) st = none

  abbrev with_flags : List Bool → Option (List Text) → Option (List Bool × List Text)
  with_flags flags none = none
  with_flags flags (some st) = some (flags, st)

  abbrev take_condition : List Bool → List Text → Option (List Bool × List Text)
  take_condition flags [] = none
  take_condition flags (c ∷ st) = some (truth c ∷ flags, st)

  abbrev flip_condition : List Bool → List Text → Option (List Bool × List Text)
  flip_condition [] st = none
  flip_condition (f ∷ flags) st = some (not f ∷ flags, st)

  abbrev end_condition : List Bool → List Text → Option (List Bool × List Text)
  end_condition [] st = none
  end_condition (f ∷ flags) st = some (flags, st)

  -- One operation; the flags say which of the open branches are executed.
  abbrev step : Item → List Bool → List Text → Option (List Bool × List Text)
  step (operation op_if) flags st =
      if executing flags then take_condition flags st else some (false ∷ flags, st)
  step (operation op_else) flags st = flip_condition flags st
  step (operation op_endif) flags st = end_condition flags st
  step p flags st = if executing flags then with_flags flags (exec p st) else some (flags, st)

  unfoldable pub run : List Item → List Bool → List Text → Option (List Text)
  run [] [] st = some st
  run [] (f ∷ flags) st = none
  run (p ∷ ps) flags st = elim (step p flags st) [
    | none ↦ none
    | some (flags', st') ↦ run ps flags' st'
  ]

abbrev pub top_true : Option (List Text) → Bool
top_true (some (c ∷ st)) = truth c
top_true _ = false

abbrev pub get_input : {A : Type 0} → List A → ℕ → Option A
get_input [] i = none
get_input (x ∷ xs) zero = some x
get_input (x ∷ xs) (suc i) = get_input xs i

module _ {lib : BitcoinLib} (rules : ScriptRules lib) where
  abbrev pub env_of : Tx lib → ℕ → ℕ → lib.Script → Env
  env_of tx ix sequence script = record {
    check = λ k s. rules.check_signature k s (lib.signature_hash tx ix script sighash_all);
    lock_time = tx.lock_time;
    sequence = sequence;
  }

  -- The script that is hashed is the top of the stack that the input's script leaves; it runs on
  -- the rest of that stack.
  abbrev pub redeem : Tx lib → ℕ → ℕ → Text → Option (List Text) → Bool
  redeem tx ix sequence hash (some (b ∷ st)) =
      let script = lib.from_bytes b in
      text_eq (rules.hash160 b) hash
      && top_true (run rules (env_of tx ix sequence script) (rules.items_of script) [] st)
  redeem tx ix sequence hash _ = false

  abbrev pub spend_input : Tx lib → ℕ → Option Text → Option (TxIn lib.Txid lib.Script) → Bool
  spend_input tx ix (some hash) (some inp) =
      redeem tx ix inp.sequence hash
        (run rules (env_of tx ix inp.sequence (lib.build [])) (rules.items_of inp.script_sig) [] [])
  spend_input tx ix _ _ = false

  -- Input `ix` of `tx` may spend an output under the P2SH script `script_pubkey`.
  unfoldable pub spends : Tx lib → ℕ → lib.Script → Bool
  spends tx ix script_pubkey =
      spend_input tx ix (rules.p2sh_hash script_pubkey) (get_input tx.input ix)
