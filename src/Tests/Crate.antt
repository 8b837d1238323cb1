-- ===== src/Tests/Crate.antt =====
-- A small instance of the Bitcoin crate and of the rules of the node: keys are numbers, a script
-- is the list of its items, a hash is the text itself.
use mw_btc_swap.Net.Tcp.Utf8.{IsAscii, ascii-is_utf8}
use mw_btc_swap.Swap.Locking.Agreement.{KeyText}
use mw_btc_swap.Prelude.{
  zero, suc, arith, ℕ, ◌+◌, ◌≡◌, refl, ap, ◌∙◌, Text, codes, text_eq, text_eq_refl, Bool, true,
  false, Option, none, some, List, [], ◌∷◌, map, ℤ, pos, negsuc, ◌==◌, if◌then◌else◌,
}
use mw_btc_swap.Bitcoin.Crate.{
  testnet, PrivateKey, Opcode, op_if, op_else, op_endif, op_drop, op_cltv, op_checksig,
  op_checkmultisig, op_pushnum_2, op_pushbytes_0, BitcoinLib,
}
use mw_btc_swap.Bitcoin.Script.{Item, operation, push, item_of, ScriptRules}

pub data Script : Type 0 where
  plain : List Item → Script
  p2sh : Text → Script
  p2pkh : ℕ → Script

abbrev op_code : Opcode → ℕ
op_code op_if = 0
op_code op_else = 1
op_code op_endif = 2
op_code op_drop = 3
op_code op_cltv = 4
op_code op_checksig = 5
op_code op_checkmultisig = 6
op_code op_pushnum_2 = 7
op_code op_pushbytes_0 = 8

abbrev op_of : ℕ → Opcode
op_of n =
    if n == 0
    then op_if
    else if n == 1
    then op_else
    else if n == 2
    then op_endif
    else if n == 3
    then op_drop
    else if n == 4
    then op_cltv
    else if n == 5
    then op_checksig
    else if n == 6
    then op_checkmultisig
    else if n == 7
    then op_pushnum_2
    else op_pushbytes_0

op_of-op_code : (o : Opcode) → op_of (op_code o) ≡ o
op_of-op_code op_if = refl
op_of-op_code op_else = refl
op_of-op_code op_endif = refl
op_of-op_code op_drop = refl
op_of-op_code op_cltv = refl
op_of-op_code op_checksig = refl
op_of-op_code op_checkmultisig = refl
op_of-op_code op_pushnum_2 = refl
op_of-op_code op_pushbytes_0 = refl

-- Every push is a sequence of pairs of a tag and a value.
abbrev encode_slice : Text → Text → Text
encode_slice [] out = 4 ∷ 0 ∷ out
encode_slice (c ∷ t) out = 5 ∷ c ∷ encode_slice t out

abbrev encode : List Item → Text
encode [] = []
encode (operation o ∷ ps) = 0 ∷ op_code o ∷ encode ps
encode (push t ∷ ps) = encode_slice t (encode ps)

abbrev cons_slice : ℕ → List Item → List Item
cons_slice c (push t ∷ ps) = push (c ∷ t) ∷ ps
cons_slice c ps = ps

abbrev decode_pair : ℕ → ℕ → List Item → List Item
decode_pair tag c ps =
    if tag == 0
    then operation (op_of c) ∷ ps
    else if tag == 4
    then push [] ∷ ps
    else cons_slice c ps

abbrev decode : Text → List Item
decode (tag ∷ c ∷ rest) = decode_pair tag c (decode rest)
decode _ = []

decode-encode_slice : (t out : Text) → decode (encode_slice t out) ≡ push t ∷ decode out
decode-encode_slice [] out = refl
decode-encode_slice (c ∷ t) out = ap (cons_slice c) (decode-encode_slice t out)

decode-encode : (ps : List Item) → decode (encode ps) ≡ ps
decode-encode [] = refl
decode-encode (operation o ∷ ps) = rw (op_of-op_code o, decode-encode ps)
decode-encode (push t ∷ ps) =
    decode-encode_slice t (encode ps) ∙ ap (λ l. push t ∷ l) (decode-encode ps)

abbrev to_bytes : Script → Text
to_bytes (plain ps) = 10 ∷ encode ps
to_bytes (p2sh t) = 11 ∷ t
to_bytes (p2pkh k) = 12 ∷ k ∷ []

abbrev key_script : Text → Script
key_script (k ∷ t) = p2pkh k
key_script [] = p2pkh 0

abbrev from_tagged : ℕ → Text → Script
from_tagged tag t =
    if tag == 10 then plain (decode t) else if tag == 11 then p2sh t else key_script t

abbrev from_bytes : Text → Script
from_bytes [] = p2pkh 0
from_bytes (tag ∷ t) = from_tagged tag t

pub from_bytes-to_bytes : (s : Script) → from_bytes (to_bytes s) ≡ s
from_bytes-to_bytes (plain ps) = rw (decode-encode ps)
from_bytes-to_bytes (p2sh t) = refl
from_bytes-to_bytes (p2pkh k) = refl

abbrev pub testnet_key : ℕ → PrivateKey ℕ
testnet_key k = record { compressed = true; network = testnet; key = k }

abbrev read_wif : Text → Option (PrivateKey ℕ)
read_wif (k ∷ []) = some (testnet_key k)
read_wif _ = none

abbrev hash_address : Script → Option Text
hash_address (p2sh t) = some t
hash_address _ = none

-- A key is printed as so many letters.
abbrev pub tally : ℕ → Text
tally zero = []
tally (suc k) = 97 ∷ tally k

abbrev length : Text → ℕ
length [] = 0
length (c ∷ t) = suc (length t)

length-tally : (k : ℕ) → length (tally k) ≡ k
length-tally zero = refl
length-tally (suc k) = ap suc (length-tally k)

tally-IsAscii : (k : ℕ) → IsAscii (tally k)
tally-IsAscii zero = tt
tally-IsAscii (suc k) = (omega arith, tally-IsAscii k)

-- A number that is not negative is one byte, and 0 is none.
abbrev script_num : ℤ → Text
script_num (pos zero) = []
script_num (pos (suc n)) = suc n ∷ []
script_num (negsuc n) = n ∷ 128 ∷ []

abbrev read_num : Text → Option ℤ
read_num [] = some (pos 0)
read_num (n ∷ []) = some (pos n)
read_num _ = none

pub read_num-script_num : (n : ℕ) → read_num (script_num (pos n)) ≡ some (pos n)
read_num-script_num zero = refl
read_num-script_num (suc n) = refl

abbrev key_bytes : ℕ → Text
key_bytes k = k ∷ []

abbrev pub toy : BitcoinLib
toy = record {
  SecretKey = ℕ;
  PublicKey = ℕ;
  Signature = ℕ × ℕ;
  SigHash = ℕ;
  Txid = Text;
  Script = Script;
  Address = Text;
  public_key = λ sk. sk.key;
  to_wif = λ sk. sk.key ∷ [];
  from_wif = read_wif;
  key_to_string = tally;
  key_from_str = λ t. some (length t);
  txid_from_str = λ t. some t;
  txid_to_string = λ t. t;
  hex_encode = λ t. t;
  hex_decode = λ t. some t;
  build = λ ps. plain (map (item_of key_bytes script_num) ps);
  to_bytes = to_bytes;
  from_bytes = from_bytes;
  new_p2sh = λ s. p2sh (to_bytes s);
  new_p2pkh = p2pkh;
  address_from_script = λ s n. hash_address s;
  address_to_string = λ a. codes "2N";
  signature_hash = λ t i s flag. t.lock_time + i + flag;
  sign = λ m sk. (m, sk);
  serialize_der = λ s. s.0 ∷ s.1 ∷ [];
  txid = λ t. codes "beef";
  serialize = λ t. t.version ∷ t.lock_time ∷ [];
}

abbrev items_of : Script → List Item
items_of (plain items) = items
items_of _ = []

abbrev signed_by : Text → Text → ℕ → Bool
signed_by (k ∷ []) sig m = text_eq sig (m ∷ k ∷ 1 ∷ [])
signed_by _ sig m = false

abbrev pub toy_rules : ScriptRules toy
toy_rules = record {
  items_of = items_of;
  script_num = script_num;
  read_num = read_num;
  key_bytes = key_bytes;
  hash160 = λ t. t;
  p2sh_hash = hash_address;
  check_signature = signed_by;
  items_of-build = λ ps. refl;
  script_num-one = refl;
  read_num-script_num = λ n fits. read_num-script_num n;
  from_bytes-to_bytes = from_bytes-to_bytes;
  p2sh_hash-new = λ s. refl;
  check_signature-sign = λ sk m. text_eq_refl (m ∷ sk.key ∷ 1 ∷ []);
  signature_hash-blank = λ t u i s flag same. ap (λ x. x.lock_time + i + flag) same;
}

pub toy_keys : KeyText toy
toy_keys = record {
  from_str-to_string = λ k. ap some (length-tally k);
  is_utf8-to_string = λ k. ascii-is_utf8 (tally k) (tally-IsAscii k);
}
