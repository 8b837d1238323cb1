-- ===== src/Tests/Grin/Toy.antt =====
-- A small instance of the Grin crates: keys, commitments and signatures are integers, a slate is
-- printed as one word, and four words are read as the slates that the parties of a contract send.
use mw_btc_swap.Prelude.{
  ℕ, zero, suc, ◌+◌, ℤ, pos, negsuc, Text, codes, text_eq, Bool, true, false, Option, none, some,
  List, [], ◌∷◌, ◌++◌, if◌then◌else◌, ◌==◌,
}
use mw_btc_swap.Grin.Crate.{GrinTypes, Output, ParticipantData, Slate, Context, SerMpCtx, GrinCrate}
use mw_btc_swap.Grin.Routines.{zeros}
use mw_btc_swap.Grin.Pedersen.{sum_of}
use mw_btc_swap.Tests.Crate.{toy}
use mw_btc_swap.Tests.Grin.Integers.{◌+ℤ◌, ◌-ℤ◌, int_points}

pub record ToyTx : Type 0 where
  pub inputs : List ℤ
  pub outputs : List (ℤ × ℕ)
  pub kernels : List ℕ
  pub offset : ℤ

abbrev pub types : GrinTypes
types = record {
  SecretKey = ℤ;
  PublicKey = ℤ;
  Signature = ℤ;
  Message = ℕ;
  Commitment = ℤ;
  RangeProof = ℕ;
  BlindingFactor = ℤ;
  Keychain = ℕ;
  Kernel = ℕ;
  Transaction = ToyTx;
  FeeFields = ℕ;
  SlateRest = ℕ;
}

-- An integer in two letters; the zero key in the digits that the program reads as the zero key.
abbrev pub write_int : ℤ → Text
write_int (pos n) = 0 ∷ n ∷ []
write_int (negsuc n) = 1 ∷ n ∷ []

abbrev pub read_int : Text → Option ℤ
read_int (tag ∷ n ∷ []) = if tag == 0 then some (pos n) else some (negsuc n)
read_int t = none

abbrev pub or_zero : Option ℤ → ℤ
or_zero none = pos 0
or_zero (some k) = k

abbrev pub is_zero : ℤ → Bool
is_zero (pos zero) = true
is_zero (pos (suc n)) = false
is_zero (negsuc n) = false

abbrev pub write_key : ℤ → Text
write_key k = if is_zero k then zeros else write_int k

-- A text in front of another one, letter by letter.
abbrev pub put : Text → Text → Text
put [] out = 0 ∷ 0 ∷ out
put (c ∷ s) out = 1 ∷ c ∷ put s out

abbrev pub cons_part : ℕ → Text × Text → Text × Text
cons_part c (s, rest) = (c ∷ s, rest)

abbrev pub take_text : Text → Text × Text
take_text (tag ∷ c ∷ rest) =
    let parts = take_text rest in if tag == 0 then ([], rest) else cons_part c parts
take_text s = ([], s)

abbrev pub write_ctx : SerMpCtx → Text
write_ctx c = c.amount ∷ put c.t_1 (put c.t_2 (put c.shared_nonce (put c.commit (put c.tau_x []))))

abbrev read_fields : ℕ → Text → SerMpCtx
read_fields amount s =
    let (t_1, s1) = take_text s in
    let (t_2, s2) = take_text s1 in
    let (shared_nonce, s3) = take_text s2 in
    let (commit, s4) = take_text s3 in
    let (tau_x, s5) = take_text s4 in
    record {
      t_1 = t_1;
      t_2 = t_2;
      amount = amount;
      shared_nonce = shared_nonce;
      commit = commit;
      tau_x = tau_x;
    }

abbrev pub read_ctx : Text → Option SerMpCtx
read_ctx [] = none
read_ctx (amount ∷ s) = some (read_fields amount s)

abbrev pub to_pairs : List (Output types) → List (ℤ × ℕ)
to_pairs [] = []
to_pairs (o ∷ os) = (o.commit, o.proof) ∷ to_pairs os

abbrev pub of_pairs : List (ℤ × ℕ) → List (Output types)
of_pairs [] = []
of_pairs ((c, p) ∷ ps) = record { commit = c; proof = p } ∷ of_pairs ps

abbrev pub empty_tx : ToyTx
empty_tx = record { inputs = []; outputs = []; kernels = []; offset = pos 0 }

abbrev pub sum_ints : List ℤ → ℤ
sum_ints ks = sum_of int_points (λ k. k) ks

abbrev pub sign : ℤ → Option ℤ → Option ℤ → ℤ
sign k n none = k +ℤ or_zero n
sign k n (some x) = k +ℤ or_zero n +ℤ x

abbrev entry : ℤ → ℤ → Option ℤ → ParticipantData types
entry k n sig = record { public_blind_excess = k; public_nonce = n; part_sig = sig }

abbrev blank : ℕ → Bool → ℕ → Option ℕ → Slate types
blank n invoice features args = record {
  num_participants = n;
  tx = some empty_tx;
  amount = 0;
  fee_fields = 0;
  kernel_features = features;
  kernel_features_args = args;
  offset = pos 0;
  participant_data = [];
  rest = 0;
}

-- The slates of Bob: his entry is the third, with the signature given.
abbrev pub answer : ℤ → Slate types
answer sig =
    let slate = blank 3 false 0 none in
    record slate {
      participant_data =
          entry (pos 1) (pos 2) none
          ∷ entry (pos 3) (pos 4) none
          ∷ entry (pos 30) (pos 31) (some sig)
          ∷ [];
    }

-- The slates of Alice: one input, and her entry.
abbrev offer : List (ParticipantData types) → Slate types
offer entries =
    let slate = blank 3 false 0 none in
    let tx = empty_tx in
    record slate {
      tx = some (record tx { inputs = pos 910 ∷ [] });
      amount = 897;
      participant_data = entries;
    }

abbrev alice_signed : List (ParticipantData types)
alice_signed =
    entry (pos 1) (pos 2) (some (pos 3))
    ∷ entry (negsuc 9) (pos 35) none
    ∷ entry (pos 30) (pos 31) (some (pos 66))
    ∷ []

-- Bob's key 30, his nonce 31, and the secret 5.
abbrev pub read_slate : Text → Option (Slate types)
read_slate s =
    if text_eq s (codes "one")
    then some (answer (pos 66))
    else if text_eq s (codes "two")
    then some (answer (pos 61))
    else if text_eq s (codes "offer")
    then some (offer (entry (pos 1) (pos 2) none ∷ []))
    else if text_eq s (codes "signed")
    then some (offer alice_signed)
    else none

abbrev append_entry : Context types → Slate types → Slate types
append_entry c s = record s {
  participant_data = s.participant_data ++ (entry c.sec_key c.sec_nonce none ∷ []);
}

abbrev to_btc : ℤ → Option ℕ
to_btc (pos n) = some n
to_btc (negsuc n) = none

abbrev pub toy_grin : GrinCrate toy types
toy_grin = record {
  zero_key = pos 0;
  secret_to_bytes = write_key;
  secret_from_slice = read_int;
  key_add_assign = λ a b. some (a +ℤ b);
  key_neg_assign = λ a. some (pos 0 -ℤ a);
  new_public_key = pos 0;
  is_valid = λ k. if is_zero k then false else true;
  from_secret_key = some;
  from_combination = λ ks. some (sum_ints ks);
  public_eq = λ a b. is_zero (a -ℤ b);
  public_to_bytes = write_int;
  public_from_slice = read_int;
  sig_eq = λ a b. is_zero (a -ℤ b);
  raw_s = write_int;
  commit = λ v k. some (pos v +ℤ k);
  commit_sum = λ a b. some (sum_ints a -ℤ sum_ints b);
  commit_to_bytes = write_int;
  commit_from_vec = λ s. or_zero (read_int s);
  bullet_proof = λ v k rewind nonce. v;
  verify_bullet_proof = λ c proof. true;
  bullet_proof_multisig = λ amount blind shared tau_x t_one t_two commitments nonce step. record {
    proof = some amount;
    tau_x = or_zero tau_x;
    t_one = t_one;
    t_two = t_two;
  };
  sign_single = λ m k n x r q f. some (sign k n x);
  verify_single = λ sig m r k q x partial. true;
  bf_from_secret_key = λ k. k;
  bf_secret_key = some;
  bf_split = λ a b. some (a -ℤ b);
  blind_sum = λ chain s.
      some (sum_ints s.positive_blinding_factors -ℤ sum_ints s.negative_blinding_factors);
  tx_fee = λ i o k. i + o + k;
  fee_fields_new = λ shift fee. some fee;
  empty_tx = empty_tx;
  transaction_new =
      λ i o k. record { inputs = i; outputs = to_pairs o; kernels = k; offset = pos 0 };
  tx_inputs = λ tx. tx.inputs;
  tx_outputs = λ tx. of_pairs tx.outputs;
  tx_kernels = λ tx. tx.kernels;
  with_output = λ o tx. record tx { outputs = (o.commit, o.proof) ∷ tx.outputs };
  with_offset = λ b tx. record tx { offset = b };
  blank_with_kernel_features = blank;
  fill_round_1 = λ chain c s. some (append_entry c s);
  fill_round_2 = λ chain k n s. some s;
  update_kernel = some;
  finalize = λ chain s. some s;
  pub_nonce_sum = λ s. some (pos 1);
  pub_blind_sum = λ s. some (pos 2);
  msg_to_sign = λ s. some (s.amount);
  slate_to_text = λ s. some (codes "slate");
  deserialize_upgrade = read_slate;
  ctx_to_text = λ c. some (write_ctx c);
  ctx_from_text = read_ctx;
  pk_from_btc = λ n. some (pos n);
  sk_from_btc = λ n. some (pos n);
  sk_to_btc = to_btc;
}
