-- ===== src/Grin/Pedersen.antt =====
-- What is documented of the crates behind src/grin: Pedersen commitments add up, blinding factors
-- are summed and split, and the steps of a transaction keep what they do not change.
use mw_btc_swap.Prelude.{ℕ, ◌+◌, ◌≡◌, ◌∙◌, sym, ap, some, List, [], ◌∷◌, ◌++◌}
use mw_btc_swap.Bitcoin.Crate.{BitcoinLib}
use mw_btc_swap.Grin.Crate.{GrinTypes, GrinCrate, BlindSum, Output, Slate, Context}

-- The group of the points of the curve, written additively; the inverse is not needed.
pub record Points : Type 1 where
  pub Point : Type 0
  pub plus : Point → Point → Point
  pub origin : Point
  pub plus_assoc : (a b c : Point) → plus (plus a b) c ≡ plus a (plus b c)
  pub plus_comm : (a b : Point) → plus a b ≡ plus b a
  pub plus_origin : (a : Point) → plus a origin ≡ a

module _ (pts : Points) where
  open pts use {Point, plus, origin, plus_assoc, plus_comm, plus_origin}

  abbrev pub sum_of : {A : Type 0} → (A → Point) → List A → Point
  sum_of f [] = origin
  sum_of f (x ∷ xs) = plus (f x) (sum_of f xs)

  pub origin_plus : (a : Point) → plus origin a ≡ a
  origin_plus a = plus_comm origin a ∙ plus_origin a

  pub right_comm : (a b c : Point) → plus (plus a b) c ≡ plus (plus a c) b
  right_comm a b c = plus_assoc a b c ∙ ap (plus a) (plus_comm b c) ∙ sym (plus_assoc a c b)

  pub shuffle : (a b c d : Point) → plus (plus (plus a b) c) d ≡ plus a (plus c (plus d b))
  shuffle a b c d =
      plus_assoc (plus a b) c d
      ∙ plus_assoc a b (plus c d)
      ∙ ap (plus a) (plus_comm b (plus c d) ∙ plus_assoc c d b)

  pub sum_of-snoc :
      {A : Type 0} (f : A → Point) (xs : List A) (x : A)
      → sum_of f (xs ++ (x ∷ [])) ≡ plus (sum_of f xs) (f x)
  sum_of-snoc f [] x = plus_comm (f x) origin
  sum_of-snoc f (y ∷ xs) x =
      ap (plus (f y)) (sum_of-snoc f xs x) ∙ sym (plus_assoc (f y) (sum_of f xs) (f x))

-- `value v` is v times the one generator, `secret k` is k times the other.
pub record Pedersen {lib : BitcoinLib} {t : GrinTypes} (g : GrinCrate lib t) (pts : Points)
    : Type 0 where
  pub point : t.Commitment → pts.Point
  pub value : ℕ → pts.Point
  pub secret : t.SecretKey → pts.Point
  pub blind : t.BlindingFactor → pts.Point
  pub value_zero : value 0 ≡ pts.origin
  pub value_add : (a b : ℕ) → value (a + b) ≡ pts.plus (value a) (value b)
  pub commit_lem :
      (v : ℕ) (k : t.SecretKey) (c : t.Commitment)
      → g.commit v k ≡ some c
      → point c ≡ pts.plus (value v) (secret k)
  pub blind-from_secret_key : (k : t.SecretKey) → blind (g.bf_from_secret_key k) ≡ secret k
  pub secret-key :
      (b : t.BlindingFactor) (k : t.SecretKey) → g.bf_secret_key b ≡ some k → secret k ≡ blind b
  pub blind-split :
      (a b c : t.BlindingFactor) → g.bf_split a b ≡ some c → pts.plus (blind c) (blind b) ≡ blind a
  pub blind-blind_sum :
      (chain : t.Keychain) (s : BlindSum t.BlindingFactor) (b : t.BlindingFactor)
      → g.blind_sum chain s ≡ some b
      → pts.plus (blind b) (sum_of pts blind s.negative_blinding_factors)
        ≡ sum_of pts blind s.positive_blinding_factors

module _ {lib : BitcoinLib} {t : GrinTypes} {g : GrinCrate lib t} {pts : Points}
    (ped : Pedersen g pts) where
  abbrev pub outputs_of : t.Transaction → pts.Point
  outputs_of tx = sum_of pts (λ o. ped.point (Output.commit o)) (g.tx_outputs tx)

  abbrev pub inputs_of : t.Transaction → pts.Point
  inputs_of tx = sum_of pts ped.point (g.tx_inputs tx)

-- A transaction has the inputs and outputs that were put into it, in whatever order; only
-- `update_kernel` and the caller change the transaction of a slate.
pub record Bookkeeping {lib : BitcoinLib} {t : GrinTypes} {g : GrinCrate lib t} {pts : Points}
    (ped : Pedersen g pts) : Type 0 where
  pub outputs-empty : g.tx_outputs g.empty_tx ≡ []
  pub inputs-transaction_new :
      (i : List t.Commitment) (o : List (Output t)) (k : List t.Kernel)
      → inputs_of ped (g.transaction_new i o k) ≡ sum_of pts ped.point i
  pub outputs-transaction_new :
      (i : List t.Commitment) (o : List (Output t)) (k : List t.Kernel)
      → outputs_of ped (g.transaction_new i o k) ≡ sum_of pts (λ x. ped.point (Output.commit x)) o
  pub inputs-with_output :
      (o : Output t) (tx : t.Transaction) → inputs_of ped (g.with_output o tx) ≡ inputs_of ped tx
  pub outputs-with_output :
      (o : Output t) (tx : t.Transaction)
      → outputs_of ped (g.with_output o tx) ≡ pts.plus (ped.point o.commit) (outputs_of ped tx)
  pub inputs-with_offset :
      (b : t.BlindingFactor) (tx : t.Transaction)
      → inputs_of ped (g.with_offset b tx) ≡ inputs_of ped tx
  pub outputs-with_offset :
      (b : t.BlindingFactor) (tx : t.Transaction)
      → outputs_of ped (g.with_offset b tx) ≡ outputs_of ped tx
  pub tx-fill_round_1 :
      (chain : t.Keychain) (c : Context t) (s s' : Slate t)
      → g.fill_round_1 chain c s ≡ some s'
      → s'.tx ≡ s.tx
  pub offset-fill_round_1 :
      (chain : t.Keychain) (c : Context t) (s s' : Slate t)
      → g.fill_round_1 chain c s ≡ some s'
      → s'.offset ≡ s.offset
  pub tx-fill_round_2 :
      (chain : t.Keychain) (k n : t.SecretKey) (s s' : Slate t)
      → g.fill_round_2 chain k n s ≡ some s'
      → s'.tx ≡ s.tx
  pub tx-update_kernel :
      (s s' : Slate t) (tx : t.Transaction)
      → g.update_kernel s ≡ some s'
      → s.tx ≡ some tx
      → (tx' : t.Transaction) × (s'.tx ≡ some tx')
        × (inputs_of ped tx' ≡ inputs_of ped tx)
        × (outputs_of ped tx' ≡ outputs_of ped tx)
