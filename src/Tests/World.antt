-- ===== src/Tests/World.antt =====
-- The Grin protocols of the tests, a slate of half a bitcoin, and the worlds of a party: the Grin
-- side is locked up to height 600, the Bitcoin side up to height 700.
use mw_btc_swap.Prelude.{ℕ, ◌+◌, Text, codes, none, some, List, [], ◌∷◌, ◌++◌, pos, ok}
use mw_btc_swap.Enums.{setup, offered, requested}
use mw_btc_swap.Net.Tcp.{Arrival, bytes, newline}
use mw_btc_swap.Net.Http.{Reply, answered}
use mw_btc_swap.Grin.Types.{MwCoin}
use mw_btc_swap.Grin.Ops.{GrinOps}
use mw_btc_swap.Swap.Types.{SwapSlate}
use mw_btc_swap.Swap.World.{World}
use mw_btc_swap.Tests.Crate.{toy}

abbrev coin : MwCoin
coin = record { commitment = codes "c"; blinding_factor = codes "r"; value = 900 }

-- Transactions are numbers, and every protocol succeeds.
abbrev pub ops : GrinOps toy
ops = record {
  Tx = ℕ;
  Slate = ℕ;
  SecretKey = ℕ;
  PublicKey = ℕ;
  State = ℕ;
  slate_tx = some;
  tx_fee = λ i o k. i + o + k;
  pk_from_btc = some;
  sk_from_btc = some;
  sk_to_btc = some;
  dshared_out_mw_tx_alice = λ inputs value timelock s.
      (ok (record { tx = 1; change_coin = some coin; shared_coin = coin }), s);
  dshared_out_mw_tx_bob =
      λ value s. (ok (record { tx = 1; change_coin = none; shared_coin = coin }), s);
  dshared_inp_mw_tx_alice = λ c value timelock s. (ok (record { tx = 2; coin = none }), s);
  dshared_inp_mw_tx_bob = λ c value timelock s. (ok (record { tx = 2; coin = some coin }), s);
  dcontract_mw_tx_alice = λ c value timelock k s. (ok (record { tx = 3; coin = none; x = 2 }), s);
  dcontract_mw_tx_bob =
      λ c value timelock k s. (ok (record { tx = 3; coin = some coin; x = k }), s);
}

abbrev pub slate : SwapSlate ℕ
slate = record {
  id = 1;
  pub_slate = record {
    status = setup;
    mw = record { amount = 900; timelock = 100; lock_time = some (pos 600); swap_type = offered };
    btc = record {
      amount = 50000000;
      timelock = 50;
      swap_type = requested;
      lock_time = some (pos 700);
      pub_a = none;
      pub_b = none;
      pub_x = none;
    };
    meta = record { server = []; port = [] };
  };
  prv_slate = record {
    mw = record {
      inputs = coin ∷ [];
      partial_key = 0;
      shared_coin = some coin;
      change_coin = none;
      refund_coin = some coin;
      swapped_coin = none;
      refund_tx = some 2;
    };
    btc = record {
      inputs = [];
      witness = 0;
      sk = none;
      x = none;
      r_sk = none;
      change = none;
      swapped = none;
      lock = none;
      refunded = none;
    };
  };
}

abbrev pub line : Text → Arrival
line t = bytes (t ++ newline ∷ [])

abbrev pub reply : Text → Reply
reply t = answered 200 t

abbrev pub world : List Arrival → List Reply → World toy ops
world incoming replies = record {
  slate = slate;
  stream = record { incoming = incoming; outgoing = []; write_error = none };
  wire = record { replies = replies; sent = [] };
  grin_tx = 0;
  entropy = 1 ∷ 5 ∷ [];
  slept = 0;
}
