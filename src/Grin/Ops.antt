-- ===== src/Grin/Ops.antt =====
-- What src/swap/protocol.rs uses of the Grin side: the two-party transaction protocols of
-- src/grin/grin_tx.rs as an interface over the TCP stream, and functions of the Grin crates.
use mw_btc_swap.Prelude.{ℕ, Option, List}
use mw_btc_swap.Prelude.Actions.{Action}
use mw_btc_swap.Net.Tcp.{Stream}
use mw_btc_swap.Bitcoin.Crate.{BitcoinLib}
use mw_btc_swap.Grin.Types.{MwCoin}

-- `DBuildMWTxResult`, `DSharedOutMwTxResult`, `ContractMwResult`
pub record DBuildMwTxResult (Slate : Type 0) : Type 0 where
  pub tx : Slate
  pub coin : Option MwCoin

pub record DSharedOutMwTxResult (Slate : Type 0) : Type 0 where
  pub tx : Slate
  pub change_coin : Option MwCoin
  pub shared_coin : MwCoin

pub record ContractMwResult (Slate SecretKey : Type 0) : Type 0 where
  pub tx : Slate
  pub coin : Option MwCoin
  pub x : SecretKey

-- `State` is what a `GrinTx` holds: its keychain and its source of randomness.
pub record GrinOps (lib : BitcoinLib) : Type 1 where
  pub Tx : Type 0
  pub Slate : Type 0
  pub SecretKey : Type 0
  pub PublicKey : Type 0
  pub State : Type 0
  pub slate_tx : Slate → Option Tx
  pub tx_fee : ℕ → ℕ → ℕ → ℕ
  -- `PublicKey::from_slice(pk.to_bytes())`, `SecretKey::from_slice(sk.to_bytes())` and back
  pub pk_from_btc : lib.PublicKey → Option PublicKey
  pub sk_from_btc : lib.SecretKey → Option SecretKey
  pub sk_to_btc : SecretKey → Option lib.SecretKey
  pub dshared_out_mw_tx_alice :
      List MwCoin → ℕ → ℕ → Action (State × Stream) (DSharedOutMwTxResult Slate)
  pub dshared_out_mw_tx_bob : ℕ → Action (State × Stream) (DSharedOutMwTxResult Slate)
  pub dshared_inp_mw_tx_alice : MwCoin → ℕ → ℕ → Action (State × Stream) (DBuildMwTxResult Slate)
  pub dshared_inp_mw_tx_bob : MwCoin → ℕ → ℕ → Action (State × Stream) (DBuildMwTxResult Slate)
  pub dcontract_mw_tx_alice :
      MwCoin → ℕ → ℕ → PublicKey → Action (State × Stream) (ContractMwResult Slate SecretKey)
  pub dcontract_mw_tx_bob :
      MwCoin → ℕ → ℕ → SecretKey → Action (State × Stream) (ContractMwResult Slate SecretKey)
