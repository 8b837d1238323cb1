-- ===== src/Swap/Types.antt =====
-- src/swap/swap_types.rs: the slate, in its public and its private part. `Tx` is the transaction
-- type of the Grin crates.
use mw_btc_swap.Prelude.{ℕ, ℤ, Text, Option, List}
use mw_btc_swap.Enums.{SwapStatus, SwapType}
use mw_btc_swap.Bitcoin.Types.{BtcInput}
use mw_btc_swap.Grin.Types.{MwCoin}

pub record Meta : Type 0 where
  pub server : Text
  pub port : Text

-- `MWPub`
pub record MwPub : Type 0 where
  pub amount : ℕ
  pub timelock : ℕ
  pub lock_time : Option ℤ
  pub swap_type : SwapType

-- `MWPriv`
pub record MwPriv (Tx : Type 0) : Type 0 where
  pub inputs : List MwCoin
  pub partial_key : ℕ
  pub shared_coin : Option MwCoin
  pub change_coin : Option MwCoin
  pub refund_coin : Option MwCoin
  pub swapped_coin : Option MwCoin
  pub refund_tx : Option Tx

-- `BTCPub`
pub record BtcPub : Type 0 where
  pub amount : ℕ
  pub timelock : ℕ
  pub swap_type : SwapType
  pub lock_time : Option ℤ
  pub pub_a : Option Text
  pub pub_b : Option Text
  pub pub_x : Option Text

-- `BTCPriv`
pub record BtcPriv : Type 0 where
  pub inputs : List BtcInput
  pub witness : ℕ
  pub sk : Option Text
  pub x : Option Text
  pub r_sk : Option Text
  pub change : Option BtcInput
  pub swapped : Option BtcInput
  pub lock : Option BtcInput
  pub refunded : Option BtcInput

pub record SwapSlatePub : Type 0 where
  pub status : SwapStatus
  pub mw : MwPub
  pub btc : BtcPub
  pub meta : Meta

pub record SwapSlatePriv (Tx : Type 0) : Type 0 where
  pub mw : MwPriv Tx
  pub btc : BtcPriv

pub record SwapSlate (Tx : Type 0) : Type 0 where
  pub id : ℕ
  pub pub_slate : SwapSlatePub
  pub prv_slate : SwapSlatePriv Tx
