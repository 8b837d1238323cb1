-- ===== src/Settings.antt =====
-- src/settings.rs: connection settings. The `clone` methods copy every field.
use mw_btc_swap.Prelude.{ℕ, Text}

pub record BtcNodeSettings : Type 0 where
  pub url : Text
  pub user : Text
  pub pass : Text
  pub port : ℕ
  pub id : Text

pub record GrinNodeSettings : Type 0 where
  pub url : Text
  pub user : Text
  pub pass : Text
  pub port : ℕ
  pub id : Text

pub record Settings : Type 0 where
  pub btc : BtcNodeSettings
  pub grin : GrinNodeSettings
  pub tcp_addr : Text
  pub tcp_port : Text
  pub slate_directory : Text
