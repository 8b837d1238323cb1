-- ===== src/Constants.antt =====
-- src/constants.rs.
use mw_btc_swap.Prelude.{ℕ, Bool, true, ◌*◌}

-- satoshis in one bitcoin
abbrev pub btc_sats : ℕ
btc_sats = 100000000

-- nanogrins in one grin
abbrev pub nano_grin : ℕ
nano_grin = 1000000000

abbrev pub grin_max_nanogrin : ℕ
grin_max_nanogrin = 10000000 * nano_grin

abbrev pub btc_max_sats : ℕ
btc_max_sats = 21000000 * 100000000

-- five days, in minutes
abbrev pub max_timeout : ℕ
max_timeout = 60 * 24 * 5

abbrev pub btc_block_time : ℕ
btc_block_time = 10

abbrev pub grin_block_time : ℕ
grin_block_time = 1

abbrev pub test_net : Bool
test_net = true

abbrev pub ffffffff : ℕ
ffffffff = 4294967295

abbrev pub sighash_all : ℕ
sighash_all = 1

abbrev pub btc_fee : ℕ
btc_fee = 500

abbrev pub max_attempts_verf_funds : ℕ
max_attempts_verf_funds = 120
