-- ===== src/Enums.antt =====
-- src/enums.rs.
use mw_btc_swap.Prelude.{Bool, true, false}

pub data HttpMethod : Type 0 where
  get post : HttpMethod

pub data Currency : Type 0 where
  btc grin : Currency

pub data SwapStatus : Type 0 where
  initialized setup executing finished failed : SwapStatus

pub data SwapType : Type 0 where
  offered requested : SwapType

-- The derived `PartialEq`s.
abbrev pub is_post : HttpMethod → Bool
is_post post = true
is_post get = false

abbrev pub is_btc : Currency → Bool
is_btc btc = true
is_btc grin = false

abbrev pub is_grin : Currency → Bool
is_grin grin = true
is_grin btc = false

abbrev pub is_offered : SwapType → Bool
is_offered offered = true
is_offered requested = false

abbrev pub is_setup : SwapStatus → Bool
is_setup setup = true
is_setup _ = false

abbrev pub is_initialized : SwapStatus → Bool
is_initialized initialized = true
is_initialized _ = false
