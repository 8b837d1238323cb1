-- ===== src/Grin/Types.antt =====
-- src/grin/grin_types.rs, and the JSON answers of src/grin/grin_core_responses.rs.
use mw_btc_swap.Prelude.{ℕ, ℤ, Text, Option}

-- `MWCoin`
pub record MwCoin : Type 0 where
  pub commitment : Text
  pub blinding_factor : Text
  pub value : ℕ

pub record Error : Type 0 where
  pub code : ℤ
  pub message : Text

-- `JsonRPCResponse<T>`
pub record JsonRpcResponse (T : Type 0) : Type 0 where
  pub id : Text
  pub jsonrpc : Text
  pub result : Option T
  pub error : Option Error

-- `GetTipResultOk`, the only field of `GetTipResult`.
pub record GetTipResult : Type 0 where
  pub height : ℕ
  pub last_block_pushed : Text
  pub prev_block_to_last : Text
  pub total_difficulty : ℕ

-- `serde_json::from_str` at the two types that src/grin/grin_core.rs asks for.
pub record GrinJson : Type 0 where
  pub get_tip : Text → Option (JsonRpcResponse GetTipResult)
  pub push_result : Text → Option (JsonRpcResponse Unit)
