-- ===== src/Bitcoin/Responses.antt =====
-- src/bitcoin/bitcoin_core_responses.rs, and the JSON parser `serde_json` of these types.
use mw_btc_swap.Prelude.{ℕ, ℤ, Text, Bool, Option, List}
use mw_btc_swap.Bitcoin.Amount.{F32}

pub record Error : Type 0 where
  pub code : ℤ
  pub message : Text

pub record JsonRpcResponse (T : Type 0) : Type 0 where
  pub result : Option T
  pub error : Option Error
  pub id : Text

pub record NetworkInfoResult : Type 0 where
  pub version : ℕ
  pub subversion : Text
  pub localservices : Text
  pub localservicesnames : List Text
  pub localrelay : Bool
  pub timeoffset : ℕ
  pub networkactive : Bool
  pub connections : ℕ
  pub relayfee : F32
  pub incrementalfee : F32
  pub warnings : Text

-- `UTXO`
pub record Utxo : Type 0 where
  pub txid : Text
  pub vout : ℕ
  pub address : Text
  pub label : Text
  pub script_pub_key : Text
  pub amount : F32
  pub confirmations : ℕ
  pub spendable : Bool
  pub solvable : Bool
  pub safe : Bool

abbrev pub NetworkInfo : Type 0
NetworkInfo = JsonRpcResponse NetworkInfoResult

abbrev pub ListUnspentResponse : Type 0
ListUnspentResponse = JsonRpcResponse (List Utxo)

abbrev pub SendRawTxResponse : Type 0
SendRawTxResponse = JsonRpcResponse Text

-- The result of this response is not optional.
pub record BlockCountResponse : Type 0 where
  pub result : ℕ
  pub error : Option Error
  pub id : Text

-- `serde_json::from_str` at each type that src/bitcoin/bitcoin_core.rs asks for.
pub record BtcJson : Type 0 where
  pub network_info : Text → Option NetworkInfo
  pub import_address : Text → Option (JsonRpcResponse Unit)
  pub list_unspent : Text → Option ListUnspentResponse
  pub block_count : Text → Option BlockCountResponse
  pub send_raw_tx : Text → Option SendRawTxResponse
