-- ===== src/Bitcoin/Core.antt =====
-- src/bitcoin/bitcoin_core.rs: the JSON-RPC calls of a Bitcoin Core node.
pub mod Answers
pub mod Balance
use mw_btc_swap.Prelude.{
  ℕ, Text, codes, text_eq, false, Option, none, some, List, [], ◌∷◌, ◌++◌, Outcome, ok, err,
  unwrap_option, Profile, add_u64, if◌then◌else◌, to_string,
}
use mw_btc_swap.Prelude.Results.{◌>>=◌ as ◌>>=ₒ◌}
use mw_btc_swap.Prelude.Actions.{Action, lift, ◌>>=◌}
use mw_btc_swap.Settings.{BtcNodeSettings}
use mw_btc_swap.Net.Http.{
  JsonRpcParam, string, int, bool, vec, RequestFactory, HttpResponse, Wire, new_json_rpc_request,
  execute,
}
use mw_btc_swap.Bitcoin.Amount.{sat_amount}
use mw_btc_swap.Bitcoin.Responses.{Error, NetworkInfoResult, Utxo, BtcJson}

pub record BitcoinCore : Type 0 where
  pub settings : BtcNodeSettings
  pub req_factory : RequestFactory

unfoldable pub new : BtcNodeSettings → RequestFactory → BitcoinCore
new settings req_factory = record { settings = settings; req_factory = req_factory }

-- `format!("http://{}:{}", url, port)`
unfoldable pub get_url : BitcoinCore → Text
get_url core = codes "http://" ++ (core.settings.url ++ (codes ":" ++ to_string core.settings.port))

-- The tests of a parsed response: its id, then its error, then what it carries.
unfoldable pub checked {ℓ} :
    {A : Type ℓ} → Text → Text → Text → Option Error → Outcome A → Outcome A
checked mismatch expected id error result =
    if text_eq id expected
    then elim error [ some e ↦ err e.message | none ↦ result ]
    else err mismatch

-- The loop over the unspent outputs.
unfoldable pub sum_utxos : Profile → ℕ → List Utxo → Outcome ℕ
sum_utxos p balance [] = ok balance
sum_utxos p balance (e ∷ rest) =
    add_u64 p balance (sat_amount e.amount) >>=ₒ λ b. sum_utxos p b rest

module _ {Tx : Type 0} where
  -- The request that each method builds, and its execution.
  unfoldable pub call : BitcoinCore → Text → List (JsonRpcParam Tx) → Action (Wire Tx) HttpResponse
  unfolding new_json_rpc_request execute get_url
  call core method params = execute (
      new_json_rpc_request core.req_factory (get_url core)
        (record { jsonrpc = codes "1.0"; id = core.settings.id; method = method; params = params })
        core.settings.user core.settings.pass)

  module _ (json : BtcJson) (core : BitcoinCore) where
    unfoldable pub get_network_info : Action (Wire Tx) NetworkInfoResult
    unfolding call checked
    get_network_info = do
      x ← call core (codes "getnetworkinfo") []
      parsed ← lift (unwrap_option (json.network_info x.content))
      lift (
          checked (codes "RPC Request and Response id didn't match!") core.settings.id parsed.id
            parsed.error (unwrap_option parsed.result))

    -- `addr` is the text of the address.
    unfoldable pub import_btc_address : Text → Action (Wire Tx) Unit
    unfolding call checked
    import_btc_address addr = do
      x ← call core (codes "importaddress") (string addr ∷ string [] ∷ bool false ∷ [])
      parsed ← lift (unwrap_option (json.import_address x.content))
      lift (
          checked (codes "RPC Request and Response id didn't match") core.settings.id parsed.id
            parsed.error (ok tt))

    unfoldable pub get_address_final_balance : Profile → Text → Action (Wire Tx) ℕ
    unfolding call checked sum_utxos
    get_address_final_balance p addr = do
      x ← call core (codes "listunspent") (int 0 ∷ int 9999999 ∷ vec (addr ∷ []) ∷ [])
      parsed ← lift (unwrap_option (json.list_unspent x.content))
      lift (
          checked (codes "RPC Request and Response id didn't match!") core.settings.id parsed.id
            parsed.error (unwrap_option parsed.result >>=ₒ sum_utxos p 0))

    unfoldable pub get_current_block_height : Action (Wire Tx) ℕ
    unfolding call checked
    get_current_block_height = do
      x ← call core (codes "getblockcount") []
      parsed ← lift (unwrap_option (json.block_count x.content))
      lift (
          checked (codes "RPC Request and Response id mismacht") core.settings.id parsed.id
            parsed.error (ok parsed.result))

    -- `txhex` is the serialised transaction, hex encoded.
    unfoldable pub send_raw_transaction : Text → Action (Wire Tx) Unit
    unfolding call checked
    send_raw_transaction txhex = do
      x ← call core (codes "sendrawtransaction") (string txhex ∷ [])
      parsed ← lift (unwrap_option (json.send_raw_tx x.content))
      lift (
          checked (codes "RPC Request and Response id didn't match") core.settings.id parsed.id
            parsed.error (ok tt))
