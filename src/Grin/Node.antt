-- ===== src/Grin/Node.antt =====
-- src/grin/grin_core.rs: the two calls of a Grin node.
use mw_btc_swap.Prelude.{
  ℕ, Text, codes, text_eq, true, Option, none, some, List, [], ◌∷◌, ◌++◌, Outcome, ok, err,
  unwrap_option, if◌then◌else◌, to_string,
}
use mw_btc_swap.Prelude.Results.{◌>>=◌ as ◌>>=ₒ◌}
use mw_btc_swap.Prelude.Actions.{Action, lift, ◌>>=◌}
use mw_btc_swap.Settings.{GrinNodeSettings}
use mw_btc_swap.Net.Http.{
  JsonRpcParam, bool, tx, RequestFactory, HttpResponse, Wire, new_json_rpc_request, execute,
}
use mw_btc_swap.Grin.Types.{Error, GrinJson}

-- The fields of `GrinCore` that the calls of the node use.
pub record GrinNode : Type 0 where
  pub settings : GrinNodeSettings
  pub req_factory : RequestFactory

-- The tests of a parsed response: its error, then its id, then what it carries.
unfoldable pub checked {ℓ} : {A : Type ℓ} → Text → Text → Option Error → Outcome A → Outcome A
checked expected id error result = elim error [
  | some e ↦ err e.message
  | none ↦ if text_eq id expected then result else err (codes "Invalid JRPC response id")
]

module _ {Tx : Type 0} where
  unfoldable pub call : GrinNode → Text → List (JsonRpcParam Tx) → Action (Wire Tx) HttpResponse
  unfolding new_json_rpc_request execute
  call node method params = execute (
      new_json_rpc_request node.req_factory
        (codes "http://"
          ++ (node.settings.url
              ++ (codes ":" ++ (to_string node.settings.port ++ codes "/v2/foreign"))))
        (record { jsonrpc = codes "2.0"; id = node.settings.id; method = method; params = params })
        node.settings.user node.settings.pass)

  module _ (json : GrinJson) (node : GrinNode) where
    unfoldable pub get_block_height : Action (Wire Tx) ℕ
    unfolding call checked
    get_block_height = do
      x ← call node (codes "get_tip") []
      parsed ← lift (unwrap_option (json.get_tip x.content))
      lift (
          checked node.settings.id parsed.id parsed.error
            (unwrap_option parsed.result >>=ₒ λ tip. ok tip.height))

    unfoldable pub push_transaction : Tx → Action (Wire Tx) Unit
    unfolding call checked
    push_transaction t = do
      x ← call node (codes "push_transaction") (tx t ∷ bool true ∷ [])
      parsed ← lift (unwrap_option (json.push_result x.content))
      lift (checked node.settings.id parsed.id parsed.error (ok tt))
