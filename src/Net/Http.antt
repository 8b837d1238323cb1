-- ===== src/Net/Http.antt =====
-- src/net/http.rs: JSON-RPC requests over HTTP. `Tx` is the transaction type of the grin crates.
use mw_btc_swap.Prelude.{
  ℕ, Text, codes, Bool, ◌&&◌, Option, none, some, List, [], ◌∷◌, ◌++◌, Outcome, ok, err, panic, leb,
  ltb, ◌==◌, if◌then◌else◌, to_string,
}
use mw_btc_swap.Prelude.Actions.{Action}
use mw_btc_swap.Enums.{HttpMethod, post, is_post}

pub data JsonRpcParam (Tx : Type 0) : Type 0 where
  string : Text → JsonRpcParam Tx
  int : ℕ → JsonRpcParam Tx
  bool : Bool → JsonRpcParam Tx
  vec : List Text → JsonRpcParam Tx
  tx : Tx → JsonRpcParam Tx

pub record JsonRpc (Tx : Type 0) : Type 0 where
  pub jsonrpc : Text
  pub id : Text
  pub method : Text
  pub params : List (JsonRpcParam Tx)

pub record BasicAuth : Type 0 where
  pub username : Text
  pub password : Option Text

pub record HttpResponse : Type 0 where
  pub status : ℕ
  pub content : Text

pub record RequestFactory : Type 0 where
  pub response_stub : Option HttpResponse

pub record HttpRequest (Tx : Type 0) : Type 0 where
  pub url : Text
  pub method : HttpMethod
  pub body : JsonRpc Tx
  pub auth : Option BasicAuth
  pub response_stub : Option HttpResponse

-- What comes back from the network for one request.
pub data Reply : Type 0 where
  unreachable unreadable : Reply
  answered : ℕ → Text → Reply

-- The network: the replies to come, and the requests that were sent, oldest first.
pub record Wire (Tx : Type 0) : Type 0 where
  pub replies : List Reply
  pub sent : List (HttpRequest Tx)

-- One reply is taken off the network; where none is left, the node does not answer.
abbrev next_reply : List Reply → Reply
next_reply [] = unreachable
next_reply (r ∷ rest) = r

abbrev later_replies : List Reply → List Reply
later_replies [] = []
later_replies (r ∷ rest) = rest

abbrev pub is_success : ℕ → Bool
is_success status = leb 200 status && ltb status 300

-- The `expect`s on the request and on its text, and the test of the status.
unfoldable pub read_reply : Reply → Outcome HttpResponse
read_reply unreachable = panic
read_reply unreadable = panic
read_reply (answered status content) =
    if is_success status
    then ok (record { status = status; content = content })
    else err (
        codes "RPC Request failed with invalid respcode: "
        ++ (to_string status ++ (codes " " ++ content)))

-- The stub of the tests.
unfoldable pub read_stub : HttpResponse → Outcome HttpResponse
read_stub r =
    if r.status == 200
    then ok (record { status = r.status; content = r.content })
    else err (codes "RPC Request failed with invalid respcode: " ++ to_string r.status)

module _ {Tx : Type 0} where
  unfoldable pub new_json_rpc_request :
      RequestFactory → Text → JsonRpc Tx → Text → Text → HttpRequest Tx
  new_json_rpc_request factory url body username password = record {
    url = url;
    method = post;
    body = body;
    auth = some (record { username = username; password = some password });
    response_stub = factory.response_stub;
  }

  unfoldable pub execute : HttpRequest Tx → Action (Wire Tx) HttpResponse
  unfolding read_reply read_stub
  execute req w = elim req.response_stub [
    | some r ↦ (read_stub r, w)
    | none ↦
        if is_post req.method
        then (
          read_reply (next_reply w.replies),
          record { replies = later_replies w.replies; sent = w.sent ++ req ∷ [] },
        )
        else (err (codes "Http method currently not implemented"), w)
  ]
