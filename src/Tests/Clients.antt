-- ===== src/Tests/Clients.antt =====
-- Small JSON parsers and node clients: a node answers its height in decimal.
use mw_btc_swap.Prelude.{codes, negsuc, true, none, some, [], ◌∷◌, debug, parse_u64}
use mw_btc_swap.Bitcoin.Responses.{Utxo, BtcJson}
use mw_btc_swap.Bitcoin.Core.{BitcoinCore}
use mw_btc_swap.Grin.Types.{GrinJson}
use mw_btc_swap.Grin.Node.{GrinNode}
use mw_btc_swap.Swap.World.{Clients}
use mathlib.Core.Option.{map as map_option}

abbrev pub btc_core : BitcoinCore
btc_core = record {
  settings = record { url = codes "btc"; user = []; pass = []; port = 18332; id = codes "b" };
  req_factory = record { response_stub = none };
}

abbrev half_bitcoin : Utxo
half_bitcoin = record {
  txid = codes "beef";
  vout = 0;
  address = codes "2N";
  label = [];
  script_pub_key = [];
  amount = record { mantissa = 8388608; exponent = negsuc 23 };
  confirmations = 1;
  spendable = true;
  solvable = true;
  safe = true;
}

abbrev pub btc_json : BtcJson
btc_json = record {
  network_info = λ t. none;
  import_address = λ t. some (record { result = some tt; error = none; id = codes "b" });
  list_unspent =
      λ t. some (record { result = some (half_bitcoin ∷ []); error = none; id = codes "b" });
  block_count =
      λ t. map_option (λ h. record { result = h; error = none; id = codes "b" }) (parse_u64 t);
  send_raw_tx = λ t. some (record { result = some t; error = none; id = codes "b" });
}

abbrev pub grin_core : GrinNode
grin_core = record {
  settings = record { url = codes "grin"; user = []; pass = []; port = 13413; id = codes "g" };
  req_factory = record { response_stub = none };
}

abbrev pub grin_json : GrinJson
grin_json = record {
  get_tip = λ t.
      map_option
        (λ h. record {
          id = codes "g";
          jsonrpc = codes "2.0";
          result = some (record {
            height = h;
            last_block_pushed = [];
            prev_block_to_last = [];
            total_difficulty = 0;
          });
          error = none;
        })
        (parse_u64 t);
  push_result =
      λ t. some (record { id = codes "g"; jsonrpc = codes "2.0"; result = some tt; error = none });
}

abbrev pub clients : Clients
clients = record {
  profile = debug;
  btc_core = btc_core;
  btc_json = btc_json;
  grin_core = grin_core;
  grin_json = grin_json;
}
