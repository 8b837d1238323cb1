-- ===== src/Lib.antt =====
-- mw-btc-swap, an atomic swap of Bitcoin and Grin (Mimblewimble) coins.
--
-- Two parties run the program. Each has a slate with a public and a private part
-- (src/swap/swap_types.rs), a TCP stream to the other (src/net/tcp.rs), and a Bitcoin Core and a
-- Grin node that it asks by JSON-RPC (src/net/http.rs, src/bitcoin/bitcoin_core.rs,
-- src/grin/grin_core.rs). The protocol (src/swap/protocol.rs) has three phases, each in a version
-- for the owner of the grins and in one for the owner of the bitcoins: the setup locks the coins
-- of both, the execution swaps them, and the refund gives them back after the lock times. The lock
-- output on the Bitcoin side is a P2SH script with two branches, redeem and refund, and
-- src/bitcoin/btcroutines.rs makes the transactions that lock it and that spend it.
--
-- Files and code:
--   Prelude, Prelude/*   texts as UTF-8 bytes, results with Err and panic, u64 arithmetic in debug
--                        and release builds, decimal numbers, actions on a state.
--   Constants, Enums, Settings   src/constants.rs, src/enums.rs, src/settings.rs.
--   Net/Tcp              src/net/tcp.rs: send_msg, receive_msg and what they call. Framing: how a
--                        line comes through chunks; Loss: what is lost between two reads.
--   Net/Http             src/net/http.rs: new_json_rpc_request, HttpRequest::execute.
--   Bitcoin/Crate        the crates bitcoin, secp256k1 and hex, as a record of types and functions.
--   Bitcoin/Amount       the f32 arithmetic of get_address_final_balance.
--   Bitcoin/Responses, Bitcoin/Types   bitcoin_core_responses.rs and bitcoin_types.rs.
--   Bitcoin/Core         src/bitcoin/bitcoin_core.rs: one function per method of BitcoinCore.
--   Bitcoin/Routines, Bitcoin/Signing   src/bitcoin/btcroutines.rs: the transactions and their
--                        signatures. The loops over inputs are lock_inputs, sign_p2pkh_inputs and
--                        sign_input_at.
--   Bitcoin/Script       how a node validates the spending of a P2SH output: a specification, after
--                        BIP 16 and BIP 65, and no code of the program.
--   Grin/Types, Grin/Node   grin_types.rs, grin_core_responses.rs; get_block_height and
--                        push_transaction of src/grin/grin_core.rs.
--   Grin/Ops             the six two-party protocols of src/grin/grin_tx.rs that the swap calls, as
--                        an interface over the keychain and the stream; Grin/Instance fills it.
--   Grin/Crate           the crates grin_core, grin_keychain, grin_util and grin_wallet_libwallet, as
--                        a record of types and functions.
--   Grin/Routines        src/grin/grin_routines.rs and MWCoin::new: keys and commitments as text,
--                        the proof context of a bulletproof of two parties and its rounds.
--   Grin/Core            src/grin/grin_core.rs. Spend: spend_coins; Joint: d_spend_coins; Recv:
--                        recv_coins and apt_recv_coins; Shared: drecv_coins_r1, r2 and r3; Fin:
--                        fin_tx and ext_witness. What two of these functions have in common is one
--                        definition.
--   Grin/Pedersen        a specification of commitments and of transactions as lists of inputs and
--                        outputs, and no code of the program.
--   Grin/Protocols       src/grin/grin_tx.rs: one function for each party of each protocol, over its
--                        keychain and its end of the stream.
--   Swap/Types           src/swap/swap_types.rs.
--   Swap/World, Swap/Calls   the state of a phase: slate, stream, network, keychain, the keys that
--                        the randomness generator will give, and the time slept; the calls on it.
--   Swap/Timing, Swap/Verify, Swap/Locking, Swap/Execution, Swap/Refund   src/swap/protocol.rs:
--                        check_if_enough_time and can_refund; the loop that waits for the funds; the
--                        setup, the execution and the refund of the two sides.
--   Swap/Slate           src/swap/slate.rs: the two files of a slate over a disk.
--   Commands/Init        src/commands/cmd_types/init.rs.
--   Commands/Parser, Commands/Arguments   src/commands/parser.rs.
--   Commands/Import      accept.rs, import_btc.rs and import_grin.rs in src/commands/cmd_types: the
--                        commands over a disk.
--   Commands/Connect, Commands/Listen   lock.rs, execute.rs and cancel.rs in
--                        src/commands/cmd_types, from the first message on; listen.rs over the
--                        clients that will connect.
--   Commands/Program     src/main.rs, and what the commands do before their first message: the slate
--                        is read, the peer connected, and the slate that is returned is written.
--   Tests/*              small instances of the interfaces, and the theorems at concrete inputs.
--
-- Bounds. Numbers are natural numbers; an operation on u64 that may overflow is add_u64 or sub_u64,
-- which panics in a debug build and wraps in a release build. The loop that waits for the funds
-- recurs on the attempts that remain, 120 at first, as in the code. The shift of Bitcoin/Amount
-- tries 27 steps: the product of a 24-bit mantissa and 10^8 has at most 51 bits. The printing of a
-- u64 has at most 20 digits.
--
-- Parameters. Cryptography, script encoding, addresses and hashes are the fields of BitcoinLib; the
-- laws that a node's rules need of them are the fields of ScriptRules. The Grin crates are the fields
-- of GrinCrate; what is documented of them is in Pedersen (commitments add up, blinding factors are
-- summed and split), Bookkeeping (a transaction has what was put into it), Schnorr (an extra secret
-- is added to the s of a signature) and ReadsBack (texts are read back). The JSON parsers, the
-- replies of the nodes, the chunks that arrive on the stream and the keys to come are data that the
-- model is given.
--
-- Not modelled: clap's own parsing, printing, the choice of the chain type, conversions of one
-- expression (grin_to_nanogrin, MWCoin::to_string), and the copy of grin-wallet, which is another
-- project.
pub mod Prelude
pub mod Constants
pub mod Enums
pub mod Settings
pub mod Net
pub mod Bitcoin
pub mod Grin
pub mod Swap
pub mod Commands
pub mod Tests
