-- ===== src/Swap/Locking.antt =====
-- src/swap/protocol.rs: the setup phase of the two parties.
pub mod Verified
pub mod Agreement
pub mod Parties
pub mod OneInput
pub mod OtherAddress
use mw_btc_swap.Prelude.{
  Text, codes, text_eq, true, ok, some, List, add_u64, sub_u64, unwrap, to_string, parse_i64,
  if◌then◌else◌,
}
use mw_btc_swap.Prelude.Actions.{pure, fail, lift, after, ◌>>=◌, ◌>>◌}
use mw_btc_swap.Constants.{btc_fee, max_attempts_verf_funds}
use mw_btc_swap.Enums.{failed, setup}
use mw_btc_swap.Bitcoin.Crate.{BitcoinLib, PrivateKey, testnet}
use mw_btc_swap.Bitcoin.Types.{BtcInput, new2}
use mw_btc_swap.Bitcoin.Routines.{Tx, create_lock_transaction, get_lock_pub_script}
use mw_btc_swap.Bitcoin.Signing.{
  nth, sign_p2pkh_transaction, serialize_priv_key, serialize_pub_key, deserialize_pub_key,
  deserialize_priv_key, deserialize_script,
}
use mw_btc_swap.Grin.Ops.{GrinOps}
use mw_btc_swap.Swap.World.{
  Clients, Step, on_grin, set_status, set_pub_btc, set_pub_mw, set_prv_btc, set_prv_mw, to_i64,
  to_u64,
}
use mw_btc_swap.Swap.Calls.{
  send, receive, grin_height, btc_height, push_grin, import_address, send_btc, get_slate, need,
  new_private_key,
}
use mw_btc_swap.Swap.Verify.{verify_funds}
use mw_btc_swap.Prelude.{[], ◌∷◌, ℤ}

-- What the Mimblewimble side knows when it has computed the lock address.
pub record Lock (lib : BitcoinLib) : Type 0 where
  pub sk_a : PrivateKey lib.SecretKey
  pub pub_script : lib.Script
  pub addr : lib.Address

module _ {lib : BitcoinLib} {ops : GrinOps lib} (cl : Clients) where
  -- `locking_phase_swap_mw` up to the address on which the bitcoins are to be locked.
  unfoldable pub exchange_keys_mw : Step lib ops (Lock lib)
  unfolding get_lock_pub_script parse_i64
  exchange_keys_mw = do
    set_status setup
    sk_a ← new_private_key
    set_prv_btc (λ b. record b { sk = some (serialize_priv_key lib sk_a) })
    set_pub_btc (λ b. record b { pub_a = some (serialize_pub_key lib (lib.public_key sk_a)) })
    send cl (serialize_pub_key lib (lib.public_key sk_a))
    msg_b ← receive cl
    pub_b ← lift (deserialize_pub_key lib msg_b)
    set_pub_btc (λ b. record b { pub_b = some (serialize_pub_key lib pub_b) })
    msg_x ← receive cl
    pub_x ← lift (deserialize_pub_key lib msg_x)
    set_pub_btc (λ b. record b { pub_x = some (serialize_pub_key lib pub_x) })
    msg_time ← receive cl
    lock_time_btc ← need (parse_i64 msg_time)
    set_pub_btc (λ b. record b { lock_time = some lock_time_btc })
    pub_script ←
        lift (ok (get_lock_pub_script lib (lib.public_key sk_a) pub_x pub_b lock_time_btc true))
    addr ← need (lib.address_from_script pub_script testnet)
    after unwrap (import_address cl (lib.address_to_string addr))
    pure (record { sk_a = sk_a; pub_script = pub_script; addr = addr })

  -- What follows when the locked funds are verified.
  unfoldable pub lock_grin : Text → Lock lib → Step lib ops Unit
  lock_grin txid l = do
    slate ← get_slate
    set_prv_btc (λ b. record b {
      lock =
          some (
            new2 lib txid 0 slate.pub_slate.btc.amount l.sk_a (lib.public_key l.sk_a) l.pub_script);
    })
    height ← after unwrap (grin_height cl)
    grin_lock_height ← lift (add_u64 cl.profile height slate.pub_slate.mw.timelock)
    lock_time ← lift (to_i64 grin_lock_height)
    set_pub_mw (λ m. record m { lock_time = some lock_time })
    send cl (to_string grin_lock_height)
    shared ←
        on_grin (ops.dshared_out_mw_tx_alice slate.prv_slate.mw.inputs slate.pub_slate.mw.amount 0)
    set_prv_mw
        (λ m. record m { shared_coin = some shared.shared_coin; change_coin = shared.change_coin })
    -- printed
    need shared.change_coin
    fund_value ← lift (sub_u64 cl.profile shared.shared_coin.value (ops.tx_fee 1 1 1))
    refund ← on_grin (ops.dshared_inp_mw_tx_bob shared.shared_coin fund_value grin_lock_height)
    set_prv_mw (λ m. record m { refund_coin = refund.coin; refund_tx = ops.slate_tx refund.tx })
    tx ← need (ops.slate_tx shared.tx)
    push_grin cl tx

  unfoldable pub locking_phase_swap_mw : Step lib ops Unit
  locking_phase_swap_mw = do
    l ← exchange_keys_mw
    address ← receive cl
    txid ← receive cl
    if text_eq (lib.address_to_string l.addr) address
        then (do
          slate ← get_slate
          verified_funds ←
              verify_funds cl (lib.address_to_string l.addr) slate.pub_slate.btc.amount
                max_attempts_verf_funds
          if verified_funds then lock_grin txid l else (do
            set_status failed
            fail (codes "Failed to verify that btc funds are correctly locked")))
        else (do
          set_status failed
          fail (
              codes
                "Lock address sent by Bob doesn't match what we have calculated, stopping swap"))

  -- `locking_phase_swap_btc` up to the keys of the lock script: the two own keys, then the peer's.
  unfoldable pub exchange_keys_btc : Step lib ops (
      PrivateKey lib.SecretKey
      × PrivateKey lib.SecretKey
      × PrivateKey lib.SecretKey
      × lib.PublicKey)
  exchange_keys_btc = do
    set_status setup
    sk_b ← new_private_key
    set_pub_btc (λ b. record b { pub_b = some (serialize_pub_key lib (lib.public_key sk_b)) })
    set_prv_btc (λ b. record b { sk = some (serialize_priv_key lib sk_b) })
    sk_r ← new_private_key
    set_prv_btc (λ b. record b { r_sk = some (serialize_priv_key lib sk_r) })
    x ← new_private_key
    set_prv_btc (λ b. record b { x = some (serialize_priv_key lib x) })
    set_pub_btc (λ b. record b { pub_x = some (serialize_pub_key lib (lib.public_key x)) })
    msg_alice ← receive cl
    pub_a ← lift (deserialize_pub_key lib msg_alice)
    set_pub_btc (λ b. record b { pub_a = some (serialize_pub_key lib pub_a) })
    send cl (serialize_pub_key lib (lib.public_key sk_b))
    send cl (serialize_pub_key lib (lib.public_key x))
    pure (sk_b, sk_r, x, pub_a)

  -- The lock height, and the lock transaction, signed with the key of the first input.
  unfoldable pub lock_height_btc : Step lib ops ℤ
  lock_height_btc = do
    btc_current_height ← btc_height cl
    slate ← get_slate
    sum ← lift (add_u64 cl.profile btc_current_height slate.pub_slate.btc.timelock)
    btc_lock_height ← lift (to_i64 sum)
    send cl (to_string sum)
    set_pub_btc (λ b. record b { lock_time = some btc_lock_height })
    pure btc_lock_height

  unfoldable pub sign_lock : Tx lib → List BtcInput → Step lib ops (Tx lib)
  unfolding sign_p2pkh_transaction nth
  sign_lock tx_lock inputs = do
    inp ← lift (nth inputs 0)
    inp_pub_script ← lift (deserialize_script lib inp.pub_script)
    inp_sk ← lift (deserialize_priv_key lib inp.secret)
    lift (
        sign_p2pkh_transaction lib tx_lock (inp_pub_script ∷ []) (inp_sk ∷ [])
          (lib.public_key inp_sk ∷ []))

  -- What follows when the lock transaction is published.
  unfoldable pub share_grin : Step lib ops Unit
  unfolding parse_i64
  share_grin = do
    msg_alice ← receive cl
    lock_height_grin ← need (parse_i64 msg_alice)
    set_pub_mw (λ m. record m { lock_time = some lock_height_grin })
    slate ← get_slate
    shared ← on_grin (ops.dshared_out_mw_tx_bob slate.pub_slate.mw.amount)
    set_prv_mw (λ m. record m { shared_coin = some shared.shared_coin })
    fund_value ← lift (sub_u64 cl.profile shared.shared_coin.value (ops.tx_fee 1 1 1))
    lock_height ← lift (to_u64 lock_height_grin)
    on_grin (ops.dshared_inp_mw_tx_alice shared.shared_coin fund_value lock_height)
    pure tt

  unfoldable pub locking_phase_swap_btc : Step lib ops Unit
  locking_phase_swap_btc = do
    (sk_b, sk_r, x, pub_a) ← exchange_keys_btc
    btc_lock_height ← lock_height_btc
    slate ← get_slate
    tx_lock ← lift (
        create_lock_transaction lib cl.profile pub_a (lib.public_key x) (lib.public_key sk_b)
          (lib.public_key sk_r) slate.prv_slate.btc.inputs slate.pub_slate.btc.amount btc_fee
          btc_lock_height)
    lock_out ← lift (nth tx_lock.output 0)
    ch_out ← lift (nth tx_lock.output 1)
    address ← need (lib.address_from_script lock_out.script_pubkey testnet)
    signed_tx ← sign_lock tx_lock slate.prv_slate.btc.inputs
    send_btc cl signed_tx
    set_prv_btc (λ b. record b {
      change = some (
          new2 lib (lib.txid_to_string (lib.txid signed_tx)) 1 ch_out.value sk_r
            (lib.public_key sk_r) ch_out.script_pubkey);
    })
    send cl (lib.address_to_string address)
    send cl (lib.txid_to_string (lib.txid signed_tx))
    set_prv_btc (λ b. record b {
      lock = some (
          new2 lib (lib.txid_to_string (lib.txid signed_tx)) 0 slate.pub_slate.btc.amount sk_b
            (lib.public_key sk_b) lock_out.script_pubkey);
    })
    share_grin
