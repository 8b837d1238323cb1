-- ===== src/Grin/Instance.antt =====
-- The protocols of src/grin/grin_tx.rs as what src/swap/protocol.rs calls: `GrinTx` behind the
-- interface of Grin/Ops.
use mw_btc_swap.Prelude.{Profile}
use mw_btc_swap.Bitcoin.Crate.{BitcoinLib}
use mw_btc_swap.Grin.Crate.{GrinTypes, GrinCrate, Slate}
use mw_btc_swap.Grin.Routines.{GrinCore, estimate_fees}
use mw_btc_swap.Grin.Ops.{GrinOps}
use mw_btc_swap.Grin.Protocols.Shared.{dshared_out_mw_tx_alice, dshared_out_mw_tx_bob}
use mw_btc_swap.Grin.Protocols.Spending.{dshared_inp_mw_tx_alice, dshared_inp_mw_tx_bob}
use mw_btc_swap.Grin.Protocols.Contract.{dcontract_mw_tx_alice, dcontract_mw_tx_bob}

abbrev pub grin_ops : {lib : BitcoinLib} {t : GrinTypes} → GrinCrate lib t → Profile → GrinOps lib
grin_ops {lib} {t} g p = record {
  Tx = t.Transaction;
  Slate = Slate t;
  SecretKey = t.SecretKey;
  PublicKey = t.PublicKey;
  State = GrinCore t;
  slate_tx = λ s. s.tx;
  tx_fee = estimate_fees g;
  pk_from_btc = g.pk_from_btc;
  sk_from_btc = g.sk_from_btc;
  sk_to_btc = g.sk_to_btc;
  dshared_out_mw_tx_alice = dshared_out_mw_tx_alice g p;
  dshared_out_mw_tx_bob = dshared_out_mw_tx_bob g p;
  dshared_inp_mw_tx_alice = dshared_inp_mw_tx_alice g p;
  dshared_inp_mw_tx_bob = dshared_inp_mw_tx_bob g p;
  dcontract_mw_tx_alice = dcontract_mw_tx_alice g p;
  dcontract_mw_tx_bob = dcontract_mw_tx_bob g p;
}
