-- ===== src/Swap/Locking/Verified.antt =====
-- What the setup phase of src/swap/protocol.rs has seen on the Mimblewimble side when it ends.
use mw_btc_swap.Prelude.{
  ◌≡◌, ◌≢◌, ◌∙◌, inl, inr, Bool, true, false, Text, codes, ok, err, text_eq, text_eq_sound,
  if◌then◌else◌, ap, sym, refl,
}
use mw_btc_swap.Prelude.Tests.{Bool-cases}
use mw_btc_swap.Prelude.Actions.{otherwise, fail, Action, >>=-ok, >>=-step, ◌>>=◌, ◌>>◌}
use mw_btc_swap.Constants.{max_attempts_verf_funds}
use mw_btc_swap.Enums.{failed}
use mw_btc_swap.Bitcoin.Crate.{BitcoinLib}
use mw_btc_swap.Grin.Ops.{GrinOps}
use mw_btc_swap.Swap.World.{Clients, World, Step, set_status}
use mw_btc_swap.Swap.Calls.{receive, get_slate}
use mw_btc_swap.Swap.Verify.{verify_funds}
use mw_btc_swap.Swap.Verify.Polls.{FundsSeen, verify_funds-FundsSeen}
use mw_btc_swap.Swap.Locking.{Lock, exchange_keys_mw, lock_grin, locking_phase_swap_mw}

-- The stages of a setup phase: the keys, Bob's address and txid, the funds, the Grin side.
pub record LockedMw {lib : BitcoinLib} {ops : GrinOps lib} (cl : Clients) (w w' : World lib ops)
    : Type 0 where
  pub lock : Lock lib
  pub txid : Text
  pub w1 : World lib ops
  pub w2 : World lib ops
  pub w3 : World lib ops
  pub w4 : World lib ops
  pub exchanged : exchange_keys_mw cl w ≡ (ok lock, w1)
  pub address_received : receive cl w1 ≡ (ok (lib.address_to_string lock.addr), w2)
  pub txid_received : receive cl w2 ≡ (ok txid, w3)
  pub funds :
      FundsSeen cl
        (lib.address_to_string lock.addr)
        w3.slate.pub_slate.btc.amount
        max_attempts_verf_funds
        w3
        w4
  pub locked : lock_grin cl txid lock w4 ≡ (ok tt, w')

chosen {ℓ} :
    {S A : Type ℓ} (b : Bool) (m : Action S A) (k : Action S (Unit {ℓ})) (e : Text) {s t : S}
    {a : A}
    → (if b then m else (k >> fail e)) s ≡ (ok a, t)
    → (b ≡ true) × (m s ≡ (ok a, t))
chosen true m k e run = (refl, run)
chosen false m k e {s} run = let (u, s', done, run1) = >>=-ok k (λ x. fail e) {s = s} run in cc

text_eq-≢ : (s t : Text) → s ≢ t → text_eq s t ≡ false
text_eq-≢ s t other = elim (Bool-cases (text_eq s t)) [
  | inl same ↦ elim (other (text_eq_sound s t same)) [ ]
  | inr different ↦ different
]

abbrev unverified : Text
unverified = codes "Failed to verify that btc funds are correctly locked"

abbrev pub mismatch : Text
mismatch = codes "Lock address sent by Bob doesn't match what we have calculated, stopping swap"

module _ {lib : BitcoinLib} {ops : GrinOps lib} (cl : Clients) where
  check_funds : Text → Lock lib → Step lib ops Unit
  check_funds txid l = do
    slate ← get_slate
    verified_funds ←
        verify_funds cl (lib.address_to_string l.addr) slate.pub_slate.btc.amount
          max_attempts_verf_funds
    if verified_funds then lock_grin cl txid l else (do
      set_status failed
      fail (codes "Failed to verify that btc funds are correctly locked"))

module _ {lib : BitcoinLib} {ops : GrinOps lib} (cl : Clients) {w w' : World lib ops} where
  -- If the setup phase of the Mimblewimble side succeeds, Bob has sent the very address that was
  -- computed from the keys, at most 120 polls have found exactly the agreed amount on it, and the
  -- Grin side was locked from the state after them.
  pub locking_phase_swap_mw-LockedMw : locking_phase_swap_mw cl w ≡ (ok tt, w') → LockedMw cl w w'
  unfolding locking_phase_swap_mw check_funds
  locking_phase_swap_mw-LockedMw run =
      let (l, w1, exchanged, run1) = >>=-ok (exchange_keys_mw cl) _ {s = w} run in
      let (address, w2, got_address, run2) = >>=-ok (receive cl) _ run1 in
      let (txid, w3, got_txid, run3) = >>=-ok (receive cl) _ run2 in
      let (equal, run4) =
        chosen (text_eq (lib.address_to_string l.addr) address) (check_funds cl txid l)
          (set_status failed) mismatch run3 in
      let (verified, w4, polled, run5) =
        >>=-ok
          (verify_funds cl (lib.address_to_string l.addr) w3.slate.pub_slate.btc.amount
            max_attempts_verf_funds)
          _ run4 in
      let (true_now, run6) =
        chosen verified (lock_grin cl txid l) (set_status failed) unverified run5 in
      let counted =
        verify_funds-FundsSeen cl (lib.address_to_string l.addr) w3.slate.pub_slate.btc.amount
          max_attempts_verf_funds in
      record {
        lock = l;
        txid = txid;
        w1 = w1;
        w2 = w2;
        w3 = w3;
        w4 = w4;
        exchanged = exchanged;
        address_received =
            got_address
            ∙ ap (λ a. (ok a, w2))
                (sym (text_eq_sound (lib.address_to_string l.addr) address equal));
        txid_received = got_txid;
        funds = counted.0 (polled ∙ ap (λ b. (ok b, w4)) true_now);
        locked = run6;
      }

module _ {lib : BitcoinLib} {ops : GrinOps lib} (cl : Clients) (w w1 w2 w3 : World lib ops)
    {lock : Lock lib} {address txid : Text} where
  -- Where Bob sends any other address than the computed one, the setup phase of the Mimblewimble
  -- side ends in the error "doesn't match" right after his two messages, with the status failed.
  pub locking_phase_swap_mw-mismatch :
      exchange_keys_mw cl w ≡ (ok lock, w1)
      → receive cl w1 ≡ (ok address, w2)
      → receive cl w2 ≡ (ok txid, w3)
      → lib.address_to_string lock.addr ≢ address
      → locking_phase_swap_mw cl w ≡ (err mismatch, (set_status failed w3).1)
  unfolding locking_phase_swap_mw check_funds
  locking_phase_swap_mw-mismatch exchanged got_address got_txid other =
      >>=-step (exchange_keys_mw cl) _ {s = w} exchanged
      ∙ >>=-step (receive cl) _ got_address
      ∙ >>=-step (receive cl) _ got_txid
      ∙ otherwise (text_eq (lib.address_to_string lock.addr) address) (check_funds cl txid lock)
          (set_status failed >> fail mismatch)
          (text_eq-≢ (lib.address_to_string lock.addr) address other)
