-- ===== src/Commands/Import/Counted.antt =====
-- What the listener counts after an import (src/commands/cmd_types/import_grin.rs, import_btc.rs).
use mw_btc_swap.Prelude.{
  ℕ, ◌≡◌, ◌∙◌, refl, sym, ap, List, [], ◌∷◌, ◌++◌, Outcome, ok, err, panic, unwrap, unwrap_option,
  Profile, add_u64,
}
use mw_btc_swap.Prelude.Results.{ok_injective, ◌>>=◌, >>=-returns}
use mw_btc_swap.Settings.{Settings}
use mw_btc_swap.Bitcoin.Crate.{BitcoinLib}
use mw_btc_swap.Bitcoin.Types.{BtcInput}
use mw_btc_swap.Grin.Types.{MwCoin}
use mw_btc_swap.Swap.Types.{SwapSlate}
use mw_btc_swap.Swap.Slate.{SlateJson, Disk, read_slate_from_disk}
use mw_btc_swap.Commands.Listen.{grin_value, btc_value}
use mw_btc_swap.Commands.Import.{
  ImportBtc, ImportGrin, import_btc, import_grin, push_btc, push_grin, btc_input, grin_coin,
}

return : {A : Type 0} (r : Outcome A) → (r >>= λ a. ok a) ≡ r
return (ok a) = refl
return (err e) = refl
return panic = refl

bind_assoc :
    {A B C : Type 0} (r : Outcome A) (f : A → Outcome B) (g : B → Outcome C)
    → ((r >>= f) >>= g) ≡ (r >>= λ a. f a >>= g)
bind_assoc (ok a) f g = refl
bind_assoc (err e) f g = refl
bind_assoc panic f g = refl

grin_value-append :
    (p : Profile) (v : ℕ) (coins : List MwCoin) (coin : MwCoin)
    → grin_value p v (coins ++ (coin ∷ [])) ≡ (grin_value p v coins >>= λ s. add_u64 p s coin.value)
unfolding grin_value
grin_value-append p v [] coin = return (add_u64 p v coin.value)
grin_value-append p v (c ∷ coins) coin =
    ap (λ f. add_u64 p v c.value >>= f) (λ i s. grin_value-append p s coins coin i)
    ∙ sym
        (bind_assoc (add_u64 p v c.value) (λ s. grin_value p s coins) (λ s. add_u64 p s coin.value))

btc_value-append :
    (p : Profile) (v : ℕ) (inputs : List BtcInput) (input : BtcInput)
    → btc_value p v (inputs ++ (input ∷ []))
      ≡ (btc_value p v inputs >>= λ s. add_u64 p s input.value)
unfolding btc_value
btc_value-append p v [] input = return (add_u64 p v input.value)
btc_value-append p v (c ∷ inputs) input =
    ap (λ f. add_u64 p v c.value >>= f) (λ i s. btc_value-append p s inputs input i)
    ∙ sym (
        bind_assoc (add_u64 p v c.value) (λ s. btc_value p s inputs) (λ s. add_u64 p s input.value))

unwrap-returns : {A : Type 0} (r : Outcome A) {a : A} → unwrap r ≡ ok a → r ≡ ok a
unwrap-returns (ok a) h = h
unwrap-returns (err e) h = cc
unwrap-returns panic h = cc

module _ {Tx : Type 0} (json : SlateJson Tx) (settings : Settings) (p : Profile) (d : Disk) where
  -- Where import_grin returns a slate, the slate on the disk was read, its public part and the
  -- Bitcoin private part are kept, and the sum that listen makes of the Grin inputs is the sum for
  -- the slate that was read with the imported value added by the u64 addition of the build, an
  -- overflow as listen treats it.
  pub import_grin-counted :
      (self : ImportGrin) {later : SwapSlate Tx}
      → import_grin json settings self d ≡ ok later
      → (slate : SwapSlate Tx) × (read_slate_from_disk json self.swpid settings.slate_directory d
          ≡ ok slate)
        × (later.pub_slate ≡ slate.pub_slate)
        × (later.prv_slate.btc ≡ slate.prv_slate.btc)
        × (grin_value p 0 later.prv_slate.mw.inputs
            ≡ (grin_value p 0 slate.prv_slate.mw.inputs >>= λ s. add_u64 p s self.value))
  unfolding import_grin
  import_grin-counted self imported =
      let (slate, read, pushed) =
        >>=-returns (unwrap (read_slate_from_disk json self.swpid settings.slate_directory d))
          (λ slate. ok (push_grin (grin_coin self) slate)) imported in
      let same = sym (ok_injective pushed) in
      (
        slate,
        unwrap-returns _ read,
        ap (λ s. s.pub_slate) same,
        ap (λ s. s.prv_slate.btc) same,
        ap (λ s. grin_value p 0 s.prv_slate.mw.inputs) same
            ∙ grin_value-append p 0 slate.prv_slate.mw.inputs (grin_coin self),
      )

  -- Where import_btc returns a slate, the slate on the disk was read, its public part and the Grin
  -- private part are kept, and the sum that listen makes of the Bitcoin inputs is the sum for the
  -- slate that was read with the imported value added by the u64 addition of the build, an
  -- overflow as listen treats it.
  pub import_btc-counted :
      (lib : BitcoinLib) (self : ImportBtc) {later : SwapSlate Tx}
      → import_btc json settings lib self d ≡ ok later
      → (slate : SwapSlate Tx) × (read_slate_from_disk json self.swpid settings.slate_directory d
          ≡ ok slate)
        × (later.pub_slate ≡ slate.pub_slate)
        × (later.prv_slate.mw ≡ slate.prv_slate.mw)
        × (btc_value p 0 later.prv_slate.btc.inputs
            ≡ (btc_value p 0 slate.prv_slate.btc.inputs >>= λ s. add_u64 p s self.value))
  unfolding import_btc
  import_btc-counted lib self imported =
      let (slate, read, parsed) =
        >>=-returns (unwrap (read_slate_from_disk json self.swpid settings.slate_directory d))
          (λ slate. unwrap_option (lib.from_wif self.sk) >>= λ key.
            ok (push_btc (btc_input lib self key) slate))
          imported in
      let (key, is_key, pushed) =
        >>=-returns (unwrap_option (lib.from_wif self.sk))
          (λ key. ok (push_btc (btc_input lib self key) slate)) parsed in
      let same = sym (ok_injective pushed) in
      (
        slate,
        unwrap-returns _ read,
        ap (λ s. s.pub_slate) same,
        ap (λ s. s.prv_slate.mw) same,
        ap (λ s. btc_value p 0 s.prv_slate.btc.inputs) same
            ∙ btc_value-append p 0 slate.prv_slate.btc.inputs (btc_input lib self key),
      )
