-- ===== src/Swap/World.antt =====
-- What the functions of src/swap/protocol.rs are given by reference, as one state.
use mw_btc_swap.Prelude.{
  ℕ, ◌+◌, ℤ, pos, negsuc, List, [], ◌∷◌, Outcome, ok, panic, Profile, leb, i64_max, if◌then◌else◌,
}
use mw_btc_swap.Prelude.Actions.{Action}
use mw_btc_swap.Enums.{SwapStatus}
use mw_btc_swap.Net.Tcp.{Stream}
use mw_btc_swap.Net.Http.{Wire}
use mw_btc_swap.Bitcoin.Crate.{BitcoinLib}
use mw_btc_swap.Bitcoin.Responses.{BtcJson}
use mw_btc_swap.Bitcoin.Core.{BitcoinCore}
use mw_btc_swap.Grin.Types.{GrinJson}
use mw_btc_swap.Grin.Node.{GrinNode}
use mw_btc_swap.Grin.Ops.{GrinOps}
use mw_btc_swap.Swap.Types.{SwapSlate, SwapSlatePub, BtcPub, BtcPriv, MwPub, MwPriv}

-- The node clients with their JSON parsers, and the build.
pub record Clients : Type 0 where
  pub profile : Profile
  pub btc_core : BitcoinCore
  pub btc_json : BtcJson
  pub grin_core : GrinNode
  pub grin_json : GrinJson

-- `entropy` holds the keys that the randomness generator will give; `slept` the seconds that the
-- thread has slept.
pub record World (lib : BitcoinLib) (ops : GrinOps lib) : Type 0 where
  pub slate : SwapSlate ops.Tx
  pub stream : Stream
  pub wire : Wire ops.Tx
  pub grin_tx : ops.State
  pub entropy : List lib.SecretKey
  pub slept : ℕ

abbrev pub Step : (lib : BitcoinLib) → GrinOps lib → Type 0 → Type 0
Step lib ops A = Action (World lib ops) A

module _ {lib : BitcoinLib} {ops : GrinOps lib} where
  module _ {A : Type 0} where
    abbrev pub on_stream : Action Stream A → Step lib ops A
    on_stream m w = let (r, s) = m w.stream in (r, record w { stream = s })

    abbrev pub on_wire : Action (Wire ops.Tx) A → Step lib ops A
    on_wire m w = let (r, s) = m w.wire in (r, record w { wire = s })

    abbrev pub on_grin : Action (ops.State × Stream) A → Step lib ops A
    on_grin m w =
        let (r, s) = m (w.grin_tx, w.stream) in (r, record w { grin_tx = s.0; stream = s.1 })

  abbrev pub take_key : List lib.SecretKey → World lib ops → Outcome lib.SecretKey × World lib ops
  take_key [] w = (panic, w)
  take_key (k ∷ ks) w = (ok k, record w { entropy = ks })

  -- `SecretKey::new(rng)`
  abbrev pub new_secret_key : Step lib ops lib.SecretKey
  new_secret_key w = take_key w.entropy w

  abbrev pub sleep : ℕ → Step lib ops Unit
  sleep seconds w = (ok tt, record w { slept = w.slept + seconds })

  abbrev pub set_pub : (SwapSlatePub → SwapSlatePub) → Step lib ops Unit
  set_pub f w = (ok tt, record w { slate = record w.slate { pub_slate = f w.slate.pub_slate } })

  abbrev pub set_status : SwapStatus → Step lib ops Unit
  set_status s = set_pub (λ p. record p { status = s })

  abbrev pub set_pub_btc : (BtcPub → BtcPub) → Step lib ops Unit
  set_pub_btc f = set_pub (λ p. record p { btc = f p.btc })

  abbrev pub set_pub_mw : (MwPub → MwPub) → Step lib ops Unit
  set_pub_mw f = set_pub (λ p. record p { mw = f p.mw })

  abbrev pub set_prv_btc : (BtcPriv → BtcPriv) → Step lib ops Unit
  set_prv_btc f w = (
    ok tt,
    record w {
      slate = record w.slate {
        prv_slate = record w.slate.prv_slate { btc = f w.slate.prv_slate.btc };
      };
    },
  )

  abbrev pub set_prv_mw : (MwPriv ops.Tx → MwPriv ops.Tx) → Step lib ops Unit
  set_prv_mw f w = (
    ok tt,
    record w {
      slate = record w.slate {
        prv_slate = record w.slate.prv_slate { mw = f w.slate.prv_slate.mw };
      };
    },
  )

-- `i64::try_from(n).unwrap()`, `u64::try_from(z).unwrap()`
abbrev pub to_i64 : ℕ → Outcome ℤ
to_i64 n = if leb n i64_max then ok (pos n) else panic

abbrev pub to_u64 : ℤ → Outcome ℕ
to_u64 (pos n) = ok n
to_u64 (negsuc n) = panic
