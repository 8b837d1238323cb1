-- ===== src/Tests/Import.antt =====
-- src/commands/cmd_types/import_grin.rs, import_btc.rs: inputs for the slate of `Tests.World`.
use mw_btc_swap.Prelude.{ℕ, codes, ◌≡◌, refl, some, ok, false, add_u64, debug}
use mw_btc_swap.Prelude.Results.{◌>>=◌}
use mw_btc_swap.Swap.Types.{SwapSlate}
use mw_btc_swap.Swap.Slate.{Disk, read_slate_from_disk}
use mw_btc_swap.Commands.Listen.{grin_value}
use mw_btc_swap.Commands.Import.{ImportGrin, import_grin, push_grin, grin_coin}
use mw_btc_swap.Commands.Import.Counted.{import_grin-counted}
use mw_btc_swap.Tests.World.{slate}
use mw_btc_swap.Tests.Commands.{json, settings}

abbrev full_disk : Disk
full_disk = record { files = λ p. some (codes "{}"); refused = λ p. false }

abbrev coin : ImportGrin
coin = record { swpid = 1; commitment = codes "09"; blinding_factor = codes "07"; value = 40 }

coin_imported : import_grin json settings coin full_disk ≡ ok (push_grin (grin_coin coin) slate)
unfolding import_grin read_slate_from_disk
coin_imported = refl

import_grin-counted_example :
    (read : SwapSlate ℕ) × (read_slate_from_disk json 1 settings.slate_directory full_disk
      ≡ ok read)
    × (slate.pub_slate ≡ read.pub_slate)
    × (slate.prv_slate.btc ≡ read.prv_slate.btc)
    × (grin_value debug 0 ((push_grin (grin_coin coin) slate).prv_slate.mw.inputs)
        ≡ (grin_value debug 0 read.prv_slate.mw.inputs >>= λ s. add_u64 debug s 40))
import_grin-counted_example = import_grin-counted json settings debug full_disk coin coin_imported
