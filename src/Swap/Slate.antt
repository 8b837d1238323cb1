-- ===== src/Swap/Slate.antt =====
-- src/swap/slate.rs: the two files of a slate. `Json` is serde_json at the two parts of a slate.
pub mod Files
pub mod Accept
use mw_btc_swap.Prelude.{
  ℕ, Text, codes, text_eq, Bool, true, false, not, ◌||◌, Option, none, some, [], ◌++◌, Outcome, ok,
  err, panic, unwrap_option, if◌then◌else◌, to_string,
}
use mw_btc_swap.Prelude.Results.{◌>>=◌ as ◌>>=ₒ◌}
use mw_btc_swap.Prelude.Actions.{Action, pure, lift, ◌>>=◌, ◌>>◌}
use mw_btc_swap.Swap.Types.{SwapSlate, SwapSlatePub, SwapSlatePriv}

pub record SlateJson (Tx : Type 0) : Type 0 where
  pub pub_to_text : SwapSlatePub → Text
  pub prv_to_text : SwapSlatePriv Tx → Text
  pub pub_from_text : Text → Option SwapSlatePub
  pub prv_from_text : Text → Option (SwapSlatePriv Tx)

-- The files by their paths, and the paths that may not be created or written.
pub record Disk : Type 0 where
  pub files : Text → Option Text
  pub refused : Text → Bool

abbrev is_some : Option Text → Bool
is_some (some t) = true
is_some none = false

unfoldable pub get_slate_path : ℕ → Text → Bool → Text
get_slate_path id directory public =
    if public
    then directory ++ (codes "/" ++ (to_string id ++ codes ".pub.json"))
    else directory ++ (codes "/" ++ (to_string id ++ codes ".prv.json"))

-- `Path::exists`
abbrev pub exists : Text → Disk → Bool
exists path d = is_some (d.files path)

-- `fs::write(path, text).expect(..)`
abbrev pub write_file : Text → Text → Action Disk Unit
write_file path text d =
    if d.refused path
    then (panic, d)
    else (ok tt, record d { files = λ p. if text_eq p path then some text else d.files p })

-- `if !exists { File::create(path).expect(..) }`
abbrev pub create_file : Text → Action Disk Unit
create_file path d = if exists path d then (ok tt, d) else write_file path [] d

abbrev pub when : Bool → Action Disk Unit → Action Disk Unit
when true m = m
when false m = pure tt

-- `fs::read_to_string(path).expect(..)`
abbrev pub read_file : Text → Disk → Outcome Text
read_file path d = unwrap_option (d.files path)

module _ {Tx : Type 0} (json : SlateJson Tx) where
  unfoldable pub write_slate_to_disk : SwapSlate Tx → Text → Bool → Bool → Action Disk Unit
  unfolding get_slate_path
  write_slate_to_disk slate directory wrt_priv wrt_pub = do
    create_file (get_slate_path slate.id directory false)
    create_file (get_slate_path slate.id directory true)
    when wrt_priv
        (write_file (get_slate_path slate.id directory false) (json.prv_to_text slate.prv_slate))
    when wrt_pub
        (write_file (get_slate_path slate.id directory true) (json.pub_to_text slate.pub_slate))

  unfoldable pub read_slate_from_disk : ℕ → Text → Disk → Outcome (SwapSlate Tx)
  unfolding get_slate_path
  read_slate_from_disk id directory d =
      if not (exists (get_slate_path id directory false) d)
        || not (exists (get_slate_path id directory true) d)
      then err (codes "Unable to read slate files, as the files don't exist")
      else (read_file (get_slate_path id directory true) d >>=ₒ λ pub_contents.
          read_file (get_slate_path id directory false) d >>=ₒ λ prv_contents.
          unwrap_option (json.pub_from_text pub_contents) >>=ₒ λ pub_slate.
          unwrap_option (json.prv_from_text prv_contents) >>=ₒ λ prv_slate.
          ok (record { id = id; pub_slate = pub_slate; prv_slate = prv_slate }))

  -- `sha256` is the hash in hexadecimal digits.
  unfoldable pub get_slate_checksum : (Text → Text) → ℕ → Text → Disk → Outcome Text
  unfolding get_slate_path
  get_slate_checksum sha256 id directory d =
      if not (exists (get_slate_path id directory true) d)
      then err (codes "Unable to read slate files, as the files don't exist")
      else (read_file (get_slate_path id directory true) d >>=ₒ λ contents. ok (sha256 contents))

  abbrev pub fresh_priv : SwapSlatePriv Tx
  fresh_priv = record {
    mw = record {
      inputs = [];
      partial_key = 0;
      shared_coin = none;
      change_coin = none;
      refund_coin = none;
      swapped_coin = none;
      refund_tx = none;
    };
    btc = record {
      inputs = [];
      witness = 0;
      sk = none;
      x = none;
      r_sk = none;
      change = none;
      swapped = none;
      lock = none;
      refunded = none;
    };
  }

  -- The new private slate is written, and the slate returned.
  abbrev keep : Text → SwapSlate Tx → Action Disk (SwapSlate Tx)
  keep directory slate = do write_slate_to_disk slate directory true false; pure slate

  unfoldable pub create_priv_from_pub : ℕ → Text → Action Disk (SwapSlate Tx)
  unfolding get_slate_path write_slate_to_disk
  create_priv_from_pub id directory d =
      if not (exists (get_slate_path id directory true) d)
      then (err (codes "Unable to create private slate file, as the public file doesn't exist"), d)
      else (do
        pub_contents ← lift (read_file (get_slate_path id directory true) d)
        pub_slate ← lift (unwrap_option (json.pub_from_text pub_contents))
        keep directory (record { id = id; pub_slate = pub_slate; prv_slate = fresh_priv }))
          d
