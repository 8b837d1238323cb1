-- ===== src/Swap/Slate/Accept.antt =====
-- What `create_priv_from_pub` returns and leaves on the disk (src/swap/slate.rs).
use mw_btc_swap.Prelude.{
  ℕ, Text, codes, text_eq, true, false, not, ◌≡◌, ◌∙◌, refl, ap, inl, inr, Option, some, [], ok,
  if◌then◌else◌, unwrap_option, err,
}
use mw_btc_swap.Prelude.Tests.{Bool-cases}
use mw_btc_swap.Prelude.Actions.{Action, lift, >>=-step, need->>=-step, ◌>>=◌}
use mw_btc_swap.Swap.Types.{SwapSlate, SwapSlatePub}
use mw_btc_swap.Swap.Slate.{
  SlateJson, Disk, get_slate_path, exists, write_file, create_file, write_slate_to_disk,
  read_slate_from_disk, create_priv_from_pub, fresh_priv, is_some, keep,
}
use mw_btc_swap.Swap.Slate.Files.{
  written, files-written, files-written_other, write_file-written, paths_differ,
}

-- A created file leaves the others as they are.
created_other :
    (path other : Text) (d : Disk)
    → d.refused path ≡ false
    → text_eq other path ≡ false
    → (d' : Disk) × (create_file path d ≡ (ok tt, d'))
      × (d'.refused ≡ d.refused)
      × (d'.files other ≡ d.files other)
created_other path other d allowed differ = elim (Bool-cases (exists path d)) [
  | inl there ↦ (d, ap (λ b. if b then (ok tt, d) else write_file path [] d) there, refl, refl)
  | inr missing ↦ (
    written path [] d,
    ap (λ b. if b then (ok tt, d) else write_file path [] d) missing
        ∙ write_file-written path [] d allowed,
    refl,
    files-written_other path [] other d differ,
  )
]

-- A file that is there is not created again.
not_created :
    (path : Text) (d : Disk) {text : Text}
    → d.files path ≡ some text
    → create_file path d ≡ (ok tt, d)
not_created path d there = ap (λ o. if is_some o then (ok tt, d) else write_file path [] d) there

module _ {Tx : Type 0} (json : SlateJson Tx) (id : ℕ) where
  -- The slate of a party that was given the public part.
  abbrev pub accepted_slate : SwapSlatePub → SwapSlate Tx
  accepted_slate q = record { id = id; pub_slate = q; prv_slate = fresh_priv json }

module _ {Tx : Type 0} (json : SlateJson Tx) (id : ℕ) (directory : Text) where
  abbrev prv_path : Text
  prv_path = get_slate_path id directory false

  abbrev pub_path : Text
  pub_path = get_slate_path id directory true

  private_written :
      (d : Disk) (text : Text) (q : SwapSlatePub)
      → d.refused prv_path ≡ false
      → d.files pub_path ≡ some text
      → (d' : Disk) × (write_slate_to_disk json (accepted_slate json id q) directory true false d
          ≡ (ok tt, d'))
        × (d'.files pub_path ≡ some text)
        × (d'.files prv_path ≡ some (json.prv_to_text (fresh_priv json)))
  unfolding write_slate_to_disk
  private_written d text q allowed there =
      let (d1, created, same, kept) =
        created_other prv_path pub_path d allowed (paths_differ id directory) in
      let content = json.prv_to_text (fresh_priv json) in
      (
        written prv_path content d1,
        >>=-step (create_file prv_path) _ {s = d} created
            ∙ >>=-step (create_file pub_path) _ {s = d1} (not_created pub_path d1 (kept ∙ there))
            ∙ >>=-step (write_file prv_path content) _ {s = d1}
                (write_file-written prv_path content d1 (ap (λ r. r prv_path) same ∙ allowed)),
        files-written_other prv_path content pub_path d1 (paths_differ id directory) ∙ kept ∙ there,
        files-written prv_path content d1,
      )

  abbrev accept : Option Text → Action Disk (SwapSlate Tx)
  accept file d =
      if not (is_some file)
      then (err (codes "Unable to create private slate file, as the public file doesn't exist"), d)
      else (lift (unwrap_option file) >>= λ contents.
            lift (unwrap_option (json.pub_from_text contents)) >>= λ q.
            keep json directory (accepted_slate json id q))
          d

  parsed :
      (d : Disk) (text : Text) (q : SwapSlatePub)
      → d.files pub_path ≡ some text
      → json.pub_from_text text ≡ some q
      → create_priv_from_pub json id directory d ≡ keep json directory (accepted_slate json id q) d
  unfolding create_priv_from_pub
  parsed d text q there reads =
      ap (λ file. accept file d) there
      ∙ need->>=-step (json.pub_from_text text)
          (λ q. keep json directory (accepted_slate json id q)) {s = d} reads

  -- Where the public file of the id is there and parses, the path of the private file may be
  -- written, and the JSON of a fresh private part can be read back: create_priv_from_pub returns
  -- the slate of the public part and a fresh private part, whatever the private file held before,
  -- leaves the public file as it was, and the same slate is then read from the directory.
  pub create_priv_from_pub-accepts :
      (d : Disk) (text : Text) (q : SwapSlatePub)
      → d.refused prv_path ≡ false
      → d.files pub_path ≡ some text
      → json.pub_from_text text ≡ some q
      → json.prv_from_text (json.prv_to_text (fresh_priv json)) ≡ some (fresh_priv json)
      → (d' : Disk) × (create_priv_from_pub json id directory d
          ≡ (ok (accepted_slate json id q), d'))
        × (d'.files pub_path ≡ some text)
        × (read_slate_from_disk json id directory d' ≡ ok (accepted_slate json id q))
  unfolding create_priv_from_pub read_slate_from_disk
  create_priv_from_pub-accepts d text q allowed there reads prv_law =
      let (d', wrote, pub_file, prv_file) = private_written d text q allowed there in
      (
        d',
        parsed d text q there reads
            ∙ >>=-step (write_slate_to_disk json (accepted_slate json id q) directory true false) _
                {s = d} wrote,
        pub_file,
        rw (prv_file, pub_file) (rw (reads, prv_law)),
      )
