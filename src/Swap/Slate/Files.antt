-- ===== src/Swap/Slate/Files.antt =====
-- What is read from the files of a slate that were written (src/swap/slate.rs).
use mw_btc_swap.Prelude.{
  ℕ, Text, codes, text_eq, text_eq_refl, true, false, ◌≡◌, ◌∙◌, refl, ap, inl, inr, some, [], ◌∷◌,
  ◌++◌, ok, panic, arith, if◌then◌else◌, to_string,
}
use mw_btc_swap.Prelude.Tests.{Bool-cases}
use mw_btc_swap.Prelude.Actions.{>>=-step}
use mw_btc_swap.Swap.Types.{SwapSlate}
use mw_btc_swap.Swap.Slate.{
  SlateJson, Disk, get_slate_path, exists, write_file, create_file, write_slate_to_disk,
  read_slate_from_disk, get_slate_checksum,
}

text_eq-append : (p s t : Text) → text_eq (p ++ s) (p ++ t) ≡ text_eq s t
unfolding text_eq
text_eq-append [] s t = refl
text_eq-append (c ∷ p) s t = ground (arith, text_eq-append p s t)

-- The two paths of a slate differ.
pub paths_differ :
    (id : ℕ) (directory : Text)
    → text_eq (get_slate_path id directory true) (get_slate_path id directory false) ≡ false
unfolding get_slate_path text_eq codes
paths_differ id directory =
    text_eq-append directory _ _
    ∙ text_eq-append (to_string id) (codes ".pub.json") (codes ".prv.json")

pub paths_differ_too :
    (id : ℕ) (directory : Text)
    → text_eq (get_slate_path id directory false) (get_slate_path id directory true) ≡ false
unfolding get_slate_path text_eq codes
paths_differ_too id directory =
    text_eq-append directory _ _
    ∙ text_eq-append (to_string id) (codes ".prv.json") (codes ".pub.json")

-- A write to a path that is not refused.
abbrev pub written : Text → Text → Disk → Disk
written path text d = record d { files = λ p. if text_eq p path then some text else d.files p }

pub files-written : (path text : Text) (d : Disk) → (written path text d).files path ≡ some text
files-written path text d = ap (λ b. if b then some text else d.files path) (text_eq_refl path)

pub files-written_other :
    (path text other : Text) (d : Disk)
    → text_eq other path ≡ false
    → (written path text d).files other ≡ d.files other
files-written_other path text other d differ =
    ap (λ b. if b then some text else d.files other) differ

pub write_file-written :
    (path text : Text) (d : Disk)
    → d.refused path ≡ false
    → write_file path text d ≡ (ok tt, written path text d)
write_file-written path text d allowed =
    ap (λ b. if b then (panic, d) else (ok tt, written path text d)) allowed

create_file-allowed :
    (path : Text) (d : Disk)
    → d.refused path ≡ false
    → (d' : Disk) × (create_file path d ≡ (ok tt, d')) × (d'.refused ≡ d.refused)
create_file-allowed path d allowed = elim (Bool-cases (exists path d)) [
  | inl there ↦ (d, ap (λ b. if b then (ok tt, d) else write_file path [] d) there, refl)
  | inr missing ↦ (
    written path [] d,
    ap (λ b. if b then (ok tt, d) else write_file path [] d) missing
        ∙ write_file-written path [] d allowed,
    refl,
  )
]

module _ {Tx : Type 0} (json : SlateJson Tx) (slate : SwapSlate Tx) (directory : Text) (d : Disk)
    (prv_allowed : d.refused (get_slate_path slate.id directory false) ≡ false)
    (pub_allowed : d.refused (get_slate_path slate.id directory true) ≡ false) where
  abbrev prv_path : Text
  prv_path = get_slate_path slate.id directory false

  abbrev pub_path : Text
  pub_path = get_slate_path slate.id directory true

  both_written :
      (d' : Disk) × (write_slate_to_disk json slate directory true true d ≡ (ok tt, d'))
      × (d'.files pub_path ≡ some (json.pub_to_text slate.pub_slate))
      × (d'.files prv_path ≡ some (json.prv_to_text slate.prv_slate))
  unfolding write_slate_to_disk
  both_written =
      let (d1, created_prv, same1) = create_file-allowed prv_path d prv_allowed in
      let (d2, created_pub, same2) =
        create_file-allowed pub_path d1 (ap (λ r. r pub_path) same1 ∙ pub_allowed) in
      let d3 = written prv_path (json.prv_to_text slate.prv_slate) d2 in
      let still = same2 ∙ same1 in
      (
        written pub_path (json.pub_to_text slate.pub_slate) d3,
        >>=-step (create_file prv_path) _ {s = d} created_prv
            ∙ >>=-step (create_file pub_path) _ {s = d1} created_pub
            ∙ >>=-step (write_file prv_path (json.prv_to_text slate.prv_slate)) _ {s = d2} (
                write_file-written prv_path (json.prv_to_text slate.prv_slate) d2
                  (ap (λ r. r prv_path) still ∙ prv_allowed))
            ∙ write_file-written pub_path (json.pub_to_text slate.pub_slate) d3
                (ap (λ r. r pub_path) still ∙ pub_allowed),
        files-written pub_path (json.pub_to_text slate.pub_slate) d3,
        files-written_other pub_path (json.pub_to_text slate.pub_slate) prv_path d3
              (paths_differ_too slate.id directory)
            ∙ files-written prv_path (json.prv_to_text slate.prv_slate) d2,
      )

  -- Where the two paths may be written, and the JSON of the two parts of this slate can be read
  -- back: a slate that is written, both parts of it, is read from the same directory as it was,
  -- and the checksum is the hash of its public part, whatever the files held before.
  pub read_slate-write_slate :
      json.pub_from_text (json.pub_to_text slate.pub_slate) ≡ some slate.pub_slate
      → json.prv_from_text (json.prv_to_text slate.prv_slate) ≡ some slate.prv_slate
      → (sha256 : Text → Text)
      → (d' : Disk) × (write_slate_to_disk json slate directory true true d ≡ (ok tt, d'))
        × (read_slate_from_disk json slate.id directory d' ≡ ok slate)
        × (get_slate_checksum json sha256 slate.id directory d'
            ≡ ok (sha256 (json.pub_to_text slate.pub_slate)))
  unfolding read_slate_from_disk get_slate_checksum
  read_slate-write_slate pub_law prv_law sha256 =
      let (d', wrote, pub_file, prv_file) = both_written in
      (d', wrote, rw (prv_file, pub_file) (rw (pub_law, prv_law)), rw pub_file)
