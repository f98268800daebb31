-- ===== src/Boot/OtaCert.antt =====
-- avbroot/boot.py, `OtaCertPatch`. The new otacerts.zip, which Python's zipfile makes of the
-- certificate, is a parameter.
pub mod Laws
use avbroot.Prelude.{Bool, true, false, ◌||◌, Option, none, some, List, [], ◌∷◌, if◌then◌else◌}
use avbroot.Prelude.Text.{codes, bytes_eq}
use avbroot.Result.{Result, ok, err, exception, ◌>>=◌}
use avbroot.Stream.{Bytes}
use avbroot.Cpio.Entry.{CpioEntry, set_content}
use avbroot.Compression.Lz4.{Lz4Block}
use avbroot.Compression.Auto.{Gzip, Format}
use avbroot.BootImage.Detect.{BootImage}
use avbroot.Boot.Ramdisk.{load_ramdisk, save_ramdisk}
use avbroot.Boot.Image.{ramdisks_of, with_ramdisks}

abbrev pub otacerts_path : Bytes
otacerts_path = codes "system/etc/security/otacerts.zip"

abbrev pub add_front : CpioEntry → Option (List CpioEntry) → Option (List CpioEntry)
add_front e none = none
add_front e (some es) = some (e ∷ es)

-- The first entry of that name gets new content; none where no entry has the name.
unfoldable pub replace_first : Bytes → Bytes → List CpioEntry → Option (List CpioEntry)
replace_first path content [] = none
replace_first path content (e ∷ es) =
    let rest = replace_first path content es in
    if bytes_eq e.name path then some (set_content content e ∷ es) else add_front e rest

module _ (zip : Gzip) (lz4 : Lz4Block) (otacerts_zip : Bytes) where
  abbrev pub repack : Bytes → Option Format → Option (List CpioEntry) → Result (Bytes × Bool)
  repack ramdisk format none = ok (ramdisk, false)
  repack ramdisk format (some entries) =
      save_ramdisk zip lz4 entries format >>= λ new. ok (new, true)

  -- One round of the loop: the ramdisk, and whether it had the entry.
  unfoldable pub patch_ramdisk : Bytes → Result (Bytes × Bool)
  patch_ramdisk ramdisk = load_ramdisk zip lz4 ramdisk >>= λ (entries, format).
      repack ramdisk format (replace_first otacerts_path otacerts_zip entries)

  unfoldable pub patch_ramdisks : List Bytes → Result (List Bytes × Bool)
  patch_ramdisks [] = ok ([], false)
  patch_ramdisks (r ∷ rs) = patch_ramdisk r >>= λ (new, found).
      patch_ramdisks rs >>= λ (news, more). ok (new ∷ news, found || more)

  -- `OtaCertPatch.patch`
  unfoldable pub patch : BootImage → Result BootImage
  patch image = patch_ramdisks (ramdisks_of image) >>= λ (ramdisks, found_otacerts).
      if found_otacerts then ok (with_ramdisks ramdisks image) else err exception
