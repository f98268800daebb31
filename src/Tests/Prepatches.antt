-- ===== src/Tests/Prepatches.antt =====
-- avbroot/boot.py, `PrepatchedImage` and `patch_boot`: concrete runs.
use avbroot.Prelude.{ℕ, ◌≡◌, refl, true, none, some, List, [], ◌∷◌, arith, if◌then◌else◌}
use avbroot.Prelude.Text.{codes, bytes_eq}
use avbroot.Result.{Result, ok, err, value_error, exception}
use avbroot.Stream.{Bytes}
use avbroot.Stream
use avbroot.Compression.Auto.{open_source, make_source, detect_source, format_of}
use avbroot.BootImage.Detect.{BootImage, boot_v3}
use avbroot.Boot.Image.{with_ramdisks}
use avbroot.Boot.Kmi.{
  digit_runs, match_version, search_version, or_raw, decompress_kernel, get_kmi_version,
}
use avbroot.Boot.Prepatched
use avbroot.Boot.Prepatched.{kmi_eq}
use avbroot.Boot.Prepatched.Found.{found}
use avbroot.Boot.Prepatched.Levels.{warned, has_fatal}
use avbroot.Boot.Prepatched.Laws.{prepatched_lem, prepatched_same}
use avbroot.Boot.Sign.{apply_patches, patch_boot}
use avbroot.Boot.Sign.Laws.{key_matches, signed_with, patch_boot_lem}
use avbroot.Tests.Formats.{small_boot}
use avbroot.Tests.Stored.{stored_lz4, stored_gzip}
use avbroot.Tests.Vbmetas.{test_avb, parse}

abbrev in_this_order : List Bytes → List Bytes
in_this_order ns = ns

abbrev kernel : Bytes
kernel = codes "xLinux version 5.10.43-android12-9-00001-gabc"

search_run : search_version kernel ≡ some (codes "5.10-android12-9")
unfolding search_version match_version digit_runs
search_run = refl

abbrev old_image : BootImage
old_image = boot_v3 small_boot

kernel_run : get_kmi_version stored_gzip stored_lz4 (1 ∷ 2 ∷ 3 ∷ []) ≡ ok none
unfolding get_kmi_version decompress_kernel or_raw open_source detect_source make_source format_of
    bytes_eq search_version match_version Stream.read
kernel_run = refl

abbrev ramdisks : List Bytes
ramdisks = (6 ∷ []) ∷ (7 ∷ []) ∷ []

-- The new image has no ramdisk left.
abbrev fewer : BootImage
fewer = with_ramdisks [] old_image

prepatched_lem_example :
    Prepatched.patch stored_gzip stored_lz4 in_this_order 2 fewer old_image
    ≡ ok (
      warned 2 (found in_this_order old_image fewer true),
      if has_fatal 2 (found in_this_order old_image fewer true) then err value_error else ok fewer,
    )
unfolding kmi_eq
prepatched_lem_example =
    prepatched_lem stored_gzip stored_lz4 in_this_order 2 fewer old_image true
      (none, none, kernel_run, kernel_run, refl)

prepatched_same_example :
    Prepatched.patch stored_gzip stored_lz4 in_this_order 0
      (with_ramdisks ramdisks old_image)
      old_image
    ≡ ok ([], ok (with_ramdisks ramdisks old_image))
prepatched_same_example =
    prepatched_same stored_gzip stored_lz4 in_this_order 0 old_image ramdisks refl (omega arith)
      (none, kernel_run)

abbrev erase : ℕ → Result Bytes
erase path = ok (1 ∷ 2 ∷ [])

-- File 1 of the test images is signed and has one hash descriptor.
patch_boot_lem_example : patch_boot {Key = ℕ} test_avb erase 1 (some 5) true [] ≡ (
    if key_matches {Key = ℕ} (parse 1) (some 5) true
    then signed_with
        (parse 1)
        (some 5)
        (codes "SHA256_RSA2048")
        (1 ∷ 2 ∷ [])
        ((codes "boot", []) ∷ [])
    else err exception)
unfolding apply_patches
patch_boot_lem_example =
    patch_boot_lem test_avb erase 1 (some 5) true [] (parse 1) (codes "SHA256_RSA2048") (1 ∷ 2 ∷ [])
      (1 ∷ 2 ∷ []) refl refl refl refl
