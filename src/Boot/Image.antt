-- ===== src/Boot/Image.antt =====
-- avbroot/boot.py, `BootImagePatch`: the sections of an image of any class, and the file that is
-- loaded, patched and written again.
use avbroot.Prelude.{List, []}
use avbroot.Result.{Result, ◌>>=◌}
use avbroot.Stream.{Bytes, InFile}
use avbroot.BootImage.Section.{Sections}
use avbroot.BootImage.Detect.{BootImage, boot_v0, boot_v3, vendor, load_autodetect}
use avbroot.BootImage.Detect.RoundTrip.{generate_image}

abbrev pub sections_of : BootImage → Sections
sections_of (boot_v0 i) = i.sections
sections_of (boot_v3 i) = i.sections
sections_of (vendor i) = i.sections

abbrev pub with_sections : Sections → BootImage → BootImage
with_sections s (boot_v0 i) = boot_v0 (record i { sections = s })
with_sections s (boot_v3 i) = boot_v3 (record i { sections = s })
with_sections s (vendor i) = vendor (record i { sections = s })

abbrev pub ramdisks_of : BootImage → List Bytes
ramdisks_of image = let s = sections_of image in s.ramdisks

abbrev pub with_ramdisks : List Bytes → BootImage → BootImage
with_ramdisks ramdisks image =
    with_sections (record (sections_of image) { ramdisks = ramdisks }) image

-- `BootImagePatch.__call__`: what the image file holds then.
unfoldable pub patch_file : (BootImage → Result BootImage) → InFile → Result Bytes
patch_file patch f =
    load_autodetect f >>= λ (image, g). patch image >>= λ patched. generate_image patched []
