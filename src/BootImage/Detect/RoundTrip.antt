-- ===== src/BootImage/Detect/RoundTrip.antt =====
-- An image of any class is recognised as what it is.
use avbroot.Prelude.{
  if◌then◌else◌, ℕ, ◌+◌, ◌≤◌, ◌≡◌, ap, ◌∙◌, Bool, false, ◌&&◌, [], ◌++◌, length, take, leb, arith,
  append_assoc, length-append,
}
use avbroot.Prelude.Text.{bytes_eq}
use avbroot.Result.{attribute_error, Result, ok, err, wrong_format}
use avbroot.Stream.{Bytes}
use avbroot.Struct.Laws.{encode}
use avbroot.BootImage.Format.{boot_magic, boot_img_hdr_v3, vendor_boot_img_hdr_v3}
use avbroot.BootImage.V0
use avbroot.BootImage.V0.{BootV0, HeaderV0, header_v0}
use avbroot.BootImage.V3
use avbroot.BootImage.V3.{BootV3, HeaderV3, header_v3, header_v3_values}
use avbroot.BootImage.Vendor
use avbroot.BootImage.Vendor.{VendorBoot, VendorHeader, vendor_header, vendor_header_values}
use avbroot.BootImage.V0.Laws.{IsBootV0}
use avbroot.BootImage.V0.RoundTrip.{boot_v0_round_trip}
use avbroot.BootImage.V3.Laws.{
  IsBootV3, image_bytes as v3_bytes, image_shape as v3_shape, boot_v3_written, boot_v3_loads,
}
use avbroot.BootImage.Vendor.Laws.{IsVendorBoot}
use avbroot.BootImage.Vendor.RoundTrip.{
  image_bytes as vendor_bytes, image_shape as vendor_shape, vendor_boot_written, vendor_boot_loads,
}
use avbroot.BootImage.Detect.{BootImage, boot_v0, boot_v3, vendor, or_next, load_autodetect}
use avbroot.BootImage.Detect.Laws.{
  version_field, v0_rejects, v3_rejects, version-of_v3, magic-of_vendor, new_version, &&_false,
  vendor_magic_differs,
}

-- Each of the three classes: an image that the format can hold is written, and the file is recognised
-- as that class and read back as that image, whatever stands behind it.
abbrev pub IsRecognised : (BootImage) → (Bytes → Result Bytes) → Type 0
IsRecognised image generate =
    (rest : Bytes) (seekable : Bool) (pos : ℕ)
    → (out : Bytes) × (generate [] ≡ ok out)
      × (load_autodetect (record { bytes = out ++ rest; pos = pos; seekable = seekable }) ≡ (
          if seekable
          then ok (image, record { bytes = out ++ rest; pos = 0 + length out; seekable = seekable })
          else err attribute_error))

pub recognise_v0 : (img : BootV0) → IsBootV0 img → IsRecognised (boot_v0 img) (V0.generate img)
unfolding load_autodetect or_next
recognise_v0 img valid rest seekable pos =
    let (out, written, loaded) = boot_v0_round_trip img valid rest seekable in
    (out, written, rw loaded)

behind_shape :
    {image : Bytes} (front more rest : Bytes)
    → image ≡ front ++ more
    → image ++ rest ≡ front ++ (more ++ rest)
behind_shape front more rest e = ap (λ c. c ++ rest) e ∙ append_assoc front more rest

v0_rejects_v3 :
    (img : BootV3) (valid : IsBootV3 img) (rest : Bytes) (seekable : Bool)
    → V0.from_file (record { bytes = v3_bytes img valid ++ rest; pos = 0; seekable = seekable })
      ≡ err wrong_format
v0_rejects_v3 img valid rest seekable =
    let (more, shape, long) = v3_shape img valid in
    let bytes = v3_bytes img valid ++ rest in
    let whole =
      behind_shape (encode boot_img_hdr_v3 (header_v3_values (V3.header_of img))) more rest shape in
    let newer : leb (version_field bytes) 2 ≡ false =
      ap (λ c. leb (version_field c) 2) whole
      ∙ ap (λ n. leb n 2) (version-of_v3 (V3.header_of img) (more ++ rest) valid.header)
      ∙ new_version img.header_version in
    v0_rejects bytes seekable (omega (arith, length-append (v3_bytes img valid) rest))
      (ap (λ b. bytes_eq (take 8 bytes) boot_magic && b) newer ∙ &&_false _)

recognise_v3 : (img : BootV3) → IsBootV3 img → IsRecognised (boot_v3 img) (V3.generate img)
unfolding load_autodetect or_next
recognise_v3 img valid rest seekable pos = (
  v3_bytes img valid,
  boot_v3_written img valid,
  rw (v0_rejects_v3 img valid rest seekable, boot_v3_loads img valid rest seekable),
)

module _ (img : VendorBoot) (valid : IsVendorBoot img) (rest : Bytes) (seekable : Bool) where
  abbrev vendor_file : Bytes
  vendor_file = vendor_bytes img valid ++ rest

  other_magic : bytes_eq (take 8 vendor_file) boot_magic ≡ false
  other_magic =
      let (more, shape, long) = vendor_shape img valid in
      ap (λ c. bytes_eq (take 8 c) boot_magic)
        (behind_shape (encode vendor_boot_img_hdr_v3 (vendor_header_values (Vendor.header_of img)))
          more rest shape)
      ∙ ap (λ m. bytes_eq m boot_magic)
          (magic-of_vendor (Vendor.header_of img) (more ++ rest) valid.header)
      ∙ vendor_magic_differs

  vendor_long : 2112 ≤ length vendor_file
  vendor_long =
      let (more, shape, long) = vendor_shape img valid in
      omega (arith, length-append (vendor_bytes img valid) rest)

  v0_rejects_vendor :
      V0.from_file (record { bytes = vendor_file; pos = 0; seekable = seekable }) ≡ err wrong_format
  v0_rejects_vendor =
      v0_rejects vendor_file seekable (omega (arith, vendor_long))
        (ap (λ b. b && leb (version_field vendor_file) 2) other_magic)

  v3_rejects_vendor :
      V3.from_file (record { bytes = vendor_file; pos = 0; seekable = seekable }) ≡ err wrong_format
  v3_rejects_vendor = v3_rejects vendor_file seekable (omega (arith, vendor_long)) other_magic

recognise_vendor :
    (img : VendorBoot) → IsVendorBoot img → IsRecognised (vendor img) (Vendor.generate img)
unfolding load_autodetect or_next
recognise_vendor img valid rest seekable pos = (
  vendor_bytes img valid,
  vendor_boot_written img valid,
  rw (
    v0_rejects_vendor img valid rest seekable,
    v3_rejects_vendor img valid rest seekable,
    vendor_boot_loads img valid rest seekable,
  ),
)

-- What an image of any class needs, and how it is written.
abbrev pub IsBootImage : BootImage → Type 0
IsBootImage (boot_v0 img) = IsBootV0 img
IsBootImage (boot_v3 img) = IsBootV3 img
IsBootImage (vendor img) = IsVendorBoot img

abbrev pub generate_image : BootImage → Bytes → Result Bytes
generate_image (boot_v0 img) = V0.generate img
generate_image (boot_v3 img) = V3.generate img
generate_image (vendor img) = Vendor.generate img

-- An image of any class that the format can hold (page size a power of two, header fields in
-- range, texts that fit their fields and end in no null byte, fixed byte strings of their full
-- size, no empty sections, and the sections that the header version allows, with exactly one
-- ramdisk, which may be empty, in a vendor image of version 3, and one entry of metadata for each
-- ramdisk in one of version 4) is written by `generate`, and `load_autodetect` recognises its
-- class and reads the same image back, wherever the file stands and whatever follows the image in
-- it; or raises AttributeError for a file that has no `seek`.
pub load_autodetect-generate :
    (image : BootImage)
    → IsBootImage image
    → (rest : Bytes) (seekable : Bool) (pos : ℕ)
    → (out : Bytes) × (generate_image image [] ≡ ok out)
      × (load_autodetect (record { bytes = out ++ rest; pos = pos; seekable = seekable }) ≡ (
          if seekable
          then ok (image, record { bytes = out ++ rest; pos = 0 + length out; seekable = seekable })
          else err attribute_error))
load_autodetect-generate (boot_v0 img) valid = recognise_v0 img valid
load_autodetect-generate (boot_v3 img) valid = recognise_v3 img valid
load_autodetect-generate (vendor img) valid = recognise_vendor img valid
