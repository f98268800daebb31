-- ===== src/BootImage/Detect/Unknown.antt =====
-- Files that no class takes.
use avbroot.Prelude.{
  if◌then◌else◌, ◌∙◌, refl, ℕ, ◌≤◌, ◌≡◌, ap, Bool, false, ◌&&◌, length, take, leb, arith,
}
use avbroot.Prelude.Text.{bytes_eq}
use avbroot.Result.{attribute_error, err, wrong_format, value_error}
use avbroot.Stream.{Bytes, pure}
use avbroot.Stream.Random.{bind_eq}
use avbroot.Struct.{unpack, unpack_field}
use avbroot.BootImage.Format.{boot_magic, vendor_boot_magic, vendor_boot_img_hdr_v3}
use avbroot.BootImage.Vendor
use avbroot.BootImage.Vendor.{VendorHeader, vendor_header}
use avbroot.BootImage.Detect.{or_next, load_autodetect}
use avbroot.BootImage.Detect.Laws.{
  start, take-take, version_field, read_struct_enough, guard_fails, v0_rejects, v3_rejects,
}

module _ (bytes : Bytes) (seekable : Bool) where
  magic_vendor :
      VendorHeader.magic (vendor_header (unpack vendor_boot_img_hdr_v3 (take 2112 bytes)))
      ≡ take 8 bytes
  unfolding unpack unpack_field
  magic_vendor = take-take 8 2112 bytes (omega arith)

  vendor_rejects :
      2112 ≤ length bytes
      → bytes_eq (take 8 bytes) vendor_boot_magic ≡ false
      → Vendor.from_file (start bytes seekable) ≡ err wrong_format
  unfolding Vendor.from_file Vendor.read_header pure
  vendor_rejects long h =
      bind_eq _ _ (bind_eq _ _ (read_struct_enough bytes seekable vendor_boot_img_hdr_v3 long))
      ∙ guard_fails bytes seekable _ _ _ (rw magic_vendor h)

-- A file of at least 2112 bytes (the longest header) that begins with neither magic is refused by
-- `load_autodetect` with ValueError, wherever the file stands; or with AttributeError, if it has
-- no `seek`.
pub load_autodetect-unknown :
    (bytes : Bytes) (seekable : Bool) (pos : ℕ)
    → 2112 ≤ length bytes
    → bytes_eq (take 8 bytes) boot_magic ≡ false
    → bytes_eq (take 8 bytes) vendor_boot_magic ≡ false
    → load_autodetect (record { bytes = bytes; pos = pos; seekable = seekable })
      ≡ (if seekable then err value_error else err attribute_error)
unfolding load_autodetect or_next
load_autodetect-unknown bytes seekable pos long boot vendor =
    rw
      (
        v0_rejects bytes seekable (omega arith) (ap (λ b. b && leb (version_field bytes) 2) boot),
        v3_rejects bytes seekable (omega arith) boot,
        vendor_rejects bytes seekable long vendor,
      )
      refl
