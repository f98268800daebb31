-- ===== src/BootImage/Detect.antt =====
-- avbroot/formats/bootimage.py, `load_autodetect`.
pub mod Laws
pub mod RoundTrip
pub mod Unknown
use avbroot.Prelude.{ℕ, Bool, true, false, if◌then◌else◌}
use avbroot.Result.{
  Result, Error, ok, err, eof_error, value_error, wrong_format, exception, struct_error,
  overflow_error, io_error, attribute_error, index_error, key_error, runtime_error, assertion_error,
  codec_error, out_of_fuel,
}
use avbroot.Stream.{InFile, Parser}
use avbroot.BootImage.V0
use avbroot.BootImage.V0.{BootV0}
use avbroot.BootImage.V3
use avbroot.BootImage.V3.{BootV3}
use avbroot.BootImage.Vendor
use avbroot.BootImage.Vendor.{VendorBoot}

-- The three classes.
pub data BootImage : Type 0 where
  boot_v0 : BootV0 → BootImage
  boot_v3 : BootV3 → BootImage
  vendor : VendorBoot → BootImage

abbrev pub from_start : InFile → InFile
from_start f = record f { pos = 0 }

-- `except WrongFormat: continue`; any other exception is passed on.
unfoldable pub or_next {ℓ} :
    {A : Type ℓ}
    → (A → BootImage)
    → Result (A × InFile)
    → Result (BootImage × InFile)
    → Result (BootImage × InFile)
or_next c (ok (a, f)) next = ok (c a, f)
or_next c (err wrong_format) next = next
or_next c (err e) next = err e

-- The loop over the classes; each begins with `f.seek(0)`, which a file may not have.
unfoldable pub load_autodetect : Parser BootImage
load_autodetect f =
    let found = or_next boot_v0 (V0.from_file (from_start f)) (
      or_next boot_v3 (V3.from_file (from_start f))
        (or_next vendor (Vendor.from_file (from_start f)) (err value_error))) in
    if f.seekable then found else err attribute_error
