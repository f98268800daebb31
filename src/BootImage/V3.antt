-- ===== src/BootImage/V3.antt =====
-- avbroot/formats/bootimage.py, `_BootImageV3Through4`.
pub mod Laws
use avbroot.Prelude.{
  ℕ, zero, suc, ◌+◌, Bool, true, false, Option, none, some, List, [], ◌∷◌, length, leb, ◌==◌,
}
use avbroot.Prelude.Text.{bytes_eq}
use avbroot.Result.{value_error, wrong_format}
use avbroot.Stream.{
  Bytes, Parser, ◌>>=◌, ◌>>◌, pure, require, lift, tell, seek_cur, Writer, ◌⨟◌, check, skip,
}
use avbroot.Struct.{Values, calcsize, read_struct, write_struct, rstrip_nul}
use avbroot.Padding.{read_skip, write_padding}
use avbroot.BootImage.Format.{boot_magic, v3_page_size, boot_img_hdr_v3, boot_img_hdr_v4_extra}
use avbroot.BootImage.Section.{
  Sections, is_none, size_of, first_ramdisk, as_ramdisks, read_section, write_section,
  write_ramdisk,
}
use avbroot.BootImage.Version.{Version34, v3, v4, number, version_of}

pub record BootV3 : Type 0 where
  pub sections : Sections
  pub open sections use *
  pub header_version : Version34
  pub os_version : ℕ
  pub reserved : Bytes
  pub cmdline : Bytes

-- The fields of `BOOT_IMG_HDR_V3`.
pub record HeaderV3 : Type 0 where
  pub magic : Bytes
  pub kernel_size : ℕ
  pub ramdisk_size : ℕ
  pub os_version : ℕ
  pub header_size : ℕ
  pub reserved : Bytes
  pub header_version : ℕ
  pub cmdline : Bytes

abbrev pub header_v3 : Values boot_img_hdr_v3 → HeaderV3
header_v3
      (
        magic,
        (
          kernel_size,
          (ramdisk_size, (os_version, (header_size, (reserved, (header_version, (cmdline, _)))))),
        ),
      ) =
    record {
      magic = magic;
      kernel_size = kernel_size;
      ramdisk_size = ramdisk_size;
      os_version = os_version;
      header_size = header_size;
      reserved = reserved;
      header_version = header_version;
      cmdline = cmdline;
    }

abbrev pub header_v3_values : HeaderV3 → Values boot_img_hdr_v3
header_v3_values h = (
  h.magic,
  (
    h.kernel_size,
    (
      h.ramdisk_size,
      (h.os_version, (h.header_size, (h.reserved, (h.header_version, (h.cmdline, tt))))),
    ),
  ),
)

abbrev signature_size_of : Values boot_img_hdr_v4_extra → ℕ
signature_size_of (signature_size, _) = signature_size

-- "Parse v4 fields": the signature's size, which version 3 has not.
unfoldable pub read_signature_size : Version34 → Parser ℕ
read_signature_size v3 = pure 0
read_signature_size v4 = do
  fields ← read_struct boot_img_hdr_v4_extra
  pure (signature_size_of fields)

-- `if f.tell() != header_size: raise ValueError`
unfoldable pub check_header_size : ℕ → Parser (Unit {0})
check_header_size header_size = do end ← tell; require (end == header_size) value_error

-- The signature is not kept.
unfoldable pub skip_signature : Version34 → ℕ → Parser (Unit {0})
skip_signature v3 signature_size = pure tt
skip_signature v4 signature_size = do seek_cur signature_size; read_skip v3_page_size; pure tt

unfoldable pub read_header : Parser HeaderV3
read_header = do fields ← read_struct boot_img_hdr_v3; pure (header_v3 fields)

abbrev pub build : HeaderV3 → Version34 → Option Bytes → Option Bytes → BootV3
build h version kernel ramdisk = record {
  sections = record {
    kernel = kernel;
    ramdisks = as_ramdisks ramdisk;
    second = none;
    recovery_dtbo = none;
    dtb = none;
    bootconfig = none;
  };
  header_version = version;
  os_version = h.os_version;
  reserved = h.reserved;
  cmdline = rstrip_nul h.cmdline;
}

-- `_from_file`
unfoldable pub from_file : Parser BootV3
from_file = do
  h ← read_header
  require (bytes_eq h.magic boot_magic) wrong_format
  version ← lift (version_of h.header_version)
  signature_size ← read_signature_size version
  check_header_size h.header_size
  read_skip v3_page_size
  kernel ← read_section h.kernel_size v3_page_size
  ramdisk ← read_section h.ramdisk_size v3_page_size
  skip_signature version signature_size
  pure (build h version kernel ramdisk)

abbrev pub header_size_of : Version34 → ℕ
header_size_of v3 = calcsize boot_img_hdr_v3
header_size_of v4 = calcsize boot_img_hdr_v3 + calcsize boot_img_hdr_v4_extra

abbrev pub header_of : BootV3 → HeaderV3
header_of img = record {
  magic = boot_magic;
  kernel_size = size_of img.kernel;
  ramdisk_size = size_of (first_ramdisk img.ramdisks);
  os_version = img.os_version;
  header_size = header_size_of img.header_version;
  reserved = img.reserved;
  header_version = number img.header_version;
  cmdline = img.cmdline;
}

-- The size of the signature is written as 0.
unfoldable pub write_signature_size : Version34 → Writer
write_signature_size v3 = skip
write_signature_size v4 = write_struct boot_img_hdr_v4_extra (0, tt)

unfoldable pub check_sections : Sections → Writer → Writer
check_sections s w =
    check (leb (length s.ramdisks) 1) value_error
    ⨟ check (is_none s.second) value_error
    ⨟ check (is_none s.recovery_dtbo) value_error
    ⨟ check (is_none s.dtb) value_error
    ⨟ check (is_none s.bootconfig) value_error
    ⨟ w

unfoldable pub generate : BootV3 → Writer
generate img = check_sections img.sections (
    write_struct boot_img_hdr_v3 (header_v3_values (header_of img))
    ⨟ write_signature_size img.header_version
    ⨟ write_padding v3_page_size
    ⨟ write_section v3_page_size img.kernel
    ⨟ write_ramdisk v3_page_size img.ramdisks)
