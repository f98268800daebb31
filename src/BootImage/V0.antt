-- ===== src/BootImage/V0.antt =====
-- avbroot/formats/bootimage.py, `_BootImageV0Through2`.
mod Header
pub mod Laws
pub mod RoundTrip
pub use Header.*
use avbroot.Prelude.{
  ℕ, zero, suc, ◌+◌, Bool, true, false, ◌&&◌, not, Option, none, some, List, [], ◌∷◌, length, leb,
  ltb, ◌==◌,
}
use avbroot.Prelude.Text.{bytes_eq}
use avbroot.Result.{value_error, wrong_format}
use avbroot.Stream.{Bytes, Parser, ◌>>=◌, ◌>>◌, pure, require, tell, Writer, ◌⨟◌, check, skip}
use avbroot.Struct.{Values, calcsize, read_struct, write_struct, rstrip_nul}
use avbroot.Padding.{read_skip, write_padding}
use avbroot.BootImage.Format.{
  boot_magic, boot_img_hdr_v0, boot_img_hdr_v1_extra, boot_img_hdr_v2_extra,
}
use avbroot.BootImage.Section.{
  Sections, is_none, size_of, first_ramdisk, as_ramdisks, read_section, write_section,
  write_ramdisk,
}

-- What the fields for versions 1 and 2 tell.
pub record ExtraRead : Type 0 where
  pub extra : Extra
  pub recovery_dtbo_size : ℕ
  pub dtb_size : ℕ

-- `if f.tell() != header_size: raise ValueError`
unfoldable pub check_header_size : ℕ → Parser (Unit {0})
check_header_size header_size = do end ← tell; require (end == header_size) value_error

abbrev pub extra_v1 : Values boot_img_hdr_v1_extra → ExtraRead
extra_v1 (recovery_dtbo_size, (recovery_dtbo_offset, (header_size, _))) = record {
  extra = v1 recovery_dtbo_offset;
  recovery_dtbo_size = recovery_dtbo_size;
  dtb_size = 0;
}

abbrev pub header_size_v1 : Values boot_img_hdr_v1_extra → ℕ
header_size_v1 (recovery_dtbo_size, (recovery_dtbo_offset, (header_size, _))) = header_size

abbrev pub extra_v2 : Values boot_img_hdr_v1_extra → Values boot_img_hdr_v2_extra → ExtraRead
extra_v2 (recovery_dtbo_size, (recovery_dtbo_offset, (header_size, _))) (dtb_size, (dtb_addr, _)) =
    record {
      extra = v2 recovery_dtbo_offset dtb_addr;
      recovery_dtbo_size = recovery_dtbo_size;
      dtb_size = dtb_size;
    }

-- "Parse v1 fields" and "Parse v2 fields", with the check of the header size behind them.
unfoldable pub read_extra : ℕ → Parser ExtraRead
read_extra zero = pure (record { extra = v0; recovery_dtbo_size = 0; dtb_size = 0 })
read_extra (suc zero) = do
  fields ← read_struct boot_img_hdr_v1_extra
  check_header_size (header_size_v1 fields)
  pure (extra_v1 fields)
read_extra (suc (suc n)) = do
  fields ← read_struct boot_img_hdr_v1_extra
  more ← read_struct boot_img_hdr_v2_extra
  check_header_size (header_size_v1 fields)
  pure (extra_v2 fields more)

unfoldable pub read_header : Parser HeaderV0
read_header = do fields ← read_struct boot_img_hdr_v0; pure (header_v0 fields)

unfoldable pub read_sections : HeaderV0 → ExtraRead → Parser Sections
read_sections h x = do
  kernel ← read_section h.kernel_size h.page_size
  ramdisk ← read_section h.ramdisk_size h.page_size
  second ← read_section h.second_size h.page_size
  recovery_dtbo ← read_section x.recovery_dtbo_size h.page_size
  dtb ← read_section x.dtb_size h.page_size
  pure (record {
    kernel = kernel;
    ramdisks = as_ramdisks ramdisk;
    second = second;
    recovery_dtbo = recovery_dtbo;
    dtb = dtb;
    bootconfig = none;
  })

abbrev pub build : HeaderV0 → Extra → Sections → BootV0
build h extra sections = record {
  sections = sections;
  extra = extra;
  kernel_addr = h.kernel_addr;
  ramdisk_addr = h.ramdisk_addr;
  second_addr = h.second_addr;
  tags_addr = h.tags_addr;
  page_size = h.page_size;
  os_version = h.os_version;
  name = rstrip_nul h.name;
  cmdline = rstrip_nul h.cmdline;
  id = h.id;
  extra_cmdline = rstrip_nul h.extra_cmdline;
}

-- `_from_file`
unfoldable pub from_file : Parser BootV0
from_file = do
  h ← read_header
  require (bytes_eq h.magic boot_magic) wrong_format
  require (leb h.header_version 2) wrong_format
  x ← read_extra h.header_version
  read_skip h.page_size
  sections ← read_sections h x
  pure (build h x.extra sections)

abbrev pub header_of : BootV0 → HeaderV0
header_of img = record {
  magic = boot_magic;
  kernel_size = size_of img.kernel;
  kernel_addr = img.kernel_addr;
  ramdisk_size = size_of (first_ramdisk img.ramdisks);
  ramdisk_addr = img.ramdisk_addr;
  second_size = size_of img.second;
  second_addr = img.second_addr;
  tags_addr = img.tags_addr;
  page_size = img.page_size;
  header_version = version img.extra;
  os_version = img.os_version;
  name = img.name;
  cmdline = img.cmdline;
  id = img.id;
  extra_cmdline = img.extra_cmdline;
}

abbrev pub header_size_v0 : ℕ
header_size_v0 = calcsize boot_img_hdr_v0

abbrev pub header_size_of : Extra → ℕ
header_size_of v0 = header_size_v0
header_size_of (v1 offset) = header_size_v0 + calcsize boot_img_hdr_v1_extra
header_size_of (v2 offset addr) =
    header_size_v0 + calcsize boot_img_hdr_v1_extra + calcsize boot_img_hdr_v2_extra

-- The header fields of versions 1 and 2.
unfoldable pub write_extra : Sections → Extra → Writer
write_extra s v0 = skip
write_extra s (v1 offset) =
    write_struct boot_img_hdr_v1_extra
      (size_of s.recovery_dtbo, (offset, (header_size_of (v1 offset), tt)))
write_extra s (v2 offset addr) =
    write_struct boot_img_hdr_v1_extra
      (size_of s.recovery_dtbo, (offset, (header_size_of (v2 offset addr), tt)))
    ⨟ write_struct boot_img_hdr_v2_extra (size_of s.dtb, (addr, tt))

-- The sections of versions 1 and 2.
unfoldable pub write_extra_sections : ℕ → Sections → Extra → Writer
write_extra_sections page_size s v0 = skip
write_extra_sections page_size s (v1 offset) = write_section page_size s.recovery_dtbo
write_extra_sections page_size s (v2 offset addr) =
    write_section page_size s.recovery_dtbo ⨟ write_section page_size s.dtb

-- The sections that an image of this version may have.
unfoldable pub check_sections : Sections → Extra → Writer → Writer
check_sections s extra w =
    check (leb (length s.ramdisks) 1) value_error
    ⨟ check (is_none s.bootconfig) value_error
    ⨟ check (not (ltb (version extra) 1 && not (is_none s.recovery_dtbo))) value_error
    ⨟ check (not (ltb (version extra) 2 && not (is_none s.dtb))) value_error
    ⨟ w

unfoldable pub generate : BootV0 → Writer
generate img = check_sections img.sections img.extra (
    write_struct boot_img_hdr_v0 (header_v0_values (header_of img))
    ⨟ write_extra img.sections img.extra
    ⨟ write_padding img.page_size
    ⨟ write_section img.page_size img.kernel
    ⨟ write_ramdisk img.page_size img.ramdisks
    ⨟ write_section img.page_size img.second
    ⨟ write_extra_sections img.page_size img.sections img.extra)
