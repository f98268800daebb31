-- ===== src/BootImage/Vendor.antt =====
-- avbroot/formats/bootimage.py, `_VendorBootImageV3Through4`.
mod Header
pub mod Table
pub mod Laws
pub mod RoundTrip
pub use Header.*
use avbroot.Prelude.{
  ℕ, zero, suc, ◌+◌, ◌*◌, Bool, true, false, Option, none, some, List, [], ◌∷◌, ◌++◌, length, leb,
  ◌==◌, if◌then◌else◌,
}
use avbroot.Prelude.Text.{bytes_eq}
use avbroot.Result.{value_error, wrong_format}
use avbroot.Stream.{
  Bytes, Parser, ◌>>=◌, ◌>>◌, pure, require, lift, tell, seek_set, seek_cur, read_exact, Writer,
  ◌⨟◌, check, write, skip,
}
use avbroot.Struct.{Values, calcsize, read_struct, write_struct, rstrip_nul}
use avbroot.Padding.{read_skip, write_padding}
use avbroot.BootImage.Format.{
  vendor_boot_magic, vendor_boot_img_hdr_v3, vendor_boot_img_hdr_v4_extra,
  vendor_ramdisk_table_entry_v4,
}
use avbroot.BootImage.Section.{Sections, is_none, size_of, read_section, write_section}
use avbroot.BootImage.Version.{Version34, v3, v4, version_of}

abbrev pub entry_size_v4 : ℕ
entry_size_v4 = calcsize vendor_ramdisk_table_entry_v4

-- "Parse v4 fields", with the checks of the table's sizes.
unfoldable pub read_table_sizes : Version34 → Parser TableSizes
read_table_sizes v3 =
    pure (record { table_size = 0; entry_num = 0; entry_size = 0; bootconfig_size = 0 })
read_table_sizes v4 = do
  fields ← read_struct vendor_boot_img_hdr_v4_extra
  let t = table_sizes fields
  require (t.entry_size == entry_size_v4) value_error
  require (t.table_size == t.entry_num * t.entry_size) value_error
  pure t

-- `if f.tell() != header_size: raise ValueError`
unfoldable pub check_header_size : ℕ → Parser (Unit {0})
check_header_size header_size = do end ← tell; require (end == header_size) value_error

-- Version 3 has one ramdisk, and version 4 jumps over its ramdisks, which the table finds again.
unfoldable pub read_big_ramdisk : Version34 → ℕ → Parser (List Bytes)
read_big_ramdisk v3 size = do ramdisk ← read_exact size; pure (ramdisk ∷ [])
read_big_ramdisk v4 size = do seek_cur size; pure []

-- `f.seek(offset)`, `read_exact(f, size)`, and back to where the file was.
unfoldable pub read_at : ℕ → ℕ → Parser Bytes
read_at offset size = do
  here ← tell
  seek_set offset
  found ← read_exact size
  seek_set here
  pure found

-- The ramdisks of the table, with their metadata and the sum of their sizes.
pub record TableRead : Type 0 where
  pub ramdisks : List Bytes
  pub metas : List RamdiskMeta
  pub total_size : ℕ

abbrev pub empty_table : TableRead
empty_table = record { ramdisks = []; metas = []; total_size = 0 }

abbrev pub add_entry : TableEntry → Bytes → TableRead → TableRead
add_entry e ramdisk t = record {
  ramdisks = t.ramdisks ++ (ramdisk ∷ []);
  metas =
      t.metas
      ++ (record {
        ramdisk_type = e.ramdisk_type;
        name = rstrip_nul e.ramdisk_name;
        board_id = e.board_id;
      }
          ∷ []);
  total_size = t.total_size + e.ramdisk_size;
}

-- `for _ in range(0, vendor_ramdisk_table_entry_num)`
unfoldable pub read_table : ℕ → ℕ → TableRead → Parser TableRead
read_table ramdisk_base zero t = pure t
read_table ramdisk_base (suc n) t = do
  fields ← read_struct vendor_ramdisk_table_entry_v4
  let e = table_entry fields
  ramdisk ← read_at (ramdisk_base + e.ramdisk_offset) e.ramdisk_size
  read_table ramdisk_base n (add_entry e ramdisk t)

-- What follows the device tree: the table and the boot config, in version 4.
pub record Tail : Type 0 where
  pub kind : Kind
  pub ramdisks : List Bytes
  pub bootconfig : Option Bytes

unfoldable pub read_tail : Version34 → VendorHeader → TableSizes → ℕ → List Bytes → Parser Tail
read_tail v3 h sizes ramdisk_base big =
    pure (record { kind = single; ramdisks = big; bootconfig = none })
read_tail v4 h sizes ramdisk_base big = do
  t ← read_table ramdisk_base sizes.entry_num (record empty_table { ramdisks = big })
  require (t.total_size == h.vendor_ramdisk_size) value_error
  read_skip h.page_size
  bootconfig ← read_section sizes.bootconfig_size h.page_size
  pure (record { kind = table t.metas; ramdisks = t.ramdisks; bootconfig = bootconfig })

unfoldable pub read_header : Parser VendorHeader
read_header = do fields ← read_struct vendor_boot_img_hdr_v3; pure (vendor_header fields)

abbrev pub build : VendorHeader → Option Bytes → Tail → VendorBoot
build h dtb t = record {
  sections = record {
    kernel = none;
    ramdisks = t.ramdisks;
    second = none;
    recovery_dtbo = none;
    dtb = dtb;
    bootconfig = t.bootconfig;
  };
  kind = t.kind;
  page_size = h.page_size;
  kernel_addr = h.kernel_addr;
  ramdisk_addr = h.ramdisk_addr;
  cmdline = rstrip_nul h.cmdline;
  tags_addr = h.tags_addr;
  name = rstrip_nul h.name;
  dtb_addr = h.dtb_addr;
}

-- `_from_file`
unfoldable pub from_file : Parser VendorBoot
from_file = do
  h ← read_header
  require (bytes_eq h.magic vendor_boot_magic) wrong_format
  version ← lift (version_of h.header_version)
  sizes ← read_table_sizes version
  check_header_size h.header_size
  read_skip h.page_size
  ramdisk_base ← tell
  big ← read_big_ramdisk version h.vendor_ramdisk_size
  read_skip h.page_size
  dtb ← read_section h.dtb_size h.page_size
  tail ← read_tail version h sizes ramdisk_base big
  pure (build h dtb tail)

-- `sum(len(r) for r in self.ramdisks)`
unfoldable pub total_length : List Bytes → ℕ
total_length [] = 0
total_length (r ∷ rs) = length r + total_length rs

abbrev pub header_size_of : Kind → ℕ
header_size_of single = calcsize vendor_boot_img_hdr_v3
header_size_of (table metas) =
    calcsize vendor_boot_img_hdr_v3 + calcsize vendor_boot_img_hdr_v4_extra

abbrev pub header_of : VendorBoot → VendorHeader
header_of img = record {
  magic = vendor_boot_magic;
  header_version = version img.kind;
  page_size = img.page_size;
  kernel_addr = img.kernel_addr;
  ramdisk_addr = img.ramdisk_addr;
  vendor_ramdisk_size = total_length img.ramdisks;
  cmdline = img.cmdline;
  tags_addr = img.tags_addr;
  name = img.name;
  header_size = header_size_of img.kind;
  dtb_size = size_of img.dtb;
  dtb_addr = img.dtb_addr;
}

unfoldable pub write_table_sizes : Sections → Kind → Writer
write_table_sizes s single = skip
write_table_sizes s (table metas) = write_struct vendor_boot_img_hdr_v4_extra (
  length s.ramdisks * entry_size_v4,
  (length s.ramdisks, (entry_size_v4, (size_of s.bootconfig, tt))),
)

-- `for ramdisk in self.ramdisks: f.write(ramdisk)`
unfoldable pub write_ramdisks : List Bytes → Writer
write_ramdisks [] = skip
write_ramdisks (r ∷ rs) = write r ⨟ write_ramdisks rs

-- The loop over `zip(self.ramdisks, self.ramdisks_meta)`.
unfoldable pub write_table : ℕ → List Bytes → List RamdiskMeta → Writer
write_table ramdisk_offset (r ∷ rs) (m ∷ ms) =
    write_struct vendor_ramdisk_table_entry_v4
      (length r, (ramdisk_offset, (m.ramdisk_type, (m.name, (m.board_id, tt)))))
    ⨟ write_table (ramdisk_offset + length r) rs ms
write_table ramdisk_offset [] ms = skip
write_table ramdisk_offset (r ∷ rs) [] = skip

unfoldable pub write_tail : ℕ → Sections → Kind → Writer
write_tail page_size s single = skip
write_tail page_size s (table metas) =
    write_table 0 s.ramdisks metas ⨟ write_padding page_size ⨟ write_section page_size s.bootconfig

-- The guards of version 3, and of version 4.
unfoldable pub check_kind : Sections → Kind → Writer → Writer
check_kind s single w =
    check (leb (length s.ramdisks) 1) value_error ⨟ check (is_none s.bootconfig) value_error ⨟ w
check_kind s (table metas) w = check (length s.ramdisks == length metas) value_error ⨟ w

unfoldable pub check_sections : Sections → Writer → Writer
check_sections s w =
    check (is_none s.second) value_error ⨟ check (is_none s.recovery_dtbo) value_error ⨟ w

unfoldable pub generate : VendorBoot → Writer
generate img = check_kind img.sections img.kind (
    check_sections img.sections (
      write_struct vendor_boot_img_hdr_v3 (vendor_header_values (header_of img))
      ⨟ write_table_sizes img.sections img.kind
      ⨟ write_padding img.page_size
      ⨟ write_ramdisks img.ramdisks
      ⨟ write_padding img.page_size
      ⨟ write_section img.page_size img.dtb
      ⨟ write_tail img.page_size img.sections img.kind))
