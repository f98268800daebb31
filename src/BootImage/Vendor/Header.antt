-- ===== src/BootImage/Vendor/Header.antt =====
-- avbroot/formats/bootimage.py, `_VendorBootImageV3Through4`: its attributes and the records of its file format.
use avbroot.Prelude.{ℕ, List}
use avbroot.Stream.{Bytes}
use avbroot.Struct.{Values}
use avbroot.BootImage.Format.{
  vendor_boot_img_hdr_v3, vendor_boot_img_hdr_v4_extra, vendor_ramdisk_table_entry_v4,
}
use avbroot.BootImage.Section.{Sections}

-- `_RamdiskMeta`
pub record RamdiskMeta : Type 0 where
  pub ramdisk_type : ℕ
  pub name : Bytes
  pub board_id : Bytes

-- The header version; an image of version 4 has the attribute `ramdisks_meta`.
pub data Kind : Type 0 where
  single : Kind
  table : List RamdiskMeta → Kind

abbrev pub version : Kind → ℕ
version single = 3
version (table metas) = 4

pub record VendorBoot : Type 0 where
  pub sections : Sections
  pub open sections use *
  pub kind : Kind
  pub page_size : ℕ
  pub kernel_addr : ℕ
  pub ramdisk_addr : ℕ
  pub cmdline : Bytes
  pub tags_addr : ℕ
  pub name : Bytes
  pub dtb_addr : ℕ

-- The fields of `VENDOR_BOOT_IMG_HDR_V3`.
pub record VendorHeader : Type 0 where
  pub magic : Bytes
  pub header_version : ℕ
  pub page_size : ℕ
  pub kernel_addr : ℕ
  pub ramdisk_addr : ℕ
  pub vendor_ramdisk_size : ℕ
  pub cmdline : Bytes
  pub tags_addr : ℕ
  pub name : Bytes
  pub header_size : ℕ
  pub dtb_size : ℕ
  pub dtb_addr : ℕ

abbrev pub vendor_header : Values vendor_boot_img_hdr_v3 → VendorHeader
vendor_header
      (
        magic,
        (
          header_version,
          (
            page_size,
            (
              kernel_addr,
              (
                ramdisk_addr,
                (
                  vendor_ramdisk_size,
                  (cmdline, (tags_addr, (name, (header_size, (dtb_size, (dtb_addr, _)))))),
                ),
              ),
            ),
          ),
        ),
      ) =
    record {
      magic = magic;
      header_version = header_version;
      page_size = page_size;
      kernel_addr = kernel_addr;
      ramdisk_addr = ramdisk_addr;
      vendor_ramdisk_size = vendor_ramdisk_size;
      cmdline = cmdline;
      tags_addr = tags_addr;
      name = name;
      header_size = header_size;
      dtb_size = dtb_size;
      dtb_addr = dtb_addr;
    }

abbrev pub vendor_header_values : VendorHeader → Values vendor_boot_img_hdr_v3
vendor_header_values h = (
  h.magic,
  (
    h.header_version,
    (
      h.page_size,
      (
        h.kernel_addr,
        (
          h.ramdisk_addr,
          (
            h.vendor_ramdisk_size,
            (h.cmdline, (h.tags_addr, (h.name, (h.header_size, (h.dtb_size, (h.dtb_addr, tt)))))),
          ),
        ),
      ),
    ),
  ),
)

-- The fields of `VENDOR_BOOT_IMG_HDR_V4_EXTRA`.
pub record TableSizes : Type 0 where
  pub table_size : ℕ
  pub entry_num : ℕ
  pub entry_size : ℕ
  pub bootconfig_size : ℕ

abbrev pub table_sizes : Values vendor_boot_img_hdr_v4_extra → TableSizes
table_sizes (table_size, (entry_num, (entry_size, (bootconfig_size, _)))) = record {
  table_size = table_size;
  entry_num = entry_num;
  entry_size = entry_size;
  bootconfig_size = bootconfig_size;
}

abbrev pub table_sizes_values : TableSizes → Values vendor_boot_img_hdr_v4_extra
table_sizes_values h = (h.table_size, (h.entry_num, (h.entry_size, (h.bootconfig_size, tt))))

-- The fields of `VENDOR_RAMDISK_TABLE_ENTRY_V4`.
pub record TableEntry : Type 0 where
  pub ramdisk_size : ℕ
  pub ramdisk_offset : ℕ
  pub ramdisk_type : ℕ
  pub ramdisk_name : Bytes
  pub board_id : Bytes

abbrev pub table_entry : Values vendor_ramdisk_table_entry_v4 → TableEntry
table_entry (ramdisk_size, (ramdisk_offset, (ramdisk_type, (ramdisk_name, (board_id, _))))) =
    record {
      ramdisk_size = ramdisk_size;
      ramdisk_offset = ramdisk_offset;
      ramdisk_type = ramdisk_type;
      ramdisk_name = ramdisk_name;
      board_id = board_id;
    }

abbrev pub table_entry_values : TableEntry → Values vendor_ramdisk_table_entry_v4
table_entry_values h =
    (h.ramdisk_size, (h.ramdisk_offset, (h.ramdisk_type, (h.ramdisk_name, (h.board_id, tt)))))
