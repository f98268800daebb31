-- ===== src/BootImage/V0/Header.antt =====
-- avbroot/formats/bootimage.py, `_BootImageV0Through2`: its attributes and the fields of its header.
use avbroot.Prelude.{ℕ}
use avbroot.Stream.{Bytes}
use avbroot.Struct.{Values}
use avbroot.BootImage.Format.{boot_img_hdr_v0}
use avbroot.BootImage.Section.{Sections}

-- The header version, with the attributes that only an image of that version has.
pub data Extra : Type 0 where
  v0 : Extra
  -- recovery_dtbo_offset
  v1 : ℕ → Extra
  -- recovery_dtbo_offset, dtb_addr
  v2 : ℕ → ℕ → Extra

abbrev pub version : Extra → ℕ
version v0 = 0
version (v1 offset) = 1
version (v2 offset addr) = 2

pub record BootV0 : Type 0 where
  pub sections : Sections
  pub open sections use *
  pub extra : Extra
  pub kernel_addr : ℕ
  pub ramdisk_addr : ℕ
  pub second_addr : ℕ
  pub tags_addr : ℕ
  pub page_size : ℕ
  pub os_version : ℕ
  pub name : Bytes
  pub cmdline : Bytes
  pub id : Bytes
  pub extra_cmdline : Bytes

-- The fields of `BOOT_IMG_HDR_V0`.
pub record HeaderV0 : Type 0 where
  pub magic : Bytes
  pub kernel_size : ℕ
  pub kernel_addr : ℕ
  pub ramdisk_size : ℕ
  pub ramdisk_addr : ℕ
  pub second_size : ℕ
  pub second_addr : ℕ
  pub tags_addr : ℕ
  pub page_size : ℕ
  pub header_version : ℕ
  pub os_version : ℕ
  pub name : Bytes
  pub cmdline : Bytes
  pub id : Bytes
  pub extra_cmdline : Bytes

abbrev pub header_v0 : Values boot_img_hdr_v0 → HeaderV0
header_v0
      (
        magic,
        (
          kernel_size,
          (
            kernel_addr,
            (
              ramdisk_size,
              (
                ramdisk_addr,
                (
                  second_size,
                  (
                    second_addr,
                    (
                      tags_addr,
                      (
                        page_size,
                        (header_version, (os_version, (name, (cmdline, (id, (extra_cmdline, _)))))),
                      ),
                    ),
                  ),
                ),
              ),
            ),
          ),
        ),
      ) =
    record {
      magic = magic;
      kernel_size = kernel_size;
      kernel_addr = kernel_addr;
      ramdisk_size = ramdisk_size;
      ramdisk_addr = ramdisk_addr;
      second_size = second_size;
      second_addr = second_addr;
      tags_addr = tags_addr;
      page_size = page_size;
      header_version = header_version;
      os_version = os_version;
      name = name;
      cmdline = cmdline;
      id = id;
      extra_cmdline = extra_cmdline;
    }

abbrev pub header_v0_values : HeaderV0 → Values boot_img_hdr_v0
header_v0_values h = (
  h.magic,
  (
    h.kernel_size,
    (
      h.kernel_addr,
      (
        h.ramdisk_size,
        (
          h.ramdisk_addr,
          (
            h.second_size,
            (
              h.second_addr,
              (
                h.tags_addr,
                (
                  h.page_size,
                  (
                    h.header_version,
                    (h.os_version, (h.name, (h.cmdline, (h.id, (h.extra_cmdline, tt))))),
                  ),
                ),
              ),
            ),
          ),
        ),
      ),
    ),
  ),
)
