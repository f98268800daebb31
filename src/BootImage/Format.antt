-- ===== src/BootImage/Format.antt =====
-- avbroot/formats/bootimage.py: the constants and the `struct` formats of the headers.
use avbroot.Prelude.{ℕ, ◌*◌, ◌+◌, List, [], ◌∷◌, length}
use avbroot.Prelude.Text.{codes}
use avbroot.Stream.{Bytes}
use avbroot.Struct.{Field, chars, u32, u64}

abbrev pub boot_magic : Bytes
boot_magic = codes "ANDROID!"

abbrev pub boot_name_size : ℕ
boot_name_size = 16

abbrev pub boot_args_size : ℕ
boot_args_size = 512

abbrev pub boot_extra_args_size : ℕ
boot_extra_args_size = 1024

abbrev pub vendor_boot_magic : Bytes
vendor_boot_magic = codes "VNDRBOOT"

abbrev pub vendor_boot_args_size : ℕ
vendor_boot_args_size = 2048

abbrev pub vendor_boot_name_size : ℕ
vendor_boot_name_size = 16

abbrev pub vendor_ramdisk_name_size : ℕ
vendor_ramdisk_name_size = 32

abbrev pub vendor_ramdisk_table_entry_board_id_size : ℕ
vendor_ramdisk_table_entry_board_id_size = 16

-- `PAGE_SIZE`
abbrev pub v3_page_size : ℕ
v3_page_size = 4096

-- magic, kernel_size, kernel_addr, ramdisk_size, ramdisk_addr, second_size, second_addr, tags_addr,
-- page_size, header_version, os_version, name, cmdline, id, extra_cmdline
abbrev pub boot_img_hdr_v0 : List Field
boot_img_hdr_v0 =
    chars (length boot_magic)
    ∷ u32
    ∷ u32
    ∷ u32
    ∷ u32
    ∷ u32
    ∷ u32
    ∷ u32
    ∷ u32
    ∷ u32
    ∷ u32
    ∷ chars boot_name_size
    ∷ chars boot_args_size
    ∷ chars (8 * 4)
    ∷ chars boot_extra_args_size
    ∷ []

-- recovery_dtbo_size, recovery_dtbo_offset, header_size
abbrev pub boot_img_hdr_v1_extra : List Field
boot_img_hdr_v1_extra = u32 ∷ u64 ∷ u32 ∷ []

-- dtb_size, dtb_addr
abbrev pub boot_img_hdr_v2_extra : List Field
boot_img_hdr_v2_extra = u32 ∷ u64 ∷ []

-- magic, kernel_size, ramdisk_size, os_version, header_size, reserved, header_version, cmdline
abbrev pub boot_img_hdr_v3 : List Field
boot_img_hdr_v3 =
    chars (length boot_magic)
    ∷ u32
    ∷ u32
    ∷ u32
    ∷ u32
    ∷ chars 16
    ∷ u32
    ∷ chars (boot_args_size + boot_extra_args_size)
    ∷ []

-- magic, header_version, page_size, kernel_addr, ramdisk_addr, vendor_ramdisk_size, cmdline, tags_addr,
-- name, header_size, dtb_size, dtb_addr
abbrev pub vendor_boot_img_hdr_v3 : List Field
vendor_boot_img_hdr_v3 =
    chars (length vendor_boot_magic)
    ∷ u32
    ∷ u32
    ∷ u32
    ∷ u32
    ∷ u32
    ∷ chars vendor_boot_args_size
    ∷ u32
    ∷ chars vendor_boot_name_size
    ∷ u32
    ∷ u32
    ∷ u64
    ∷ []

-- signature_size
abbrev pub boot_img_hdr_v4_extra : List Field
boot_img_hdr_v4_extra = u32 ∷ []

-- vendor_ramdisk_table_size, vendor_ramdisk_table_entry_num, vendor_ramdisk_table_entry_size,
-- bootconfig_size
abbrev pub vendor_boot_img_hdr_v4_extra : List Field
vendor_boot_img_hdr_v4_extra = u32 ∷ u32 ∷ u32 ∷ u32 ∷ []

-- ramdisk_size, ramdisk_offset, ramdisk_type, ramdisk_name, board_id
abbrev pub vendor_ramdisk_table_entry_v4 : List Field
vendor_ramdisk_table_entry_v4 =
    u32
    ∷ u32
    ∷ u32
    ∷ chars vendor_ramdisk_name_size
    ∷ chars (vendor_ramdisk_table_entry_board_id_size * 4)
    ∷ []
