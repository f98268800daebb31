-- ===== src/Tests/Boots.antt =====
-- avbroot/boot.py: concrete runs.
use avbroot.Prelude.{
  ℕ, ◌+◌, ◌<◌, ◌^◌, ◌≡◌, inl, refl, false, some, List, [], ◌∷◌, length, map, arith, if◌then◌else◌,
}
use avbroot.Prelude.Int.{pos}
use avbroot.Prelude.Text.{bytes_eq}
use avbroot.Result.{ok, err, exception}
use avbroot.Stream.{Bytes}
use avbroot.Cpio.Entry.{CpioEntry, blank, set_name, set_content, cpio_trailer}
use avbroot.Cpio.Archive.{s_ifmt, is_hard_link, clear_inode, sort_entries, insert_entry}
use avbroot.Cpio.Archive.RoundTrip.{IsSavable}
use avbroot.Compression.Auto.{lz4_legacy}
use avbroot.BootImage.Detect.{BootImage, boot_v3}
use avbroot.Boot.Ramdisk.{load_ramdisk, save_ramdisk}
use avbroot.Boot.Ramdisk.Laws.{load_ramdisk-save_ramdisk}
use avbroot.Boot.Image.{with_ramdisks}
use avbroot.Boot.OtaCert.{otacerts_path}
use avbroot.Boot.OtaCert
use avbroot.Boot.OtaCert.Laws.{IsLoaded, has_otacerts, ArePatched, patch_certs_lem}
use avbroot.Tests.Formats.{hello, hello-IsSavable, small_boot}
use avbroot.Tests.Stored.{stored_lz4, stored_gzip}

load_ramdisk-save_ramdisk_example :
    (ramdisk : Bytes) × (save_ramdisk stored_gzip stored_lz4 (hello ∷ []) (some lz4_legacy)
      ≡ ok ramdisk)
    × (load_ramdisk stored_gzip stored_lz4 ramdisk
        ≡ ok (map clear_inode (sort_entries (hello ∷ [])), some lz4_legacy))
load_ramdisk-save_ramdisk_example =
    load_ramdisk-save_ramdisk stored_gzip stored_lz4 (hello ∷ []) lz4_legacy (hello-IsSavable, tt)
      (omega arith)

-- An entry with one link that is not named like the trailer.
abbrev pub made : Bytes → ℕ → Bytes → CpioEntry
made name mode content =
    set_content content (set_name name (record blank { mode = pos mode; nlink = pos 1 }))

pub made-IsSavable :
    (name : Bytes) (mode : ℕ) (content : Bytes) (format : ℕ)
    → bytes_eq name cpio_trailer ≡ false
    → length name + 1 < 2 ^ 32
    → mode < 2 ^ 32
    → length content < 2 ^ 32
    → s_ifmt (pos mode) ≡ ok format
    → is_hard_link format (made name mode content) ≡ false
    → IsSavable (made name mode content)
made-IsSavable name mode content format n l m c f h = record {
  storable = record {
    magic = inl refl;
    namesize = refl;
    filesize = refl;
    ino_u32 = omega arith;
    mode_u32 = m;
    uid_u32 = omega arith;
    gid_u32 = omega arith;
    nlink_u32 = omega arith;
    mtime_u32 = omega arith;
    filesize_u32 = c;
    dev_maj_u32 = omega arith;
    dev_min_u32 = omega arith;
    rdev_maj_u32 = omega arith;
    rdev_min_u32 = omega arith;
    namesize_u32 = l;
    chksum_u32 = omega arith;
  };
  not_trailer = n;
  format = format;
  has_format = f;
  no_hard_link = h;
}

abbrev certs : CpioEntry
certs = made otacerts_path 0o100644 (1 ∷ 2 ∷ [])

certs-IsSavable : IsSavable certs
unfolding bytes_eq s_ifmt is_hard_link
certs-IsSavable =
    made-IsSavable otacerts_path 0o100644 (1 ∷ 2 ∷ []) 0o100000 refl (omega arith) (omega arith)
      (omega arith) refl refl

certs_saved :
    (ramdisk : Bytes) × (save_ramdisk stored_gzip stored_lz4 (certs ∷ []) (some lz4_legacy)
      ≡ ok ramdisk)
    × (load_ramdisk stored_gzip stored_lz4 ramdisk ≡ ok (certs ∷ [], some lz4_legacy))
unfolding sort_entries insert_entry
certs_saved =
    load_ramdisk-save_ramdisk stored_gzip stored_lz4 (certs ∷ []) lz4_legacy (certs-IsSavable, tt)
      (omega arith)

abbrev certs_ramdisk : Bytes
certs_ramdisk = let (ramdisk, saved, loaded) = certs_saved in ramdisk

certs_loaded : IsLoaded stored_gzip stored_lz4 certs_ramdisk
certs_loaded = record {
  entries = certs ∷ [];
  format = lz4_legacy;
  loads = let (ramdisk, saved, loaded) = certs_saved in loaded;
  savable = (certs-IsSavable, tt);
  room = omega arith;
}

abbrev certs_image : BootImage
certs_image = with_ramdisks (certs_ramdisk ∷ []) (boot_v3 small_boot)

patch_certs_lem_example :
    (news : List Bytes) × ArePatched stored_gzip stored_lz4
      (7 ∷ [])
      (certs_ramdisk ∷ [])
      (certs_loaded, tt)
      news
    × (OtaCert.patch stored_gzip stored_lz4 (7 ∷ []) certs_image ≡ (
        if has_otacerts stored_gzip stored_lz4 (certs_ramdisk ∷ []) (certs_loaded, tt)
        then ok (with_ramdisks news certs_image)
        else err exception))
patch_certs_lem_example =
    patch_certs_lem stored_gzip stored_lz4 (7 ∷ []) certs_image (certs_loaded, tt) (omega arith)
