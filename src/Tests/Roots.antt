-- ===== src/Tests/Roots.antt =====
-- avbroot/boot.py, `MagiskRootPatch`: an image without a ramdisk is rooted.
use avbroot.Prelude.{
  ◌+◌, ◌<◌, ◌^◌, length, sym, ◌∙◌, inl, ◌≡◌, ◌↔◌, ◌⊎◌, refl, true, false, Option, some, List, [],
  ◌∷◌, ◌++◌, map, arith, All,
}
use avbroot.Prelude.Text.{codes, bytes_eq, bytes_le}
use avbroot.Prelude.Dict.{elem}
use avbroot.Result.{ok}
use avbroot.Stream.{Bytes}
use avbroot.Util.{contains}
use avbroot.Cpio.Entry.{CpioEntry, new_directory, new_file}
use avbroot.Cpio.Archive.{s_ifmt, is_hard_link, clear_inode, sort_entries, first_inode}
use avbroot.Cpio.Archive.RoundTrip.{IsSavable}
use avbroot.Compression.Auto.{lz4_legacy}
use avbroot.BootImage.Detect.{BootImage, boot_v3}
use avbroot.Boot.Ramdisk.{load_ramdisk}
use avbroot.Boot.Image.{with_ramdisks}
use avbroot.Boot.Backup.{
  Object, objects, names_of, by_name, filter_names, added, lost, add_backups, insert_name,
  sort_names, join_names, apply_magisk_backup,
}
use avbroot.Boot.Backup.Laws.{IsKept, IsBackedUp, apply_magisk_backup-keeps}
use avbroot.Boot.Magisk
use avbroot.Boot.Magisk.{
  MagiskRootPatch, is_none, validate, encode_ascii, hex_loop, hex, magisk_config, without_init,
  add_xz_files, load_first, patch_entries,
}
use avbroot.Boot.Magisk.Laws.{IsOld, IsNew, validate_iff}
use avbroot.Boot.Magisk.Config.{expected_config}
use avbroot.Boot.Magisk.Rooted.{IsRooted, patch_entries_lem}
use avbroot.Boot.Magisk.Patched.{patch_lem}
use mathlib.Core.Path.{subst}
use avbroot.Tests.Formats.{hello, small_boot}
use avbroot.Tests.Stored.{stored_lz4, stored_gzip}
use avbroot.Tests.Boots.{made, made-IsSavable}

abbrev in_this_order : List Bytes → List Bytes
in_this_order ns = ns

apply_magisk_backup-keeps_example :
    (out : List Object) × (apply_magisk_backup in_this_order (objects 0 (hello ∷ [])) [] ≡ ok out)
    × ((n : Bytes)
        → elem n (names_of (objects 0 (hello ∷ []))) ≡ true
        → (o : Object) × (by_name n (objects 0 (hello ∷ [])) ≡ some o)
          × (IsKept o n [] ⊎ IsBackedUp o n out))
apply_magisk_backup-keeps_example =
    apply_magisk_backup-keeps in_this_order (hello ∷ []) [] (λ ns d. d) (λ ns n. refl)

abbrev root_patch : MagiskRootPatch
root_patch = record { version = 26100; preinit_device = some (codes "sda"); random_seed = 0xfe }

validate_iff_example :
    (validate root_patch ≡ ok tt) ↔ (IsOld 26100 ⊎ (IsNew 26100 × (false ≡ false)))
validate_iff_example = validate_iff root_patch

-- Every file of the APK is one byte, and so is the digest.
abbrev apk : Bytes → Option Bytes
apk source = some (1 ∷ [])

abbrev same : Bytes → Bytes
same content = content

abbrev digest : Bytes → Bytes
digest content = codes "d"

abbrev newline : Bytes
newline = 10 ∷ []

abbrev config : Bytes
config =
    codes "KEEPVERITY=true"
    ++ newline
    ++ codes "KEEPFORCEENCRYPT=true"
    ++ newline
    ++ codes "PATCHVBMETAFLAG=false"
    ++ newline
    ++ codes "RECOVERYMODE=false"
    ++ newline
    ++ codes "PREINITDEVICE=sda"
    ++ newline
    ++ codes "SHA1=d"
    ++ newline
    ++ codes "RANDOMSEED=0xfe"
    ++ newline

config_run : magisk_config root_patch (codes "d") ≡ ok config
unfolding magisk_config encode_ascii contains hex hex_loop
config_run = refl

abbrev join : List Bytes → Bytes
join [] = []
join (n ∷ ns) = n ++ (0 ∷ join ns)

abbrev rmlist : Bytes
rmlist = join (
    codes "init"
    ∷ codes "overlay.d"
    ∷ codes "overlay.d/sbin"
    ∷ codes "overlay.d/sbin/magisk32.xz"
    ∷ codes "overlay.d/sbin/magisk64.xz"
    ∷ codes "overlay.d/sbin/stub.xz"
    ∷ [])

abbrev rooted : List CpioEntry
rooted =
    made (codes "overlay.d") 0o040750 []
    ∷ made (codes "overlay.d/sbin") 0o040750 []
    ∷ made (codes "init") 0o100750 (1 ∷ [])
    ∷ made (codes "overlay.d/sbin/magisk32.xz") 0o100644 (1 ∷ [])
    ∷ made (codes "overlay.d/sbin/magisk64.xz") 0o100644 (1 ∷ [])
    ∷ made (codes "overlay.d/sbin/stub.xz") 0o100644 (1 ∷ [])
    ∷ made (codes ".backup") 0o040000 []
    ∷ made (codes ".backup/.rmlist") 0o100000 rmlist
    ∷ made (codes ".backup/.magisk") 0o100000 config
    ∷ []

rooted_run : patch_entries apk same digest in_this_order root_patch [] false [] ≡ ok rooted
unfolding patch_entries objects new_directory new_file without_init add_xz_files apply_magisk_backup
    add_backups lost added filter_names names_of by_name insert_name sort_names join_names
    magisk_config encode_ascii contains hex hex_loop bytes_eq bytes_le
rooted_run = refl

rooted-IsSavable : All IsSavable rooted
unfolding bytes_eq s_ifmt is_hard_link
rooted-IsSavable = (
  made-IsSavable (codes "overlay.d") 0o040750 [] 0o040000 refl (omega arith) (omega arith)
      (omega arith) refl refl,
  (
    made-IsSavable (codes "overlay.d/sbin") 0o040750 [] 0o040000 refl (omega arith) (omega arith)
        (omega arith) refl refl,
    (
      made-IsSavable (codes "init") 0o100750 (1 ∷ []) 0o100000 refl (omega arith) (omega arith)
          (omega arith) refl refl,
      (
        made-IsSavable (codes "overlay.d/sbin/magisk32.xz") 0o100644 (1 ∷ []) 0o100000 refl
            (omega arith) (omega arith) (omega arith) refl refl,
        (
          made-IsSavable (codes "overlay.d/sbin/magisk64.xz") 0o100644 (1 ∷ []) 0o100000 refl
              (omega arith) (omega arith) (omega arith) refl refl,
          (
            made-IsSavable (codes "overlay.d/sbin/stub.xz") 0o100644 (1 ∷ []) 0o100000 refl
                (omega arith) (omega arith) (omega arith) refl refl,
            (
              made-IsSavable (codes ".backup") 0o040000 [] 0o040000 refl (omega arith) (omega arith)
                  (omega arith) refl refl,
              (
                made-IsSavable (codes ".backup/.rmlist") 0o100000 rmlist 0o100000 refl (omega arith)
                    (omega arith) (omega arith) refl refl,
                (
                  made-IsSavable (codes ".backup/.magisk") 0o100000 config 0o100000 refl
                      (omega arith) (omega arith) (omega arith) refl refl,
                  tt,
                ),
              ),
            ),
          ),
        ),
      ),
    ),
  ),
)

abbrev bare_image : BootImage
bare_image = with_ramdisks [] (boot_v3 small_boot)

cpio_same : (es fs : List CpioEntry) → ok es ≡ ok fs → es ≡ fs
cpio_same es fs h = cc

rooted-All :
    (es : List CpioEntry)
    → patch_entries apk same digest in_this_order root_patch [] false [] ≡ ok es
    → All IsSavable es × (first_inode + length es < 2 ^ 32)
rooted-All es h =
    subst (λ t. All IsSavable t × (first_inode + length t < 2 ^ 32))
      (cpio_same rooted es (sym rooted_run ∙ h)) (rooted-IsSavable, omega arith)

patch_lem_example :
    (ramdisk : Bytes) × (es : List CpioEntry) × (Magisk.patch stored_gzip stored_lz4 apk same digest
        in_this_order root_patch [] bare_image
      ≡ ok (with_ramdisks (ramdisk ∷ []) bare_image))
    × (load_ramdisk stored_gzip stored_lz4 ramdisk
        ≡ ok (map clear_inode (sort_entries es), some lz4_legacy))
    × IsRooted apk same
        (1 ∷ [])
        (1 ∷ [])
        (1 ∷ [])
        (expected_config 26100 (codes "sda") (codes "d") 0xfe)
        []
        es
patch_lem_example =
    patch_lem stored_gzip stored_lz4 apk same digest in_this_order root_patch [] bare_image []
      lz4_legacy (1 ∷ []) (1 ∷ []) (1 ∷ []) (codes "sda") (λ ns d. d) (λ ns n. refl)
      (inl (refl, refl, refl)) refl refl refl refl (omega arith, (omega arith, (omega arith, tt)))
      rooted-All

-- A ramdisk with an `init` of its own.
abbrev old_init : List CpioEntry
old_init = made (codes "init") 0o100750 (9 ∷ []) ∷ hello ∷ []

patch_entries_lem_example :
    (es : List CpioEntry) × (patch_entries apk same digest in_this_order root_patch [] true old_init
      ≡ ok es)
    × IsRooted apk same
        (1 ∷ [])
        (1 ∷ [])
        (1 ∷ [])
        (expected_config 26100 (codes "sda") (codes "d") 0xfe)
        old_init
        es
patch_entries_lem_example =
    patch_entries_lem apk same digest in_this_order root_patch [] true old_init (1 ∷ []) (1 ∷ [])
      (1 ∷ []) (codes "sda") (λ ns d. d) (λ ns n. refl) (inl refl) refl refl refl refl
      (omega arith, (omega arith, (omega arith, tt)))
