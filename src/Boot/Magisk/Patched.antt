-- ===== src/Boot/Magisk/Patched.antt =====
-- The image that `_patch` makes.
use avbroot.Prelude.{
  ◌+◌, ◌<◌, ◌^◌, ◌≡◌, ◌⊎◌, inl, inr, refl, sym, ap, ◌∙◌, true, false, not, Option, some, List, [],
  ◌∷◌, length, map, All,
}
use avbroot.Prelude.Text.{codes}
use avbroot.Prelude.Dict.{elem, AreDistinct}
use avbroot.Result.{ok}
use avbroot.Stream.{Bytes}
use avbroot.Cpio.Entry.{CpioEntry}
use avbroot.Cpio.Archive.{clear_inode, sort_entries, first_inode}
use avbroot.Cpio.Archive.RoundTrip.{IsSavable}
use avbroot.Compression.Lz4.{Lz4Block}
use avbroot.Compression.Auto.{Gzip, Format, lz4_legacy}
use avbroot.BootImage.Detect.{BootImage}
use avbroot.Boot.Ramdisk.{load_ramdisk, save_ramdisk}
use avbroot.Boot.Ramdisk.Laws.{load_ramdisk-save_ramdisk}
use avbroot.Boot.Image.{ramdisks_of, with_ramdisks}
use avbroot.Boot.Magisk.{MagiskRootPatch, is_nil, load_first, patch_entries, patch}
use avbroot.Boot.Magisk.Config.{expected_config}
use avbroot.Boot.Magisk.Rooted.{IsRooted, patch_entries_lem}

module _ (zip : Gzip) (lz4 : Lz4Block) where
  -- The image has no ramdisk, or one, which loads.
  abbrev pub IsLoaded : List Bytes → List CpioEntry → Format → Type 0
  IsLoaded rs loaded format =
      ((rs ≡ []) × (loaded ≡ []) × (format ≡ lz4_legacy))
      ⊎ ((r : Bytes) × (rs ≡ r ∷ []) × (load_ramdisk zip lz4 r ≡ ok (loaded, some format)))

  module _ (apk : Bytes → Option Bytes) (xz sha1_hex : Bytes → Bytes) where
    loaded_nothing :
        (rs : List Bytes) (loaded : List CpioEntry) (format : Format)
        → IsLoaded rs loaded format
        → (not (is_nil rs) ≡ true) ⊎ (loaded ≡ [])
    loaded_nothing rs loaded format (inl (no_ramdisk, nothing, lz4_format)) = inr nothing
    loaded_nothing rs loaded format (inr (r, one, loads)) = inl (ap (λ t. not (is_nil t)) one)

    -- `_patch`, once the entries are patched and saved.
    patch_step :
        (in_some_order : List Bytes → List Bytes) (self : MagiskRootPatch) (image_bytes : Bytes)
        (image : BootImage) (loaded es : List CpioEntry) (format : Format) (ramdisk : Bytes)
        → IsLoaded (ramdisks_of image) loaded format
        → patch_entries apk xz sha1_hex in_some_order self image_bytes
            (not (is_nil (ramdisks_of image)))
            loaded
          ≡ ok es
        → save_ramdisk zip lz4 es (some format) ≡ ok ramdisk
        → patch zip lz4 apk xz sha1_hex in_some_order self image_bytes image
          ≡ ok (with_ramdisks (ramdisk ∷ []) image)
    unfolding patch load_first
    patch_step in_some_order self image_bytes image loaded es format ramdisk
          (inl (no_ramdisk, nothing, lz4_format)) patched saved =
        let patched' : patch_entries apk xz sha1_hex in_some_order self image_bytes false []
            ≡ ok es =
          sym (rw (no_ramdisk, nothing) refl) ∙ patched in
        let saved' : save_ramdisk zip lz4 es (some lz4_legacy) ≡ ok ramdisk =
          sym (rw lz4_format refl) ∙ saved in
        rw (no_ramdisk, patched', saved') refl
    patch_step in_some_order self image_bytes image loaded es format ramdisk (inr (r, one, loads))
          patched saved =
        let patched' : patch_entries apk xz sha1_hex in_some_order self image_bytes true loaded
            ≡ ok es =
          sym (rw one refl) ∙ patched in
        rw (one, loads, patched', saved) refl

    -- For an image with no ramdisk or with one that loads, an APK with the three required files, a
    -- preinit device in ASCII, and patched entries that can be saved, whatever the order in which the
    -- sets are iterated (each name once), `MagiskRootPatch._patch` returns the image with exactly one
    -- ramdisk, in the format of the old one, or in that of lz4 where there was none. It loads as the
    -- patched entries sorted by name, with cleared inode numbers; and the patched entries have the two
    -- directories of the overlay, `init` with the content of libmagiskinit.so and no `init` with
    -- another content, magisk32.xz, magisk64.xz and, if the APK has stub.apk, stub.xz, with the
    -- compressed files of the APK, the configuration, line by line, and the old `init`, if there was
    -- one with another content, as `.backup/init`; each with its mode.
    pub patch_lem :
        (in_some_order : List Bytes → List Bytes) (self : MagiskRootPatch) (image_bytes : Bytes)
        (image : BootImage) (loaded : List CpioEntry) (format : Format)
        (magiskinit magisk32 magisk64 device : Bytes)
        → ((ns : List Bytes) → AreDistinct ns → AreDistinct (in_some_order ns))
        → ((ns : List Bytes) (n : Bytes) → elem n (in_some_order ns) ≡ elem n ns)
        → IsLoaded (ramdisks_of image) loaded format
        → apk (codes "lib/arm64-v8a/libmagiskinit.so") ≡ some magiskinit
        → apk (codes "lib/armeabi-v7a/libmagisk32.so") ≡ some magisk32
        → apk (codes "lib/arm64-v8a/libmagisk64.so") ≡ some magisk64
        → self.preinit_device ≡ some device
        → All (λ c. c < 128) device
        → ((es : List CpioEntry)
            → patch_entries apk xz sha1_hex in_some_order self image_bytes
                (not (is_nil (ramdisks_of image)))
                loaded
              ≡ ok es
            → All IsSavable es × (first_inode + length es < 2 ^ 32))
        → (ramdisk : Bytes) × (es : List CpioEntry) × (patch zip lz4 apk xz sha1_hex in_some_order
              self image_bytes image
            ≡ ok (with_ramdisks (ramdisk ∷ []) image))
          × (load_ramdisk zip lz4 ramdisk ≡ ok (map clear_inode (sort_entries es), some format))
          × IsRooted apk xz magiskinit magisk32 magisk64
              (expected_config self.version device (sha1_hex image_bytes) self.random_seed)
              loaded
              es
    patch_lem in_some_order self image_bytes image loaded format magiskinit magisk32 magisk64 device
          distinct same loads found_init found32 found64 given ascii savable =
        let (es, patched, rooted) =
          patch_entries_lem apk xz sha1_hex in_some_order self image_bytes
            (not (is_nil (ramdisks_of image))) loaded magiskinit magisk32 magisk64 device distinct
            same (loaded_nothing (ramdisks_of image) loaded format loads) found_init found32 found64
            given ascii in
        let (saves, room) = savable es patched in
        let (ramdisk, saved, again) = load_ramdisk-save_ramdisk zip lz4 es format saves room in
        (
          ramdisk,
          es,
          patch_step in_some_order self image_bytes image loaded es format ramdisk loads patched
              saved,
          again,
          rooted,
        )
