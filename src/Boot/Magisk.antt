-- ===== src/Boot/Magisk.antt =====
-- avbroot/boot.py, `MagiskRootPatch`. The files of the APK, the xz compression and the SHA-1 digest of
-- the image are parameters; an APK without one of the files raises `KeyError`.
pub mod Laws
pub mod Config
pub mod Entries
pub mod Init
pub mod Built
pub mod Rooted
pub mod Patched
use avbroot.Prelude.{
  ℕ, zero, suc, ◌+◌, ◌-◌, ◌/◌, ◌%◌, Bool, true, false, not, ◌&&◌, ◌||◌, Option, none, some, List,
  [], ◌∷◌, ◌++◌, map, length, ltb, ◌==◌, if◌then◌else◌,
}
use avbroot.Prelude.Text.{codes, bytes_eq}
use avbroot.Result.{
  Result, ok, err, value_error, attribute_error, key_error, exception, ◌>>=◌, ◌>>◌, guard,
}
use avbroot.Stream.{Bytes}
use avbroot.Util.{Range, contains}
use avbroot.Cpio.Entry.{CpioEntry, new_directory, new_file}
use avbroot.Compression.Lz4.{Lz4Block}
use avbroot.Compression.Auto.{Gzip, Format, lz4_legacy}
use avbroot.BootImage.Detect.{BootImage}
use avbroot.Boot.Ramdisk.{load_ramdisk, save_ramdisk}
use avbroot.Boot.Image.{ramdisks_of, with_ramdisks}
use avbroot.Boot.Backup.{Object, fresh, objects, name_of, apply_magisk_backup}

abbrev range : ℕ → ℕ → Range
range start end = record { start = start; end = end }

-- `VERS_SUPPORTED`, `VER_PREINIT_DEVICE` and `VER_RANDOM_SEED`
abbrev pub vers_supported : List Range
vers_supported = range 25102 25207 ∷ range 25211 26200 ∷ range 26201 27000 ∷ []

abbrev pub ver_preinit_device : Range
ver_preinit_device = range 25211 27000

abbrev pub ver_random_seed : Range
ver_random_seed = range 25211 27000

pub record MagiskRootPatch : Type 0 where
  pub version : ℕ
  -- The characters of the text.
  pub preinit_device : Option Bytes
  pub random_seed : ℕ

abbrev pub seed_or_default : Option ℕ → ℕ
seed_or_default none = 0xfedcba9876543210
seed_or_default (some seed) = seed

-- `MagiskRootPatch(magisk_apk, preinit_device, random_seed)`, with the version that the APK has.
unfoldable pub magisk_root_patch : ℕ → Option Bytes → Option ℕ → MagiskRootPatch
magisk_root_patch version preinit_device random_seed = record {
  version = version;
  preinit_device = preinit_device;
  random_seed = seed_or_default random_seed;
}

unfoldable pub in_any : ℕ → List Range → Bool
in_any version [] = false
in_any version (r ∷ rs) = contains r version || in_any version rs

abbrev pub is_none {ℓ} : {A : Type ℓ} → Option A → Bool
is_none none = true
is_none (some a) = false

unfoldable pub validate : MagiskRootPatch → Result (Unit {0})
validate self =
    guard (in_any self.version vers_supported) value_error
    >> guard (not (is_none self.preinit_device && contains ver_preinit_device self.version))
        value_error

-- `text.encode('ascii')`
abbrev pub is_ascii : Bytes → Bool
is_ascii [] = true
is_ascii (c ∷ s) = ltb c 128 && is_ascii s

unfoldable pub encode_ascii : Option Bytes → Result Bytes
encode_ascii none = err attribute_error
encode_ascii (some text) = guard (is_ascii text) value_error >> ok text

-- `b'%x' % n`; a number has no more digits than its value.
abbrev pub hex_digit : ℕ → ℕ
hex_digit d = if ltb d 10 then b'0' + d else b'a' + (d - 10)

unfoldable pub hex_loop : ℕ → ℕ → Bytes → Bytes
hex_loop zero n digits = digits
hex_loop (suc fuel) n digits =
    let more = hex_loop fuel (n / 16) (hex_digit (n % 16) ∷ digits) in
    if n == 0 then digits else more

unfoldable pub hex : ℕ → Bytes
hex n = if n == 0 then codes "0" else hex_loop n n []

abbrev pub preinit_line : MagiskRootPatch → Result Bytes
preinit_line self =
    let line = encode_ascii self.preinit_device >>= λ device.
    ok (codes "PREINITDEVICE=" ++ (device ++ (10 ∷ []))) in
    if contains ver_preinit_device self.version then line else ok []

abbrev pub seed_line : MagiskRootPatch → Bytes
seed_line self =
    if contains ver_random_seed self.version
    then codes "RANDOMSEED=0x" ++ (hex self.random_seed ++ (10 ∷ []))
    else []

-- `magisk_config`
unfoldable pub magisk_config : MagiskRootPatch → Bytes → Result Bytes
magisk_config self hexdigest = preinit_line self >>= λ device_line. ok (
    codes "KEEPVERITY=true"
    ++ (10 ∷ [])
    ++ codes "KEEPFORCEENCRYPT=true"
    ++ (10 ∷ [])
    ++ codes "PATCHVBMETAFLAG=false"
    ++ (10 ∷ [])
    ++ codes "RECOVERYMODE=false"
    ++ (10 ∷ [])
    ++ device_line
    ++ codes "SHA1="
    ++ hexdigest
    ++ (10 ∷ [])
    ++ seed_line self)

-- `[e for e in entries if e.name != b'init']`
unfoldable pub without_init : List Object → List Object
without_init [] = []
without_init (o ∷ os) =
    let rest = without_init os in if bytes_eq (name_of o) (codes "init") then rest else o ∷ rest

-- `if boot_image.ramdisks`
abbrev pub is_nil {ℓ} : {A : Type ℓ} → List A → Bool
is_nil [] = true
is_nil (x ∷ xs) = false

abbrev pub entries_of : List Object → List CpioEntry
entries_of = map (λ o. o.entry)

abbrev pub set_first : Bytes → List Bytes → List Bytes
set_first ramdisk [] = ramdisk ∷ []
set_first ramdisk (r ∷ rs) = ramdisk ∷ rs

module _ (zip : Gzip) (lz4 : Lz4Block) where
  -- The archive of the image's ramdisk, or an empty one.
  unfoldable pub load_first : List Bytes → Result (List CpioEntry × Option Format)
  load_first [] = ok ([], some lz4_legacy)
  load_first (r ∷ rs) = load_ramdisk zip lz4 r

module _ (apk : Bytes → Option Bytes) (xz sha1_hex : Bytes → Bytes) where
  -- `zip.open(source)`
  abbrev pub open_file : Bytes → Result Bytes
  open_file source = elim (apk source) [ none ↦ err key_error | some content ↦ ok content ]

  -- `xz_files`, with stub.apk where the APK has it.
  abbrev pub xz_files : List (Bytes × Bytes)
  xz_files =
      (codes "lib/armeabi-v7a/libmagisk32.so", codes "magisk32.xz")
      ∷ (codes "lib/arm64-v8a/libmagisk64.so", codes "magisk64.xz")
      ∷ (if is_none (apk (codes "assets/stub.apk"))
          then []
          else (codes "assets/stub.apk", codes "stub.xz") ∷ [])

  unfoldable pub add_xz_files : List (Bytes × Bytes) → List Object → Result (List Object)
  add_xz_files [] entries = ok entries
  add_xz_files ((source, target) ∷ files) entries = open_file source >>= λ content.
      new_file (codes "overlay.d/sbin/" ++ target) 0o644 (xz content) >>= λ e.
      add_xz_files files (entries ++ (fresh e ∷ []))

  -- What is done to the entries, from the directories to the configuration.
  unfoldable pub patch_entries :
      (List Bytes → List Bytes)
      → MagiskRootPatch
      → Bytes
      → Bool
      → List CpioEntry
      → Result (List CpioEntry)
  patch_entries in_some_order self image_bytes has_ramdisk loaded =
      let old = objects 0 loaded in
      new_directory (codes "overlay.d") 0o750 >>= λ overlay.
      new_directory (codes "overlay.d/sbin") 0o750 >>= λ sbin.
      let all = old ++ (fresh overlay ∷ fresh sbin ∷ []) in
      let kept = if has_ramdisk then without_init all else all in
      open_file (codes "lib/arm64-v8a/libmagiskinit.so") >>= λ magiskinit.
      new_file (codes "init") 0o750 magiskinit >>= λ init.
      add_xz_files xz_files (kept ++ (fresh init ∷ [])) >>= λ with_xz.
      apply_magisk_backup in_some_order old with_xz >>= λ backed_up.
      magisk_config self (sha1_hex image_bytes) >>= λ config.
      new_file (codes ".backup/.magisk") 0 config >>= λ config_file.
      ok (entries_of (backed_up ++ (fresh config_file ∷ [])))

module _ (zip : Gzip) (lz4 : Lz4Block) (apk : Bytes → Option Bytes)
    (xz sha1_hex : Bytes → Bytes) where
  -- `_patch`, with the bytes of the image file.
  unfoldable pub patch :
      (List Bytes → List Bytes) → MagiskRootPatch → Bytes → BootImage → Result BootImage
  patch in_some_order self image_bytes image =
      let ramdisks = ramdisks_of image in
      guard (not (ltb 1 (length ramdisks))) exception
      >> (load_first zip lz4 ramdisks >>= λ (loaded, format).
          patch_entries apk xz sha1_hex in_some_order self image_bytes (not (is_nil ramdisks))
            loaded
          >>= λ entries. save_ramdisk zip lz4 entries format >>= λ new_ramdisk.
              ok (with_ramdisks (set_first new_ramdisk ramdisks) image))
