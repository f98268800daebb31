-- ===== src/Tests/Formats.antt =====
-- avbroot/formats: paddings, an archive and an image.
use avbroot.Prelude.{
  ℕ, zero, suc, ◌+◌, ◌^◌, ◌≡◌, ◌↔◌, refl, inl, true, false, none, some, [], ◌∷◌, ◌++◌, length, map,
  arith, ◌≢◌,
}
use avbroot.Prelude.Int.{pos}
use avbroot.Prelude.Text.{codes, bytes_eq}
use avbroot.Result.{ok, err, value_error}
use avbroot.Stream.{Bytes}
use native.Mathlib.Nat.{pow-suc}
use avbroot.Padding.{is_power_of_2, calc}
use avbroot.Padding.Laws.{is_power_of_2_iff, IsPadding, calc-IsPadding, calc-not_power}
use avbroot.Cpio.Entry.{CpioEntry, blank, set_name, set_content}
use avbroot.Cpio.Entry.Laws.{IsStorable}
use avbroot.Cpio.Archive.{s_ifmt, is_hard_link, clear_inode, load, sort_entries, insert_entry, save}
use avbroot.Cpio.Archive.RoundTrip.{IsSavable, load-save}
use avbroot.BootImage.Version.{v4}
use avbroot.BootImage.V3.{BootV3}
use avbroot.BootImage.V3.Laws.{IsBootV3}
use avbroot.BootImage.Detect.{boot_v3, load_autodetect}
use avbroot.BootImage.Detect.RoundTrip.{generate_image, load_autodetect-generate}
use avbroot.Struct.{rstrip_nul, nul_cons}

is_power_of_2_iff_example : (is_power_of_2 4096 ≡ true) ↔ ((k : ℕ) × (4096 ≡ 2 ^ k))
is_power_of_2_iff_example = is_power_of_2_iff 4096

calc-IsPadding_example : (n : ℕ) × (calc 4097 (2 ^ 12) ≡ ok n) × IsPadding 4097 (2 ^ 12) n
calc-IsPadding_example = calc-IsPadding 12 4097

calc_run : calc 4097 4096 ≡ ok 4095
unfolding calc is_power_of_2
calc_run = refl

three_no_power : (k : ℕ) → 3 ≢ 2 ^ k
three_no_power zero h = absurd (omega arith)
three_no_power (suc k) h = absurd (omega (arith, pow-suc 2 k))

calc-not_power_example : calc 10 3 ≡ err value_error
calc-not_power_example = calc-not_power 3 10 three_no_power

abbrev pub hello : CpioEntry
hello =
    set_content (codes "hi")
      (set_name (codes "init") (record blank { mode = pos 0o100750; nlink = pos 1 }))

hello-IsStorable : IsStorable hello
hello-IsStorable = record {
  magic = inl refl;
  namesize = refl;
  filesize = refl;
  ino_u32 = omega arith;
  mode_u32 = omega arith;
  uid_u32 = omega arith;
  gid_u32 = omega arith;
  nlink_u32 = omega arith;
  mtime_u32 = omega arith;
  filesize_u32 = omega arith;
  dev_maj_u32 = omega arith;
  dev_min_u32 = omega arith;
  rdev_maj_u32 = omega arith;
  rdev_min_u32 = omega arith;
  namesize_u32 = omega arith;
  chksum_u32 = omega arith;
}

pub hello-IsSavable : IsSavable hello
unfolding bytes_eq s_ifmt is_hard_link
hello-IsSavable = record {
  storable = hello-IsStorable;
  not_trailer = refl;
  format = 0o100000;
  has_format = refl;
  no_hard_link = refl;
}

pub hello_archive :
    (out : Bytes) × (save (hello ∷ []) true false [] ≡ ok out)
    × (load false true (record { bytes = out; pos = 0; seekable = false })
        ≡ ok (
          sort_entries (hello ∷ []),
          record { bytes = out; pos = 0 + length out; seekable = false },
        ))
unfolding sort_entries insert_entry
hello_archive = load-save (hello ∷ []) false (hello-IsSavable, tt) (omega arith)

load-save_example :
    (out : Bytes) × (save (hello ∷ []) true false [] ≡ ok out)
    × (load false true (record { bytes = out; pos = 0; seekable = false })
        ≡ ok (
          map clear_inode (sort_entries (hello ∷ [])),
          record { bytes = out; pos = 0 + length out; seekable = false },
        ))
load-save_example = load-save (hello ∷ []) false (hello-IsSavable, tt) (omega arith)

abbrev pub small_boot : BootV3
small_boot = record {
  sections = record {
    kernel = some (1 ∷ 2 ∷ 3 ∷ []);
    ramdisks = (4 ∷ 5 ∷ []) ∷ [];
    second = none;
    recovery_dtbo = none;
    dtb = none;
    bootconfig = none;
  };
  header_version = v4;
  os_version = 7;
  reserved = codes "0123456789abcdef";
  cmdline = codes "quiet";
}

small_boot-IsBootV3 : IsBootV3 small_boot
unfolding rstrip_nul nul_cons
small_boot-IsBootV3 = record {
  header = (tt, omega arith);
  reserved_size = refl;
  cmdline_fits = omega arith;
  cmdline_stripped = refl;
  kernel = tt;
  ramdisks = tt;
  second = refl;
  recovery_dtbo = refl;
  dtb = refl;
  bootconfig = refl;
}

load_autodetect-generate_example :
    (out : Bytes) × (generate_image (boot_v3 small_boot) [] ≡ ok out)
    × (load_autodetect (record { bytes = out ++ codes "AVBf"; pos = 5; seekable = true })
        ≡ ok (
          boot_v3 small_boot,
          record { bytes = out ++ codes "AVBf"; pos = 0 + length out; seekable = true },
        ))
load_autodetect-generate_example =
    load_autodetect-generate (boot_v3 small_boot) small_boot-IsBootV3 (codes "AVBf") true 5
