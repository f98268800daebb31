-- ===== src/Boot/Magisk/Built.antt =====
-- The entries that the patch makes, before the backup.
use avbroot.Prelude.{
  ◌≡◌, ◌⊎◌, inl, inr, refl, sym, ap, ◌∙◌, Bool, true, Option, none, some, List, [], ◌∷◌, ◌++◌, All,
  Option-cases, if◌then◌else◌,
}
use mathlib.Core.Path.{subst}
use avbroot.Prelude.Text.{codes}
use avbroot.Result.{ok}
use avbroot.Stream.{Bytes}
use avbroot.Cpio.Entry.{CpioEntry, new_directory, new_file}
use avbroot.Boot.Backup.{Object, fresh, objects}
use avbroot.Boot.Backup.Kept.{All-append}
use avbroot.Boot.Magisk.{is_none, without_init, xz_files, add_xz_files}
use avbroot.Boot.Magisk.Entries.{
  IsInitObject, Adds, Adds-append, Adds-behind, init_file, overlay_directory, sbin_directory,
  IsAdded, IsThere, add_xz_files_lem, Adds-kept,
}
use avbroot.Boot.Magisk.Init.{kept_lem}

bytes_same : {a b : Bytes} → some a ≡ some b → a ≡ b
bytes_same h = cc

module _ (apk : Bytes → Option Bytes) (xz sha1_hex : Bytes → Bytes) where
  -- The compressed files behind the given objects.
  abbrev AreCompressed : Bytes → Bytes → Bytes → List Object → List Object → Type 0
  AreCompressed magiskinit magisk32 magisk64 os more =
      (add_xz_files apk xz sha1_hex (xz_files apk xz sha1_hex) os ≡ ok (os ++ more))
      × All (IsInitObject magiskinit) more
      × Adds more (codes "overlay.d/sbin/magisk32.xz") 0o100644 (xz magisk32)
      × Adds more (codes "overlay.d/sbin/magisk64.xz") 0o100644 (xz magisk64)
      × ((apk (codes "assets/stub.apk") ≡ none)
          ⊎ ((stub : Bytes) × (apk (codes "assets/stub.apk") ≡ some stub)
              × Adds more (codes "overlay.d/sbin/stub.xz") 0o100644 (xz stub)))

  abbrev stub_files : List (Bytes × Bytes)
  stub_files =
      if is_none (apk (codes "assets/stub.apk"))
      then []
      else (codes "assets/stub.apk", codes "stub.xz") ∷ []

  stub-IsThere : All (IsThere apk xz sha1_hex) stub_files
  stub-IsThere = elim (Option-cases (apk (codes "assets/stub.apk"))) [
    | inl missing ↦ rw missing tt
    | inr (stub, found) ↦ rw (found, is_none) ((stub, found), tt)
  ]

  stub-IsAdded :
      (more : List Object)
      → All (IsAdded apk xz sha1_hex more) stub_files
      → (apk (codes "assets/stub.apk") ≡ none)
        ⊎ ((stub : Bytes) × (apk (codes "assets/stub.apk") ≡ some stub)
            × Adds more (codes "overlay.d/sbin/stub.xz") 0o100644 (xz stub))
  stub-IsAdded more h = elim (Option-cases (apk (codes "assets/stub.apk"))) [
    | inl missing ↦ inl missing
    | inr (stub, found) ↦
        let one : All (IsAdded apk xz sha1_hex more)
            ((codes "assets/stub.apk", codes "stub.xz") ∷ []) =
          subst
            (λ b.
              All (IsAdded apk xz sha1_hex more)
                (if b then [] else (codes "assets/stub.apk", codes "stub.xz") ∷ []))
            (ap is_none found) h in
        inr one.0
  ]

  compressed_lem :
      (magiskinit magisk32 magisk64 : Bytes) (os : List Object)
      → apk (codes "lib/armeabi-v7a/libmagisk32.so") ≡ some magisk32
      → apk (codes "lib/arm64-v8a/libmagisk64.so") ≡ some magisk64
      → (more : List Object) × AreCompressed magiskinit magisk32 magisk64 os more
  compressed_lem magiskinit magisk32 magisk64 os found32 found64 =
      let (more, done, ((c, found_c, added32), ((d, found_d, added64), rest)), other) =
        add_xz_files_lem apk xz sha1_hex magiskinit (xz_files apk xz sha1_hex) os
          ((magisk32, found32), ((magisk64, found64), stub-IsThere)) in
      (
        more,
        (
          done,
          other,
          subst (λ t. Adds more (codes "overlay.d/sbin/magisk32.xz") 0o100644 (xz t))
              (bytes_same (sym found_c ∙ found32)) added32,
          subst (λ t. Adds more (codes "overlay.d/sbin/magisk64.xz") 0o100644 (xz t))
              (bytes_same (sym found_d ∙ found64)) added64,
          stub-IsAdded more rest,
        ),
      )

abbrev pub kept_of : Bool → List CpioEntry → CpioEntry → CpioEntry → List Object
kept_of has_ramdisk loaded overlay sbin =
    let all = objects 0 loaded ++ (fresh overlay ∷ fresh sbin ∷ []) in
    if has_ramdisk then without_init all else all

-- The entries that the backup is made for.
pub record Built (apk : Bytes → Option Bytes) (xz sha1_hex : Bytes → Bytes) (has_ramdisk : Bool)
    (loaded : List CpioEntry) (magiskinit magisk32 magisk64 : Bytes) : Type 0 where
  pub overlay : CpioEntry
  pub overlay_made : new_directory (codes "overlay.d") 0o750 ≡ ok overlay
  pub sbin : CpioEntry
  pub sbin_made : new_directory (codes "overlay.d/sbin") 0o750 ≡ ok sbin
  pub init : CpioEntry
  pub init_made : new_file (codes "init") 0o750 magiskinit ≡ ok init
  pub new : List Object
  pub compressed :
      add_xz_files apk xz sha1_hex
        (xz_files apk xz sha1_hex)
        (kept_of has_ramdisk loaded overlay sbin ++ (fresh init ∷ []))
      ≡ ok new
  pub new_init : All (IsInitObject magiskinit) new
  pub adds_overlay : Adds new (codes "overlay.d") 0o040750 []
  pub adds_sbin : Adds new (codes "overlay.d/sbin") 0o040750 []
  pub adds_init : Adds new (codes "init") 0o100750 magiskinit
  pub adds_32 : Adds new (codes "overlay.d/sbin/magisk32.xz") 0o100644 (xz magisk32)
  pub adds_64 : Adds new (codes "overlay.d/sbin/magisk64.xz") 0o100644 (xz magisk64)
  pub adds_stub :
      (apk (codes "assets/stub.apk") ≡ none)
      ⊎ ((stub : Bytes) × (apk (codes "assets/stub.apk") ≡ some stub)
          × Adds new (codes "overlay.d/sbin/stub.xz") 0o100644 (xz stub))

module _ (apk : Bytes → Option Bytes) (xz sha1_hex : Bytes → Bytes) where
  pub built :
      (has_ramdisk : Bool) (loaded : List CpioEntry) (magiskinit magisk32 magisk64 : Bytes)
      → (has_ramdisk ≡ true) ⊎ (loaded ≡ [])
      → apk (codes "lib/armeabi-v7a/libmagisk32.so") ≡ some magisk32
      → apk (codes "lib/arm64-v8a/libmagisk64.so") ≡ some magisk64
      → Built apk xz sha1_hex has_ramdisk loaded magiskinit magisk32 magisk64
  built has_ramdisk loaded magiskinit magisk32 magisk64 ramdisk found32 found64 =
      let (overlay, overlay_made, o_name, o_mode, o_content) = overlay_directory in
      let (sbin, sbin_made, s_name, s_mode, s_content) = sbin_directory in
      let (init, init_made, i_name, i_mode, i_content) = init_file magiskinit in
      let kept = kept_of has_ramdisk loaded overlay sbin in
      let (kept_all, overlay_there, sbin_there) =
        kept_lem has_ramdisk loaded overlay sbin magiskinit ramdisk o_name s_name in
      let front = kept ++ (fresh init ∷ []) in
      let (more, (compressed, more_all, added32, added64, stub)) =
        compressed_lem apk xz sha1_hex magiskinit magisk32 magisk64 front found32 found64 in
      record {
        overlay = overlay;
        overlay_made = overlay_made;
        sbin = sbin;
        sbin_made = sbin_made;
        init = init;
        init_made = init_made;
        new = front ++ more;
        compressed = compressed;
        new_init =
            All-append (IsInitObject magiskinit) front more
              (All-append (IsInitObject magiskinit) kept (fresh init ∷ []) kept_all
                (inr i_content, tt))
              more_all;
        adds_overlay =
            Adds-kept kept more overlay init (codes "overlay.d") 0o040750 overlay_there o_name
              o_mode o_content;
        adds_sbin =
            Adds-kept kept more sbin init (codes "overlay.d/sbin") 0o040750 sbin_there s_name s_mode
              s_content;
        adds_init = Adds-append front more (codes "init") 0o100750 magiskinit (
            Adds-behind kept (fresh init ∷ []) (codes "init") 0o100750 magiskinit
              (fresh init, inl refl, refl, (i_name, i_mode, i_content)));
        adds_32 =
            Adds-behind front more (codes "overlay.d/sbin/magisk32.xz") 0o100644 (xz magisk32)
              added32;
        adds_64 =
            Adds-behind front more (codes "overlay.d/sbin/magisk64.xz") 0o100644 (xz magisk64)
              added64;
        adds_stub = elim stub [
          | inl missing ↦ inl missing
          | inr (content, found, added) ↦ inr (
            content,
            found,
            Adds-behind front more (codes "overlay.d/sbin/stub.xz") 0o100644 (xz content) added,
          )
        ];
      }
