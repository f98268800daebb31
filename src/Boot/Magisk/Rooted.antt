-- ===== src/Boot/Magisk/Rooted.antt =====
-- The entries that the patch makes: before the backup, and all of them.
use avbroot.Prelude.{
  ℕ, ◌<◌, ◌≡◌, ◌⊎◌, inl, inr, refl, ap, ◌∙◌, Bool, true, false, Option, none, some, List, [], ◌∷◌,
  ◌++◌, All,
}
use avbroot.Prelude.Text.{codes, bytes_eq}
use avbroot.Prelude.Dict.{elem, AreDistinct}
use avbroot.Result.{ok}
use avbroot.Stream.{Bytes}
use avbroot.Cpio.Entry.{CpioEntry, new_file}
use avbroot.Boot.Backup.{Object, fresh, objects, names_of, by_name, apply_magisk_backup}
use avbroot.Boot.Backup.Names.{IsIn}
use avbroot.Boot.Backup.Places.{IsIn-append}
use avbroot.Boot.Backup.Laws.{IsKept, IsBackedUp, apply_magisk_backup-keeps}
use avbroot.Boot.Backup.Kept.{All-append, apply_magisk_backup-All}
use avbroot.Boot.Magisk.{MagiskRootPatch, entries_of, patch_entries}
use avbroot.Boot.Magisk.Config.{expected_config, magisk_config_lem}
use avbroot.Boot.Magisk.Entries.{
  HasFile, IsInit, IsInitObject, Adds, IsIn-entries, All-entries, IsIn-behind, config_file,
  open_file_lem, Adds-HasFile,
}
use avbroot.Boot.Magisk.Init.{IsInitKept, init_kept}
use avbroot.Boot.Magisk.Built.{built}

-- What is asked of the patched entries: the directories, the new `init` and no other one, the compressed
-- files, the configuration, and the old `init`.
pub record IsRooted (apk : Bytes → Option Bytes) (xz : Bytes → Bytes)
    (magiskinit magisk32 magisk64 config : Bytes) (loaded es : List CpioEntry) : Type 0 where
  pub overlay : HasFile es (codes "overlay.d") 0o040750 []
  pub sbin : HasFile es (codes "overlay.d/sbin") 0o040750 []
  pub init : HasFile es (codes "init") 0o100750 magiskinit
  pub only_init : All (IsInit magiskinit) es
  pub has_magisk32 : HasFile es (codes "overlay.d/sbin/magisk32.xz") 0o100644 (xz magisk32)
  pub has_magisk64 : HasFile es (codes "overlay.d/sbin/magisk64.xz") 0o100644 (xz magisk64)
  pub has_stub :
      (apk (codes "assets/stub.apk") ≡ none)
      ⊎ ((stub : Bytes) × (apk (codes "assets/stub.apk") ≡ some stub)
          × HasFile es (codes "overlay.d/sbin/stub.xz") 0o100644 (xz stub))
  pub has_config : HasFile es (codes ".backup/.magisk") 0o100000 config
  pub init_backup : IsInitKept loaded magiskinit es

abbrev IsKeeping : List CpioEntry → List Object → List Object → Type 0
IsKeeping loaded new out =
    (n : Bytes)
    → elem n (names_of (objects 0 loaded)) ≡ true
    → (o : Object) × (by_name n (objects 0 loaded) ≡ some o) × (IsKept o n new ⊎ IsBackedUp o n out)

IsKeeping-append :
    (loaded : List CpioEntry) (new out more : List Object)
    → IsKeeping loaded new out
    → IsKeeping loaded new (out ++ more)
IsKeeping-append loaded new out more keeps n h =
    let (o, found, kept) = keeps n h in
    (
      o,
      found,
      elim kept [
        | inl same ↦ inl same
        | inr (x, there, name, holds) ↦ inr (x, IsIn-append x out more there, name, holds)
      ],
    )

-- The backup, with the configuration behind it.
record BackedUp (in_some_order : List Bytes → List Bytes) (loaded : List CpioEntry)
    (new : List Object) (magiskinit config : Bytes) : Type 0 where
  pub out : List Object
  pub applied : apply_magisk_backup in_some_order (objects 0 loaded) new ≡ ok out
  pub entry : CpioEntry
  pub entry_made : new_file (codes ".backup/.magisk") 0 config ≡ ok entry
  pub stay : (x : Object) → IsIn x new → x.place ≡ none → IsIn x (out ++ (fresh entry ∷ []))
  pub has_config :
      HasFile (entries_of (out ++ (fresh entry ∷ []))) (codes ".backup/.magisk") 0o100000 config
  pub only_init : All (IsInit magiskinit) (entries_of (out ++ (fresh entry ∷ [])))
  pub init_backup : IsInitKept loaded magiskinit (entries_of (out ++ (fresh entry ∷ [])))

backed_up :
    (in_some_order : List Bytes → List Bytes) (loaded : List CpioEntry) (new : List Object)
    (magiskinit config : Bytes)
    → ((ns : List Bytes) → AreDistinct ns → AreDistinct (in_some_order ns))
    → ((ns : List Bytes) (n : Bytes) → elem n (in_some_order ns) ≡ elem n ns)
    → All (IsInitObject magiskinit) new
    → BackedUp in_some_order loaded new magiskinit config
unfolding bytes_eq
backed_up in_some_order loaded new magiskinit config distinct same all =
    let (entry, made, c_name, c_mode, c_content) = config_file config in
    let (out, done, keeps) = apply_magisk_backup-keeps in_some_order loaded new distinct same in
    let other : (e : CpioEntry) (n : Bytes)
        → e.name ≡ n
        → bytes_eq n (codes "init") ≡ false
        → IsInit magiskinit e =
      λ e n h g. inl (ap (λ t. bytes_eq t (codes "init")) h ∙ g) in
    let (out_all, stay) =
      apply_magisk_backup-All (IsInitObject magiskinit) (λ o n. inl refl) in_some_order loaded new
        out distinct same done (λ e h. other e (codes ".backup") h refl)
        (λ e h. other e (codes ".backup/.rmlist") h refl) all in
    let last = fresh entry ∷ [] in
    record {
      out = out;
      applied = done;
      entry = entry;
      entry_made = made;
      stay = λ x there free. IsIn-append x out last (stay x there free);
      has_config = (
        entry,
        IsIn-entries (fresh entry) (out ++ last) (IsIn-behind (fresh entry) out last (inl refl)),
        c_name,
        c_mode,
        c_content,
      );
      only_init = All-entries (IsInit magiskinit) (out ++ last) (
          All-append (IsInitObject magiskinit) out last out_all
            (other entry (codes ".backup/.magisk") c_name refl, tt));
      init_backup =
          init_kept loaded magiskinit new (out ++ last) all
            (IsKeeping-append loaded new out last keeps);
    }

-- For an APK with the three required files, a preinit device in ASCII, and the entries of a
-- ramdisk, or none without a ramdisk, the entries are patched, whatever the order in which the
-- sets are iterated (each name once), and have the two directories of the overlay, `init` with the
-- content of libmagiskinit.so and no `init` with another content, magisk32.xz, magisk64.xz and, if
-- the APK has stub.apk, stub.xz, with the compressed files of the APK, the configuration, line by
-- line, and the old `init`, if there was one with another content, as `.backup/init`; each with
-- its mode.
pub patch_entries_lem :
    (apk : Bytes → Option Bytes) (xz sha1_hex : Bytes → Bytes)
    (in_some_order : List Bytes → List Bytes) (self : MagiskRootPatch) (image_bytes : Bytes)
    (has_ramdisk : Bool) (loaded : List CpioEntry) (magiskinit magisk32 magisk64 device : Bytes)
    → ((ns : List Bytes) → AreDistinct ns → AreDistinct (in_some_order ns))
    → ((ns : List Bytes) (n : Bytes) → elem n (in_some_order ns) ≡ elem n ns)
    → (has_ramdisk ≡ true) ⊎ (loaded ≡ [])
    → apk (codes "lib/arm64-v8a/libmagiskinit.so") ≡ some magiskinit
    → apk (codes "lib/armeabi-v7a/libmagisk32.so") ≡ some magisk32
    → apk (codes "lib/arm64-v8a/libmagisk64.so") ≡ some magisk64
    → self.preinit_device ≡ some device
    → All (λ c. c < 128) device
    → (es : List CpioEntry) × (patch_entries apk xz sha1_hex in_some_order self image_bytes
          has_ramdisk loaded
        ≡ ok es)
      × IsRooted apk xz magiskinit magisk32 magisk64
          (expected_config self.version device (sha1_hex image_bytes) self.random_seed)
          loaded
          es
unfolding patch_entries
patch_entries_lem apk xz sha1_hex in_some_order self image_bytes has_ramdisk loaded magiskinit
      magisk32 magisk64 device distinct same ramdisk found_init found32 found64 given ascii =
    let config = expected_config self.version device (sha1_hex image_bytes) self.random_seed in
    let a =
      built apk xz sha1_hex has_ramdisk loaded magiskinit magisk32 magisk64 ramdisk found32
        found64 in
    let b = backed_up in_some_order loaded a.new magiskinit config distinct same a.new_init in
    let es = b.out ++ (fresh b.entry ∷ []) in
    let has : (name : Bytes) (mode : ℕ) (content : Bytes)
        → Adds a.new name mode content
        → HasFile (entries_of es) name mode content =
      λ name mode content h. Adds-HasFile a.new es name mode content b.stay h in
    (
      entries_of es,
      rw
          (
            a.overlay_made,
            a.sbin_made,
            open_file_lem apk xz sha1_hex _ magiskinit found_init,
            a.init_made,
            a.compressed,
            b.applied,
            magisk_config_lem self device (sha1_hex image_bytes) given ascii,
            b.entry_made,
          )
          refl,
      record {
        overlay = has _ _ _ a.adds_overlay;
        sbin = has _ _ _ a.adds_sbin;
        init = has _ _ _ a.adds_init;
        only_init = b.only_init;
        has_magisk32 = has _ _ _ a.adds_32;
        has_magisk64 = has _ _ _ a.adds_64;
        has_stub = elim a.adds_stub [
          | inl missing ↦ inl missing
          | inr (stub, found, added) ↦ inr (stub, found, has _ _ _ added)
        ];
        has_config = b.has_config;
        init_backup = b.init_backup;
      },
    )
