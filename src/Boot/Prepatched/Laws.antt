-- ===== src/Boot/Prepatched/Laws.antt =====
-- When a prepatched image is accepted.
use avbroot.Prelude.{
  ℕ, ◌-◌, ◌≤◌, ◌≡◌, refl, ap, min, max, Bool, true, false, not, Option, none, some, List, [],
  length, if◌then◌else◌,
}
use mathlib.Core.Path.{subst}
use avbroot.Result.{Result, ok, err, value_error, ◌>>=◌}
use avbroot.Stream.{Bytes}
use avbroot.Compression.Lz4.{Lz4Block}
use avbroot.Compression.Auto.{Gzip}
use avbroot.BootImage.Detect.{BootImage, boot_v0, boot_v3, vendor}
use avbroot.BootImage.Dict.{to_dict}
use avbroot.Boot.Image.{sections_of, ramdisks_of, with_ramdisks}
use avbroot.Boot.Kmi.{get_kmi_version}
use avbroot.Boot.Prepatched.Levels.{
  warned, warnings_lem, has_fatal, AreLevels, errors_lem, AreLevels-append, header-AreLevels,
  sections-AreLevels, ramdisks-AreLevels, kmi-AreLevels,
}
use avbroot.Boot.Prepatched.{
  Issues, ramdisk_issues, kmi_eq, kmi_of, kmi_issues, issues, judge, patch,
}
use avbroot.Boot.Prepatched.Found.{found, IsSameKmi, issues-found}
use avbroot.Boot.Prepatched.Same.{
  same_header, same_dict, other_sections, not_lt, kmi_eq_self, no_levels_list,
}

ok_injective {ℓ} : {A : Type ℓ} {a b : A} → ok a ≡ ok b → a ≡ b
ok_injective h = cc

bound :
    {A B : Type 0} (m : Result A) (k : A → Result B) (b : B)
    → (m >>= k) ≡ ok b
    → (a : A) × (m ≡ ok a) × (k a ≡ ok b)
bound (ok a) k b h = (a, refl, h)
bound (err e) k b h = cc

swap :
    (new : BootImage) (b : Bool)
    → (if not b then ok new else err value_error) ≡ (if b then err value_error else ok new)
swap new true = refl
swap new false = refl

module _ (zip : Gzip) (lz4 : Lz4Block) where
  kmi_issues-AreLevels :
      (a b : Option Bytes) (is : Issues) → kmi_issues zip lz4 a b ≡ ok is → AreLevels is
  unfolding kmi_issues
  kmi_issues-AreLevels none b is h = subst AreLevels (ok_injective h) tt
  kmi_issues-AreLevels (some k) b is h =
      let (v, found_v, h') = bound (kmi_of zip lz4 (some k)) _ is h in
      let (w, found_w, made) = bound (kmi_of zip lz4 b) _ is h' in
      subst AreLevels (ok_injective made) (kmi-AreLevels (kmi_eq v w))

  issues-AreLevels :
      (in_some_order : List Bytes → List Bytes) (old new : BootImage) (is : Issues)
      → issues zip lz4 in_some_order old new ≡ ok is
      → AreLevels is
  unfolding issues
  issues-AreLevels in_some_order old new is h =
      let s = sections_of old in
      let t = sections_of new in
      let (kmi, found, made) = bound (kmi_issues zip lz4 s.kernel t.kernel) _ is h in
      subst AreLevels (ok_injective made) (
        AreLevels-append _ _ (header-AreLevels in_some_order (to_dict old) (to_dict new)) (
          AreLevels-append _ _ (sections-AreLevels s t) (
            AreLevels-append _ _ (ramdisks-AreLevels (ramdisks_of old) (ramdisks_of new))
              (kmi_issues-AreLevels s.kernel t.kernel kmi found))))

  -- If the old image has no kernel, or both kernels can be searched for their versions,
  -- `PrepatchedImage.patch` finds the fields of one header only (level 2), the fields that differ
  -- (level 0 for the identifier and the operating system's version, 1 for the command lines, 2 for
  -- the others), the sections that are missing (level 2) or new (level 1), and missing ramdisks and
  -- another kernel version (level 2). It warns of those below the fatal level, level by level, and
  -- returns the prepatched image, unless one of them has the fatal level or a higher one, when it
  -- raises ValueError.
  pub prepatched_lem :
      (in_some_order : List Bytes → List Bytes) (fatal_level : ℕ) (new old : BootImage)
      (same_kmi : Bool)
      → IsSameKmi zip lz4
          (let s = sections_of old in s.kernel)
          (let t = sections_of new in t.kernel)
          same_kmi
      → patch zip lz4 in_some_order fatal_level new old
        ≡ ok (
          warned fatal_level (found in_some_order old new same_kmi),
          if has_fatal fatal_level (found in_some_order old new same_kmi)
              then err value_error
              else ok new,
        )
  unfolding patch judge
  prepatched_lem in_some_order fatal_level new old same_kmi h =
      let is = found in_some_order old new same_kmi in
      let e = issues-found zip lz4 in_some_order old new same_kmi h in
      rw
        (
          e,
          errors_lem fatal_level is (issues-AreLevels in_some_order old new is e),
          warnings_lem fatal_level is,
        )
        (ap (λ r. ok (warned fatal_level is, r)) (swap new (has_fatal fatal_level is)))

  -- A kernel whose version can be looked for.
  abbrev pub HasKmi : Option Bytes → Type 0
  HasKmi none = Unit
  HasKmi (some kernel) = (v : Option Bytes) × (get_kmi_version zip lz4 kernel ≡ ok v)

  same_kernel : (kernel : Option Bytes) → HasKmi kernel → kmi_issues zip lz4 kernel kernel ≡ ok []
  unfolding kmi_issues
  same_kernel none h = refl
  same_kernel (some kernel) (v, h) = rw (h, kmi_eq_self v) refl

  pub issues_same :
      (in_some_order : List Bytes → List Bytes) (image : BootImage) (rs : List Bytes)
      → in_some_order [] ≡ []
      → length (ramdisks_of image) ≤ length rs
      → HasKmi (let s = sections_of image in s.kernel)
      → issues zip lz4 in_some_order image (with_ramdisks rs image) ≡ ok []
  unfolding issues ramdisk_issues
  issues_same in_some_order (boot_v0 i) rs e more kmi =
      rw
        (
          same_kernel i.kernel kmi,
          same_dict rs (boot_v0 i),
          same_header in_some_order (to_dict (boot_v0 i)) e,
          other_sections i.sections rs,
          not_lt (length rs) (length i.ramdisks) more,
        )
        refl
  issues_same in_some_order (boot_v3 i) rs e more kmi =
      rw
        (
          same_kernel i.kernel kmi,
          same_dict rs (boot_v3 i),
          same_header in_some_order (to_dict (boot_v3 i)) e,
          other_sections i.sections rs,
          not_lt (length rs) (length i.ramdisks) more,
        )
        refl
  issues_same in_some_order (vendor i) rs e more kmi =
      rw
        (
          same_kernel i.kernel kmi,
          same_dict rs (vendor i),
          same_header in_some_order (to_dict (vendor i)) e,
          other_sections i.sections rs,
          not_lt (length rs) (length i.ramdisks) more,
        )
        refl

  -- A prepatched image that differs from the original in its ramdisks only, and has no fewer of
  -- them, is returned without a warning at any fatal level, if the original has no kernel or one
  -- whose version can be searched for.
  pub prepatched_same :
      (in_some_order : List Bytes → List Bytes) (fatal_level : ℕ) (image : BootImage)
      (rs : List Bytes)
      → in_some_order [] ≡ []
      → length (ramdisks_of image) ≤ length rs
      → HasKmi (let s = sections_of image in s.kernel)
      → patch zip lz4 in_some_order fatal_level (with_ramdisks rs image) image
        ≡ ok ([], ok (with_ramdisks rs image))
  unfolding patch judge
  prepatched_same in_some_order fatal_level image rs e more kmi =
      rw
        (
          issues_same in_some_order image rs e more kmi,
          no_levels_list 0 (min 3 fatal_level - 0),
          no_levels_list (max 0 fatal_level) (3 - max 0 fatal_level),
        )
        refl
