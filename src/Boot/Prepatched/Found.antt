-- ===== src/Boot/Prepatched/Found.antt =====
-- The issues that two images have, written out.
use avbroot.Prelude.{
  ℕ, ◌≡◌, refl, ap, Bool, true, false, not, Option, none, some, List, [], ◌∷◌, ◌++◌, map, length,
  leb, ltb, arith, inl, inr, Bool-cases, if◌then◌else◌,
}
use avbroot.Prelude.Text.{codes}
use avbroot.Prelude.Dict.{elem, lookup}
use avbroot.Result.{ok}
use avbroot.Stream.{Bytes}
use avbroot.Compression.Lz4.{Lz4Block}
use avbroot.Compression.Auto.{Gzip}
use avbroot.BootImage.Section.{Sections}
use avbroot.BootImage.Detect.{BootImage}
use avbroot.BootImage.Dict.{Dict, to_dict}
use avbroot.Boot.Image.{sections_of, ramdisks_of}
use avbroot.Boot.Kmi.{get_kmi_version}
use avbroot.Boot.Prepatched.{
  field_added, field_removed, field_changed, section_added, section_removed, fewer_ramdisks,
  kmi_changed, Issues, keys_of, select, field_eq, added_fields, removed_fields, changed_fields,
  header_issues, section_issue, section_issues, ramdisk_issues, kmi_eq, kmi_issues, issues,
}

-- A change of the identifier or of the operating system's version is of level 0, one of a command line
-- of level 1, and any other of level 2.
abbrev pub level_of_change : Bytes → ℕ
level_of_change k =
    if elem k (codes "id" ∷ codes "os_version" ∷ [])
    then 0
    else if elem k (codes "cmdline" ∷ codes "extra_cmdline" ∷ [])
    then 1
    else 2

abbrev pub changes : Dict → Dict → List Bytes → Issues
changes old new [] = []
changes old new (k ∷ ks) =
    (if field_eq (lookup k old) (lookup k new)
      then []
      else (level_of_change k, field_changed k) ∷ [])
    ++ changes old new ks

-- The fields of one header only, and those of both that differ.
abbrev pub in_headers : (List Bytes → List Bytes) → Dict → Dict → Issues
in_headers in_some_order old new =
    map (λ k. (2, field_added k))
      (in_some_order (select (λ k. not (elem k (keys_of old))) (keys_of new)))
    ++ (map (λ k. (2, field_removed k))
          (in_some_order (select (λ k. not (elem k (keys_of new))) (keys_of old)))
        ++ changes old new (in_some_order (select (λ k. elem k (keys_of new)) (keys_of old))))

-- A section that only the new image has is of level 1, and one that only the old image has of level 2.
abbrev pub of_section : Bytes → Option Bytes → Option Bytes → Issues
of_section attr (some a) none = (2, section_removed attr) ∷ []
of_section attr none (some b) = (1, section_added attr) ∷ []
of_section attr none none = []
of_section attr (some a) (some b) = []

abbrev pub in_sections : Sections → Sections → Issues
in_sections s t =
    of_section (codes "kernel") s.kernel t.kernel
    ++ (of_section (codes "second") s.second t.second
        ++ (of_section (codes "recovery_dtbo") s.recovery_dtbo t.recovery_dtbo
            ++ (of_section (codes "dtb") s.dtb t.dtb
                ++ of_section (codes "bootconfig") s.bootconfig t.bootconfig)))

-- All the issues, with those of ramdisks that are missing and of a kernel of another version last.
abbrev pub found : (List Bytes → List Bytes) → BootImage → BootImage → Bool → Issues
found in_some_order old new same_kmi =
    in_headers in_some_order (to_dict old) (to_dict new)
    ++ (in_sections (sections_of old) (sections_of new)
        ++ ((if leb (length (ramdisks_of old)) (length (ramdisks_of new))
              then []
              else (2, fewer_ramdisks) ∷ [])
            ++ (if same_kmi then [] else (2, kmi_changed) ∷ [])))

added-map : (ks : List Bytes) → added_fields ks ≡ map (λ k. (2, field_added k)) ks
unfolding added_fields
added-map [] = refl
added-map (k ∷ ks) = ap (λ is. (2, field_added k) ∷ is) (added-map ks)

removed-map : (ks : List Bytes) → removed_fields ks ≡ map (λ k. (2, field_removed k)) ks
unfolding removed_fields
removed-map [] = refl
removed-map (k ∷ ks) = ap (λ is. (2, field_removed k) ∷ is) (removed-map ks)

changed-changes :
    (old new : Dict) (ks : List Bytes) → changed_fields old new ks ≡ changes old new ks
unfolding changed_fields
changed-changes old new [] = refl
changed-changes old new (k ∷ ks) = elim (Bool-cases (field_eq (lookup k old) (lookup k new))) [
  | inl e ↦ rw (e, changed-changes old new ks) refl
  | inr e ↦ rw (e, changed-changes old new ks) refl
]

header-in_headers :
    (in_some_order : List Bytes → List Bytes) (old new : Dict)
    → header_issues in_some_order old new ≡ in_headers in_some_order old new
unfolding header_issues
header-in_headers in_some_order old new =
    rw
      (
        added-map (in_some_order (select (λ k. not (elem k (keys_of old))) (keys_of new))),
        removed-map (in_some_order (select (λ k. not (elem k (keys_of new))) (keys_of old))),
        changed-changes old new (in_some_order (select (λ k. elem k (keys_of new)) (keys_of old))),
      )
      refl

one_section : (attr : Bytes) (a b : Option Bytes) → section_issue attr a b ≡ of_section attr a b
one_section attr none none = refl
one_section attr none (some b) = refl
one_section attr (some a) none = refl
one_section attr (some a) (some b) = refl

section-in_sections : (s t : Sections) → section_issues s t ≡ in_sections s t
unfolding section_issues
section-in_sections s t =
    rw
      (
        one_section (codes "kernel") s.kernel t.kernel,
        one_section (codes "second") s.second t.second,
        one_section (codes "recovery_dtbo") s.recovery_dtbo t.recovery_dtbo,
        one_section (codes "dtb") s.dtb t.dtb,
        one_section (codes "bootconfig") s.bootconfig t.bootconfig,
      )
      refl

ramdisks_lem :
    (rs ts : List Bytes)
    → ramdisk_issues rs ts ≡ (if leb (length rs) (length ts) then [] else (2, fewer_ramdisks) ∷ [])
unfolding ramdisk_issues
ramdisks_lem rs ts = elim (Bool-cases (leb (length rs) (length ts))) [
  | inl e ↦ let g : ltb (length ts) (length rs) ≡ false = ground arith in rw (e, g) refl
  | inr e ↦ let g : ltb (length ts) (length rs) ≡ true = ground arith in rw (e, g) refl
]

module _ (zip : Gzip) (lz4 : Lz4Block) where
  -- The old image has no kernel, or both kernels can be searched for their versions; and whether these
  -- are the same.
  abbrev pub IsSameKmi : Option Bytes → Option Bytes → Bool → Type 0
  IsSameKmi none b same = same ≡ true
  IsSameKmi (some k) none same = ⊥
  IsSameKmi (some k) (some l) same =
      (v : Option Bytes) × (w : Option Bytes) × (get_kmi_version zip lz4 k ≡ ok v)
      × (get_kmi_version zip lz4 l ≡ ok w)
      × (kmi_eq v w ≡ same)

  kmi_issues_lem :
      (a b : Option Bytes) (same : Bool)
      → IsSameKmi a b same
      → kmi_issues zip lz4 a b ≡ ok (if same then [] else (2, kmi_changed) ∷ [])
  unfolding kmi_issues
  kmi_issues_lem none b same h = rw h refl
  kmi_issues_lem (some k) none same h = absurd h
  kmi_issues_lem (some k) (some l) same (v, w, found_v, found_w, e) = rw (found_v, found_w, e) refl

  pub issues-found :
      (in_some_order : List Bytes → List Bytes) (old new : BootImage) (same : Bool)
      → IsSameKmi (let s = sections_of old in s.kernel) (let t = sections_of new in t.kernel) same
      → issues zip lz4 in_some_order old new ≡ ok (found in_some_order old new same)
  unfolding issues
  issues-found in_some_order old new same h =
      let s = sections_of old in
      let t = sections_of new in
      rw
        (
          kmi_issues_lem s.kernel t.kernel same h,
          header-in_headers in_some_order (to_dict old) (to_dict new),
          section-in_sections s t,
          ramdisks_lem (ramdisks_of old) (ramdisks_of new),
        )
        refl
