-- ===== src/Boot/Prepatched/Same.antt =====
-- An image that is compared with itself.
use avbroot.Prelude.{
  or_true, ℕ, zero, suc, ◌+◌, ◌≤◌, ◌≡◌, refl, true, false, not, Option, none, some, List, [], ◌∷◌,
  ltb, arith,
}
use avbroot.Prelude.Text.{codes, bytes_eq, bytes_eq_self}
use avbroot.Prelude.Dict.{elem, lookup}
use avbroot.Stream.{Bytes}
use avbroot.BootImage.Section.{Sections}
use avbroot.BootImage.Detect.{BootImage, boot_v0, boot_v3, vendor}
use avbroot.BootImage.Dict.{
  Dict, Value, num, text, Field, value, dicts, to_dict, to_dict_v0, to_dict_v3, to_dict_vendor,
}
use avbroot.Boot.Image.{sections_of, with_ramdisks}
use avbroot.Boot.Prepatched.{
  keys_of, select, value_eq, entries_eq, dicts_eq, field_eq, added_fields, removed_fields,
  changed_fields, header_issues, section_issue, section_issues, kmi_eq, at_level, at_levels,
}

-- The same fields.
value_eq_self : (v : Value) → value_eq v v ≡ true
unfolding value_eq
value_eq_self (num n) = ground arith
value_eq_self (text s) = bytes_eq_self s

entries_eq_self : (d : List (Bytes × Value)) → entries_eq d d ≡ true
unfolding entries_eq
entries_eq_self [] = refl
entries_eq_self ((k, v) ∷ d) = rw (bytes_eq_self k, value_eq_self v, entries_eq_self d) refl

dicts_eq_self : (ds : List (List (Bytes × Value))) → dicts_eq ds ds ≡ true
unfolding dicts_eq
dicts_eq_self [] = refl
dicts_eq_self (d ∷ ds) = rw (entries_eq_self d, dicts_eq_self ds) refl

field_eq_self : (f : Option Field) → field_eq f f ≡ true
unfolding field_eq
field_eq_self none = refl
field_eq_self (some (value v)) = value_eq_self v
field_eq_self (some (dicts ds)) = dicts_eq_self ds

nothing_changed : (d : Dict) (ks : List Bytes) → changed_fields d d ks ≡ []
unfolding changed_fields
nothing_changed d [] = refl
nothing_changed d (k ∷ ks) = rw (field_eq_self (lookup k d), nothing_changed d ks) refl

same_section : (attr : Bytes) (a : Option Bytes) → section_issue attr a a ≡ []
same_section attr none = refl
same_section attr (some a) = refl

pub kmi_eq_self : (k : Option Bytes) → kmi_eq k k ≡ true
unfolding kmi_eq
kmi_eq_self none = refl
kmi_eq_self (some s) = bytes_eq_self s

pub no_levels_list : (start count : ℕ) → at_levels start count [] ≡ []
unfolding at_levels at_level
no_levels_list start zero = refl
no_levels_list start (suc count) = no_levels_list (start + 1) count

pub same_dict :
    (rs : List Bytes) (image : BootImage) → to_dict (with_ramdisks rs image) ≡ to_dict image
unfolding to_dict to_dict_v0 to_dict_v3 to_dict_vendor
same_dict rs (boot_v0 i) = refl
same_dict rs (boot_v3 i) = refl
same_dict rs (vendor i) = refl

same_sections :
    (rs : List Bytes) (image : BootImage)
    → sections_of (with_ramdisks rs image) ≡ record (sections_of image) { ramdisks = rs }
same_sections rs (boot_v0 i) = refl
same_sections rs (boot_v3 i) = refl
same_sections rs (vendor i) = refl

self_select :
    (xs ks : List Bytes)
    → ((k : Bytes) → elem k ks ≡ true → elem k xs ≡ true)
    → select (λ k. not (elem k xs)) ks ≡ []
unfolding select
self_select xs [] h = refl
self_select xs (k ∷ ks) h =
    rw
      (
        h k (rw (bytes_eq_self k) refl),
        self_select xs ks (λ m g. h m (rw g (or_true (bytes_eq k m)))),
      )
      refl

none_missing : (ks : List Bytes) → select (λ k. not (elem k ks)) ks ≡ []
none_missing ks = self_select ks ks (λ k h. h)

pub same_header :
    (in_some_order : List Bytes → List Bytes) (d : Dict)
    → in_some_order [] ≡ []
    → header_issues in_some_order d d ≡ []
unfolding header_issues added_fields removed_fields
same_header in_some_order d e =
    rw
      (
        none_missing (keys_of d),
        e,
        nothing_changed d (in_some_order (select (λ k. elem k (keys_of d)) (keys_of d))),
      )
      refl

pub not_lt : (m n : ℕ) → n ≤ m → ltb m n ≡ false
not_lt m n h = ground arith

pub other_sections :
    (s : Sections) (rs : List Bytes) → section_issues s (record s { ramdisks = rs }) ≡ []
unfolding section_issues
other_sections s rs =
    rw
      (
        same_section (codes "kernel") s.kernel,
        same_section (codes "second") s.second,
        same_section (codes "recovery_dtbo") s.recovery_dtbo,
        same_section (codes "dtb") s.dtb,
        same_section (codes "bootconfig") s.bootconfig,
      )
      refl
