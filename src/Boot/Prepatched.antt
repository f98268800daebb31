-- ===== src/Boot/Prepatched.antt =====
-- avbroot/boot.py, `PrepatchedImage.patch`: what speaks against the prepatched image. Python's sets of
-- keys have no order: `in_some_order` is the one that the loops meet.
pub mod Levels
pub mod Found
pub mod Same
pub mod Laws
use avbroot.Prelude.{
  ℕ, zero, suc, ◌+◌, ◌-◌, min, max, Bool, true, false, ◌&&◌, ◌||◌, not, Option, none, some, List,
  [], ◌∷◌, ◌++◌, length, ltb, ◌==◌, if◌then◌else◌,
}
use avbroot.Prelude.Text.{codes, bytes_eq}
use avbroot.Prelude.Dict.{elem, lookup}
use avbroot.Result.{Result, ok, err, value_error, type_error, ◌>>=◌}
use avbroot.Stream.{Bytes}
use avbroot.Compression.Lz4.{Lz4Block}
use avbroot.Compression.Auto.{Gzip}
use avbroot.BootImage.Section.{Sections}
use avbroot.BootImage.Detect.{BootImage}
use avbroot.BootImage.Dict.{Dict, Value, num, text, Field, value, dicts, to_dict}
use avbroot.Boot.Image.{sections_of, ramdisks_of}
use avbroot.Boot.Kmi.{get_kmi_version}

pub data Issue : Type 0 where
  field_added field_removed field_changed section_added section_removed : Bytes → Issue
  fewer_ramdisks kmi_changed : Issue

-- The issue, with the number of the list that it is appended to.
abbrev pub Issues : Type 0
Issues = List (ℕ × Issue)

abbrev pub keys_of {ℓ} : {A : Type ℓ} → List (Bytes × A) → List Bytes
keys_of [] = []
keys_of ((k, a) ∷ d) = k ∷ keys_of d

unfoldable pub select : (Bytes → Bool) → List Bytes → List Bytes
select keep [] = []
select keep (k ∷ ks) = let rest = select keep ks in if keep k then k ∷ rest else rest

unfoldable pub value_eq : Value → Value → Bool
value_eq (num a) (num b) = a == b
value_eq (text a) (text b) = bytes_eq a b
value_eq (num a) (text b) = false
value_eq (text a) (num b) = false

unfoldable pub entries_eq : List (Bytes × Value) → List (Bytes × Value) → Bool
entries_eq [] [] = true
entries_eq [] (y ∷ ys) = false
entries_eq (x ∷ xs) [] = false
entries_eq ((k, v) ∷ xs) ((l, w) ∷ ys) = bytes_eq k l && (value_eq v w && entries_eq xs ys)

unfoldable pub dicts_eq : List (List (Bytes × Value)) → List (List (Bytes × Value)) → Bool
dicts_eq [] [] = true
dicts_eq [] (y ∷ ys) = false
dicts_eq (x ∷ xs) [] = false
dicts_eq (x ∷ xs) (y ∷ ys) = entries_eq x y && dicts_eq xs ys

-- `old_header[k] == new_header[k]`; the dictionaries of `to_dict` list their keys in one order.
unfoldable pub field_eq : Option Field → Option Field → Bool
field_eq (some (value v)) (some (value w)) = value_eq v w
field_eq (some (dicts d)) (some (dicts e)) = dicts_eq d e
field_eq (some (value v)) (some (dicts e)) = false
field_eq (some (dicts d)) (some (value w)) = false
field_eq none none = true
field_eq none (some f) = false
field_eq (some f) none = false

abbrev pub change_level : Bytes → ℕ
change_level k =
    if elem k (codes "id" ∷ codes "os_version" ∷ [])
    then 0
    else if elem k (codes "cmdline" ∷ codes "extra_cmdline" ∷ [])
    then 1
    else 2

unfoldable pub added_fields : List Bytes → Issues
added_fields [] = []
added_fields (k ∷ ks) = (2, field_added k) ∷ added_fields ks

unfoldable pub removed_fields : List Bytes → Issues
removed_fields [] = []
removed_fields (k ∷ ks) = (2, field_removed k) ∷ removed_fields ks

unfoldable pub changed_fields : Dict → Dict → List Bytes → Issues
changed_fields old new [] = []
changed_fields old new (k ∷ ks) =
    let rest = changed_fields old new ks in
    if field_eq (lookup k old) (lookup k new)
    then rest
    else (change_level k, field_changed k) ∷ rest

-- The three loops over the keys.
unfoldable pub header_issues : (List Bytes → List Bytes) → Dict → Dict → Issues
header_issues in_some_order old new =
    added_fields (in_some_order (select (λ k. not (elem k (keys_of old))) (keys_of new)))
    ++ (removed_fields (in_some_order (select (λ k. not (elem k (keys_of new))) (keys_of old)))
        ++ changed_fields old new
            (in_some_order (select (λ k. elem k (keys_of new)) (keys_of old))))

abbrev pub section_issue : Bytes → Option Bytes → Option Bytes → Issues
section_issue attr none none = []
section_issue attr none (some b) = (1, section_added attr) ∷ []
section_issue attr (some a) none = (2, section_removed attr) ∷ []
section_issue attr (some a) (some b) = []

unfoldable pub section_issues : Sections → Sections → Issues
section_issues old new =
    section_issue (codes "kernel") old.kernel new.kernel
    ++ (section_issue (codes "second") old.second new.second
        ++ (section_issue (codes "recovery_dtbo") old.recovery_dtbo new.recovery_dtbo
            ++ (section_issue (codes "dtb") old.dtb new.dtb
                ++ section_issue (codes "bootconfig") old.bootconfig new.bootconfig)))

unfoldable pub ramdisk_issues : List Bytes → List Bytes → Issues
ramdisk_issues old new = if ltb (length new) (length old) then (2, fewer_ramdisks) ∷ [] else []

unfoldable pub kmi_eq : Option Bytes → Option Bytes → Bool
kmi_eq none none = true
kmi_eq none (some b) = false
kmi_eq (some a) none = false
kmi_eq (some a) (some b) = bytes_eq a b

-- The issues of one level, in their order.
unfoldable pub at_level : ℕ → Issues → List Issue
at_level n [] = []
at_level n ((level, i) ∷ is) = let rest = at_level n is in if level == n then i ∷ rest else rest

-- `[e for i in range(start, start + count) for e in issues[i]]`
unfoldable pub at_levels : ℕ → ℕ → Issues → List Issue
at_levels start zero is = []
at_levels start (suc count) is = at_level start is ++ at_levels (start + 1) count is

abbrev pub min_level : ℕ
min_level = 0

abbrev pub max_level : ℕ
max_level = 2

-- `range(start, end)` has as many elements.
abbrev pub range_levels : ℕ → ℕ → Issues → List Issue
range_levels start end is = at_levels start (end - start) is

abbrev pub warnings_of : ℕ → Issues → List Issue
warnings_of fatal_level is = range_levels min_level (min (max_level + 1) fatal_level) is

abbrev pub errors_of : ℕ → Issues → List Issue
errors_of fatal_level is = range_levels (max min_level fatal_level) (max_level + 1) is

abbrev pub no_issue : List Issue → Bool
no_issue [] = true
no_issue (i ∷ is) = false

module _ (zip : Gzip) (lz4 : Lz4Block) where
  -- `_get_kmi_version` of an image: `io.BytesIO(None)` is an empty file, which has no known magic, and
  -- the search in `None` raises.
  abbrev pub kmi_of : Option Bytes → Result (Option Bytes)
  kmi_of none = err type_error
  kmi_of (some kernel) = get_kmi_version zip lz4 kernel

  unfoldable pub kmi_issues : Option Bytes → Option Bytes → Result Issues
  kmi_issues none new = ok []
  kmi_issues (some old) new = kmi_of (some old) >>= λ old_kmi.
      kmi_of new >>= λ new_kmi. ok (if kmi_eq old_kmi new_kmi then [] else (2, kmi_changed) ∷ [])

  unfoldable pub issues : (List Bytes → List Bytes) → BootImage → BootImage → Result Issues
  issues in_some_order old new =
      let s = sections_of old in
      let t = sections_of new in
      kmi_issues s.kernel t.kernel >>= λ kmi. ok (
        header_issues in_some_order (to_dict old) (to_dict new)
        ++ (section_issues s t ++ (ramdisk_issues (ramdisks_of old) (ramdisks_of new) ++ kmi)))

  -- What `warning_fn` is told, and what `patch` returns for the prepatched image.
  unfoldable pub judge : ℕ → BootImage → Issues → List Issue × Result BootImage
  judge fatal_level new is = (
    warnings_of fatal_level is,
    if no_issue (errors_of fatal_level is) then ok new else err value_error,
  )

  unfoldable pub patch :
      (List Bytes → List Bytes) → ℕ → BootImage → BootImage → Result (List Issue × Result BootImage)
  patch in_some_order fatal_level new old =
      issues in_some_order old new >>= λ is. ok (judge fatal_level new is)
