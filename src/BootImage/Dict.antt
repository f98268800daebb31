-- ===== src/BootImage/Dict.antt =====
-- avbroot/formats/bootimage.py: an image's header as a dictionary, in `to_dict`, `_from_dict` and
-- `create_from_dict`. A value of another class than `to_dict` gives it, which `_from_dict` would keep
-- as it is, is refused here.
pub mod RoundTrip
use avbroot.Prelude.{
  ℕ, Bool, true, false, ◌||◌, not, Option, none, some, List, [], ◌∷◌, ◌++◌, ◌==◌, if◌then◌else◌,
}
use avbroot.Prelude.Text.{codes, bytes_eq}
use avbroot.Prelude.Dict.{lookup}
use avbroot.Result.{
  Result, Error, ok, err, value_error, wrong_format, key_error, ◌>>=◌, ◌>>◌, guard,
}
use avbroot.Stream.{Bytes}
use avbroot.BootImage.Section.{Sections}
use avbroot.BootImage.Version.{Version34, number, version_of}
use avbroot.BootImage.V0.{BootV0, Extra, v0, v1, v2}
use avbroot.BootImage.V3.{BootV3}
use avbroot.BootImage.Vendor.{VendorBoot, RamdiskMeta, Kind, single, table}
use avbroot.BootImage.Detect.{BootImage, boot_v0, boot_v3, vendor}

pub data Value : Type 0 where
  num : ℕ → Value
  text : Bytes → Value

pub data Field : Type 0 where
  value : Value → Field
  -- A list of dictionaries.
  dicts : List (List (Bytes × Value)) → Field

abbrev pub Dict : Type 0
Dict = List (Bytes × Field)

abbrev num_field : Bytes → ℕ → Bytes × Field
num_field key n = (key, value (num n))

abbrev text_field : Bytes → Bytes → Bytes × Field
text_field key s = (key, value (text s))

-- `data[key]`
abbrev as_num : Option Value → Result ℕ
as_num none = err key_error
as_num (some (num n)) = ok n
as_num (some (text s)) = err value_error

abbrev as_text : Option Value → Result Bytes
as_text none = err key_error
as_text (some (num n)) = err value_error
as_text (some (text s)) = ok s

abbrev field_num : Option Field → Result ℕ
field_num none = err key_error
field_num (some (value v)) = as_num (some v)
field_num (some (dicts ds)) = err value_error

abbrev field_text : Option Field → Result Bytes
field_text none = err key_error
field_text (some (value v)) = as_text (some v)
field_text (some (dicts ds)) = err value_error

abbrev get_num : Bytes → Dict → Result ℕ
get_num key d = field_num (lookup key d)

abbrev get_text : Bytes → Dict → Result Bytes
get_text key d = field_text (lookup key d)

abbrev as_dicts : Option Field → Result (List (List (Bytes × Value)))
as_dicts none = err key_error
as_dicts (some (value v)) = err value_error
as_dicts (some (dicts ds)) = ok ds

-- `data.get('type') != type`
abbrev is_type : Bytes → Option Field → Bool
is_type type (some (value (text s))) = bytes_eq s type
is_type type (some (value (num n))) = false
is_type type (some (dicts ds)) = false
is_type type none = false

-- `data.get('header_version')`, which raises nothing where there is none.
abbrev header_version : Option Field → Result ℕ
header_version (some (value (num n))) = ok n
header_version (some (value (text s))) = err wrong_format
header_version (some (dicts ds)) = err wrong_format
header_version none = err wrong_format

abbrev version_for : Bytes → Dict → Result ℕ
version_for type d =
    guard (is_type type (lookup (codes "type") d)) wrong_format
    >> header_version (lookup (codes "header_version") d)

-- `BootImage.__init__`
abbrev pub no_sections : Sections
no_sections = record {
  kernel = none;
  ramdisks = [];
  second = none;
  recovery_dtbo = none;
  dtb = none;
  bootconfig = none;
}

abbrev extra_fields : Extra → Dict
extra_fields v0 = []
extra_fields (v1 offset) = num_field (codes "recovery_dtbo_offset") offset ∷ []
extra_fields (v2 offset addr) =
    num_field (codes "recovery_dtbo_offset") offset ∷ num_field (codes "dtb_address") addr ∷ []

abbrev extra_number : Extra → ℕ
extra_number v0 = 0
extra_number (v1 offset) = 1
extra_number (v2 offset addr) = 2

unfoldable pub to_dict_v0 : BootV0 → Dict
to_dict_v0 i =
    text_field (codes "type") (codes "android")
    ∷ num_field (codes "header_version") (extra_number i.extra)
    ∷ num_field (codes "kernel_address") i.kernel_addr
    ∷ num_field (codes "ramdisk_address") i.ramdisk_addr
    ∷ num_field (codes "second_address") i.second_addr
    ∷ num_field (codes "tags_address") i.tags_addr
    ∷ num_field (codes "page_size") i.page_size
    ∷ num_field (codes "os_version") i.os_version
    ∷ text_field (codes "name") i.name
    ∷ text_field (codes "cmdline") i.cmdline
    ∷ text_field (codes "id") i.id
    ∷ text_field (codes "extra_cmdline") i.extra_cmdline
    ∷ extra_fields i.extra

-- The attributes of each version.
unfoldable pub extra_of : ℕ → Dict → Result Extra
extra_of version d =
    let offset = get_num (codes "recovery_dtbo_offset") d in
    let addr = get_num (codes "dtb_address") d in
    if version == 0
    then ok v0
    else if version == 1
    then offset >>= (λ o. ok (v1 o))
    else if version == 2
    then offset >>= (λ o. addr >>= λ a. ok (v2 o a))
    else err wrong_format

-- The versions are checked in front of the keys.
unfoldable pub from_dict_v0 : Dict → Result BootV0
from_dict_v0 d = version_for (codes "android") d >>= λ version.
    guard (version == 0 || (version == 1 || version == 2)) wrong_format
    >> get_num (codes "kernel_address") d
    >>= λ kernel_addr. get_num (codes "ramdisk_address") d >>= λ ramdisk_addr.
        get_num (codes "second_address") d >>= λ second_addr.
        get_num (codes "tags_address") d >>= λ tags_addr.
        get_num (codes "page_size") d >>= λ page_size.
        get_num (codes "os_version") d >>= λ os_version. get_text (codes "name") d >>= λ name.
        get_text (codes "cmdline") d >>= λ cmdline. get_text (codes "id") d >>= λ id.
        get_text (codes "extra_cmdline") d >>= λ extra_cmdline. extra_of version d >>= λ extra.
        ok (record {
          sections = no_sections;
          extra = extra;
          kernel_addr = kernel_addr;
          ramdisk_addr = ramdisk_addr;
          second_addr = second_addr;
          tags_addr = tags_addr;
          page_size = page_size;
          os_version = os_version;
          name = name;
          cmdline = cmdline;
          id = id;
          extra_cmdline = extra_cmdline;
        })

unfoldable pub to_dict_v3 : BootV3 → Dict
to_dict_v3 i =
    text_field (codes "type") (codes "android")
    ∷ num_field (codes "header_version") (number i.header_version)
    ∷ num_field (codes "os_version") i.os_version
    ∷ text_field (codes "reserved") i.reserved
    ∷ text_field (codes "cmdline") i.cmdline
    ∷ []

unfoldable pub from_dict_v3 : Dict → Result BootV3
from_dict_v3 d = version_for (codes "android") d >>= λ n. version_of n >>= λ version.
    get_num (codes "os_version") d >>= λ os_version. get_text (codes "reserved") d >>= λ reserved.
    get_text (codes "cmdline") d >>= λ cmdline. ok (record {
      sections = no_sections;
      header_version = version;
      os_version = os_version;
      reserved = reserved;
      cmdline = cmdline;
    })

unfoldable pub meta_dict : RamdiskMeta → List (Bytes × Value)
meta_dict m =
    (codes "type", num m.ramdisk_type)
    ∷ (codes "name", text m.name)
    ∷ (codes "board_id", text m.board_id)
    ∷ []

unfoldable pub meta_dicts : List RamdiskMeta → List (List (Bytes × Value))
meta_dicts [] = []
meta_dicts (m ∷ ms) = meta_dict m ∷ meta_dicts ms

abbrev kind_number : Kind → ℕ
kind_number single = 3
kind_number (table metas) = 4

abbrev kind_fields : Kind → Dict
kind_fields single = []
kind_fields (table metas) = (codes "ramdisk_meta", dicts (meta_dicts metas)) ∷ []

unfoldable pub to_dict_vendor : VendorBoot → Dict
to_dict_vendor i =
    text_field (codes "type") (codes "vendor")
    ∷ num_field (codes "header_version") (kind_number i.kind)
    ∷ num_field (codes "page_size") i.page_size
    ∷ num_field (codes "kernel_address") i.kernel_addr
    ∷ num_field (codes "ramdisk_address") i.ramdisk_addr
    ∷ text_field (codes "cmdline") i.cmdline
    ∷ num_field (codes "tags_address") i.tags_addr
    ∷ text_field (codes "name") i.name
    ∷ num_field (codes "dtb_address") i.dtb_addr
    ∷ kind_fields i.kind

-- The loop over `data['ramdisk_meta']`.
unfoldable pub metas_of : List (List (Bytes × Value)) → Result (List RamdiskMeta)
metas_of [] = ok []
metas_of (d ∷ ds) = as_num (lookup (codes "type") d) >>= λ type.
    as_text (lookup (codes "name") d) >>= λ name.
    as_text (lookup (codes "board_id") d) >>= λ board_id. metas_of ds >>= λ metas.
    ok (record { ramdisk_type = type; name = name; board_id = board_id } ∷ metas)

unfoldable pub kind_of : Version34 → Dict → Result Kind
kind_of Version34.v3 d = ok single
kind_of Version34.v4 d =
    as_dicts (lookup (codes "ramdisk_meta") d) >>= λ ds. metas_of ds >>= λ metas. ok (table metas)

unfoldable pub from_dict_vendor : Dict → Result VendorBoot
from_dict_vendor d = version_for (codes "vendor") d >>= λ n. version_of n >>= λ version.
    get_num (codes "page_size") d >>= λ page_size.
    get_num (codes "kernel_address") d >>= λ kernel_addr.
    get_num (codes "ramdisk_address") d >>= λ ramdisk_addr.
    get_text (codes "cmdline") d >>= λ cmdline. get_num (codes "tags_address") d >>= λ tags_addr.
    get_text (codes "name") d >>= λ name. get_num (codes "dtb_address") d >>= λ dtb_addr.
    kind_of version d >>= λ kind. ok (record {
      sections = no_sections;
      kind = kind;
      page_size = page_size;
      kernel_addr = kernel_addr;
      ramdisk_addr = ramdisk_addr;
      cmdline = cmdline;
      tags_addr = tags_addr;
      name = name;
      dtb_addr = dtb_addr;
    })

unfoldable pub to_dict : BootImage → Dict
to_dict (boot_v0 i) = to_dict_v0 i
to_dict (boot_v3 i) = to_dict_v3 i
to_dict (vendor i) = to_dict_vendor i

abbrev is_wrong_format : Error → Bool
is_wrong_format wrong_format = true
is_wrong_format e = false

-- `except WrongFormat: continue`
unfoldable pub try_class {ℓ} :
    {A : Type ℓ} → (A → BootImage) → Result A → Result BootImage → Result BootImage
try_class c (ok i) next = ok (c i)
try_class c (err e) next = if is_wrong_format e then next else err e

unfoldable pub create_from_dict : Dict → Result BootImage
create_from_dict d =
    try_class boot_v0 (from_dict_v0 d)
      (try_class boot_v3 (from_dict_v3 d) (try_class vendor (from_dict_vendor d) (err value_error)))
