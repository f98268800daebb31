-- ===== src/BootImage/Dict/RoundTrip.antt =====
-- The dictionary of an image's header makes an image with the same header.
use avbroot.Prelude.{◌≡◌, refl, List, [], ◌∷◌}
use avbroot.Prelude.Text.{bytes_eq}
use avbroot.Result.{ok}
use avbroot.BootImage.Version.{Version34, v3, v4, version_of}
use avbroot.BootImage.V0.{BootV0, Extra, v0, v1, v2}
use avbroot.BootImage.V3.{BootV3}
use avbroot.BootImage.Vendor.{VendorBoot, RamdiskMeta, Kind, single, table}
use avbroot.BootImage.Detect.{BootImage, boot_v0, boot_v3, vendor}
use avbroot.BootImage.Dict.{
  no_sections, to_dict_v0, extra_of, from_dict_v0, to_dict_v3, from_dict_v3, meta_dict, meta_dicts,
  to_dict_vendor, metas_of, kind_of, from_dict_vendor, to_dict, try_class, create_from_dict,
}

abbrev pub without_sections : BootImage → BootImage
without_sections (boot_v0 i) = boot_v0 (record i { sections = no_sections })
without_sections (boot_v3 i) = boot_v3 (record i { sections = no_sections })
without_sections (vendor i) = vendor (record i { sections = no_sections })

metas_of-meta_dicts : (ms : List RamdiskMeta) → metas_of (meta_dicts ms) ≡ ok ms
unfolding metas_of meta_dicts meta_dict bytes_eq
metas_of-meta_dicts [] = refl
metas_of-meta_dicts (m ∷ ms) = rw (metas_of-meta_dicts ms) refl

-- By version.
v0_round_trip :
    (i : BootV0) (extra : Extra)
    → create_from_dict (to_dict (boot_v0 (record i { extra = extra })))
      ≡ ok (boot_v0 (record i { extra = extra; sections = no_sections }))
unfolding create_from_dict to_dict try_class from_dict_v0 from_dict_v3 from_dict_vendor to_dict_v0
    to_dict_v3 to_dict_vendor extra_of kind_of version_of bytes_eq
v0_round_trip i v0 = refl
v0_round_trip i (v1 offset) = refl
v0_round_trip i (v2 offset addr) = refl

v3_round_trip :
    (i : BootV3) (version : Version34)
    → create_from_dict (to_dict (boot_v3 (record i { header_version = version })))
      ≡ ok (boot_v3 (record i { header_version = version; sections = no_sections }))
unfolding create_from_dict to_dict try_class from_dict_v0 from_dict_v3 from_dict_vendor to_dict_v0
    to_dict_v3 to_dict_vendor extra_of kind_of version_of bytes_eq
v3_round_trip i v3 = refl
v3_round_trip i v4 = refl

vendor_round_trip :
    (i : VendorBoot) (kind : Kind)
    → create_from_dict (to_dict (vendor (record i { kind = kind })))
      ≡ ok (vendor (record i { kind = kind; sections = no_sections }))
unfolding create_from_dict to_dict try_class from_dict_v0 from_dict_v3 from_dict_vendor to_dict_v0
    to_dict_v3 to_dict_vendor extra_of kind_of version_of bytes_eq
vendor_round_trip i single = refl
vendor_round_trip i (table metas) = rw (metas_of-meta_dicts metas) refl

-- The dictionary of an image of any class and version makes an image of that class and version
-- with the same header, without sections.
pub create_from_dict-to_dict :
    (image : BootImage) → create_from_dict (to_dict image) ≡ ok (without_sections image)
create_from_dict-to_dict (boot_v0 i) = v0_round_trip i i.extra
create_from_dict-to_dict (boot_v3 i) = v3_round_trip i i.header_version
create_from_dict-to_dict (vendor i) = vendor_round_trip i i.kind
