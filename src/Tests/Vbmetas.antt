-- ===== src/Tests/Vbmetas.antt =====
-- avbroot/vbmeta.py: a vbmeta image with a chained, signed partition and an unsigned one.
use avbroot.Prelude.{
  ℕ, ◌≡◌, inl, inr, refl, true, false, List, [], ◌∷◌, map, All, ◌==◌, if◌then◌else◌,
}
use avbroot.Prelude.Text.{codes, bytes_eq}
use avbroot.Result.{ok, err, exception}
use avbroot.Stream.{Bytes}
use avbroot.Vbmeta.{Descriptor, chain_partition, hash, other, Header, Image, Avb}
use avbroot.Vbmeta.Overrides.{
  get_descriptor_overrides, overrides_loop, add_override, find_descriptor,
}
use avbroot.Vbmeta.Patch.{patch_vbmeta_image}
use avbroot.Vbmeta.Patch.Laws.{overridden, all_used, patch_vbmeta_image_lem}
use avbroot.Prelude.Dict.{elem}
use avbroot.Vbmeta.Overrides.Laws.{HasNone, HasOverride, get_descriptor_overrides_lem}
use avbroot.Vbmeta.Deps.{Graph, get_vbmeta_deps}
use avbroot.Vbmeta.Deps.Laws.{IsClosed, get_vbmeta_deps-IsClosed}

abbrev pub header : ℕ → ℕ → Header
header public_key_size flags = record {
  public_key_size = public_key_size;
  public_key_offset = 0;
  authentication_data_block_size = 1;
  flags = flags;
  algorithm_type = 1;
  rollback_index = 5;
  rollback_index_location = 0;
  release_string = codes "avbtool";
}

abbrev pub image : ℕ → ℕ → List Descriptor → Image
image public_key_size flags descriptors = record {
  header = header public_key_size flags;
  descriptors = descriptors;
  image_size = 4096;
  vbmeta_blob = 7 ∷ 8 ∷ 9 ∷ 10 ∷ [];
}

abbrev boot : Bytes
boot = codes "boot"

abbrev vendor : Bytes
vendor = codes "vendor"

-- The vbmeta image is file 0, the boot image file 1 and the vendor image file 2.
abbrev root : Image
root = image 2 3 (chain_partition boot (1 ∷ []) [] ∷ other [] ∷ hash vendor (2 ∷ []) ∷ [])

abbrev pub parse : ℕ → Image
parse n =
    if n == 0
    then root
    else if n == 1
    then image 2 0 (hash boot [] ∷ [])
    else image 0 0 (hash vendor (3 ∷ []) ∷ [])

abbrev pub test_avb : Avb ℕ
test_avb = record {
  parse_image = λ n. ok (parse n);
  header_size = 1;
  algorithm_name = λ n. ok (codes "SHA256_RSA2048");
}

abbrev images : List (Bytes × ℕ)
images = (boot, 1) ∷ (vendor, 2) ∷ []

abbrev keys : List (Bytes × Bytes)
keys = (boot, 9 ∷ 10 ∷ []) ∷ []

abbrev descriptors : List (Bytes × Descriptor)
descriptors = (vendor, hash vendor (3 ∷ [])) ∷ []

overrides_run : get_descriptor_overrides test_avb images ≡ ok (keys, descriptors)
unfolding get_descriptor_overrides overrides_loop add_override find_descriptor bytes_eq
overrides_run = refl

patch_vbmeta_image_lem_example : patch_vbmeta_image test_avb images 0 true ≡ (
    if all_used root.descriptors (keys, descriptors)
    then ok (record {
      algorithm_name =
          if bytes_eq (codes "SHA256_RSA2048") (codes "SHA256_RSA2048")
          then codes "SHA256_RSA4096"
          else codes "SHA256_RSA2048";
      rollback_index = 5;
      flags = 0;
      rollback_index_location = 0;
      kernel_cmdlines = map (overridden (keys, descriptors)) root.descriptors;
      release_string = codes "avbtool";
    })
    else err exception)
unfolding bytes_eq
patch_vbmeta_image_lem_example =
    patch_vbmeta_image_lem test_avb images 0 true root keys descriptors (codes "SHA256_RSA2048")
      refl (inl refl) overrides_run refl (refl, tt) (refl, tt)

get_vbmeta_deps-IsClosed_example :
    (out : Graph) × (get_vbmeta_deps test_avb ((codes "vbmeta", 0) ∷ []) ≡ ok out) × IsClosed out
get_vbmeta_deps-IsClosed_example =
    get_vbmeta_deps-IsClosed test_avb ((codes "vbmeta", 0) ∷ []) ((root, refl), tt)

get_descriptor_overrides_lem_example :
    (found_keys : List (Bytes × Bytes)) × (found : List (Bytes × Descriptor))
    × (get_descriptor_overrides test_avb images ≡ ok (found_keys, found))
    × ((n : Bytes) → elem n (boot ∷ vendor ∷ []) ≡ false → HasNone found_keys found n)
    × All (HasOverride test_avb found_keys found) images
unfolding bytes_eq
get_descriptor_overrides_lem_example =
    get_descriptor_overrides_lem test_avb images (refl, (refl, tt))
      (
        (parse 1, refl, inl refl),
        ((parse 2, refl, inr (refl, (hash vendor (3 ∷ []), ([], [], refl, refl, tt)))), tt),
      )
