-- ===== src/Vbmeta/Patch.antt =====
-- avbroot/vbmeta.py, `patch_vbmeta_image`: what `make_vbmeta_image` is called with. The key, the
-- passphrase and the padding size are handed on as they are.
pub mod Laws
use avbroot.Prelude.{
  ℕ, Bool, true, false, ◌&&◌, Option, none, some, List, [], ◌∷◌, ◌==◌, if◌then◌else◌,
}
use avbroot.Prelude.Text.{codes, bytes_eq}
use avbroot.Prelude.Dict.{lookup, without, is_empty}
use avbroot.Result.{Result, ok, err, value_error, exception, ◌>>=◌, ◌>>◌, guard}
use avbroot.Stream.{Bytes}
use avbroot.Vbmeta.{Descriptor, chain_partition, hash, hashtree, other, Header, Image, Avb}
use avbroot.Vbmeta.Overrides.{Overrides, get_descriptor_overrides}

-- `SmuggledViaKernelCmdlineDescriptor`s are made of the descriptors.
pub record VbmetaImage : Type 0 where
  pub algorithm_name : Bytes
  pub rollback_index : ℕ
  pub flags : ℕ
  pub rollback_index_location : ℕ
  pub kernel_cmdlines : List Descriptor
  pub release_string : Bytes

unfoldable pub upgrade_algorithm : Bytes → Bytes
upgrade_algorithm name =
    if bytes_eq name (codes "SHA256_RSA2048") then codes "SHA256_RSA4096" else name

-- The flags, where they disable nothing or are to be cleared.
unfoldable pub check_flags : Bool → Header → Result Header
check_flags clear_flags header =
    if header.flags == 0
    then ok header
    else if clear_flags
    then ok (record header { flags = 0 })
    else err value_error

abbrev pub chain_with : Bytes → Bytes → Bytes → Option Bytes → Descriptor
chain_with name key rest none = chain_partition name key rest
chain_with name key rest (some new) = chain_partition name new rest

abbrev pub replaced_by : Descriptor → Option Descriptor → Descriptor
replaced_by d none = d
replaced_by d (some new) = new

-- The loop over the descriptors, with the overrides that are left after it.
unfoldable pub patch_descriptors : List Descriptor → Overrides → List Descriptor × Overrides
patch_descriptors [] (keys, descriptors) = ([], (keys, descriptors))
patch_descriptors (chain_partition name key rest ∷ ds) (keys, descriptors) =
    let (more, left) = patch_descriptors ds (without name keys, descriptors) in
    (chain_with name key rest (lookup name keys) ∷ more, left)
patch_descriptors (hash name rest ∷ ds) (keys, descriptors) =
    let (more, left) = patch_descriptors ds (keys, without name descriptors) in
    (replaced_by (hash name rest) (lookup name descriptors) ∷ more, left)
patch_descriptors (hashtree name rest ∷ ds) (keys, descriptors) =
    let (more, left) = patch_descriptors ds (keys, without name descriptors) in
    (replaced_by (hashtree name rest) (lookup name descriptors) ∷ more, left)
patch_descriptors (other rest ∷ ds) (keys, descriptors) =
    let (more, left) = patch_descriptors ds (keys, descriptors) in (other rest ∷ more, left)

-- `if override_public_keys: raise`, `if override_descriptors: raise`
unfoldable pub check_unused : Overrides → Result (Unit {0})
check_unused (keys, descriptors) = guard (is_empty keys && is_empty descriptors) exception

module _ {Location : Type 0} (avb : Avb Location) where
  unfoldable pub patch_vbmeta_image : List (Bytes × Location) → Location → Bool → Result VbmetaImage
  patch_vbmeta_image images input_path clear_flags = avb.parse_image input_path >>= λ image.
      check_flags clear_flags image.header >>= λ header.
      get_descriptor_overrides avb images >>= λ overrides.
      let (new_descriptors, left) = patch_descriptors image.descriptors overrides in
      check_unused left
      >> (avb.algorithm_name header.algorithm_type >>= λ name. ok (record {
        algorithm_name = upgrade_algorithm name;
        rollback_index = header.rollback_index;
        flags = header.flags;
        rollback_index_location = header.rollback_index_location;
        kernel_cmdlines = new_descriptors;
        release_string = header.release_string;
      }))
