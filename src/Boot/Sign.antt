-- ===== src/Boot/Sign.antt =====
-- avbroot/boot.py, `patch_boot`: the image without its vbmeta footer is patched and signed again. The
-- functions of avbtool are parameters; what `add_hash_footer` is called with is the result.
pub mod Laws
use avbroot.Prelude.{
  ℕ, Bool, true, false, ◌&&◌, not, Option, none, some, List, [], ◌∷◌, ◌==◌, if◌then◌else◌,
}
use avbroot.Result.{Result, ok, err, exception, ◌>>=◌, ◌>>◌, guard}
use avbroot.Stream.{Bytes}
use avbroot.BootImage.Detect.{BootImage}
use avbroot.Vbmeta.{Descriptor, chain_partition, hash, hashtree, other, Header, Image, Avb}
use avbroot.Vbmeta.Patch.{upgrade_algorithm}
use avbroot.Boot.Ramdisk.{bytes_io}
use avbroot.Boot.Image.{patch_file}

-- The arguments of `add_hash_footer`, with the hash descriptor's name and its other attributes, and the
-- bytes of the patched file.
pub record HashFooter (Key : Type 0) : Type 0 where
  pub image : Bytes
  pub partition_size : ℕ
  pub partition_name : Bytes
  pub hash_attributes : Bytes
  pub algorithm_name : Bytes
  pub key_path : Option Key
  pub rollback_index : ℕ
  pub flags : ℕ
  pub rollback_index_location : ℕ
  pub kernel_cmdlines : List Descriptor
  pub release_string : Bytes

abbrev pub add_front :
    Descriptor
    → Result (Option (Bytes × Bytes) × List Descriptor)
    → Result (Option (Bytes × Bytes) × List Descriptor)
add_front d (err e) = err e
add_front d (ok (found, ds)) = ok (found, d ∷ ds)

-- The loop over the descriptors, from the hash descriptor so far.
unfoldable pub split_hash :
    Option (Bytes × Bytes) → List Descriptor → Result (Option (Bytes × Bytes) × List Descriptor)
split_hash found [] = ok (found, [])
split_hash none (hash name rest ∷ ds) = split_hash (some (name, rest)) ds
split_hash (some h) (hash name rest ∷ ds) = err exception
split_hash found (chain_partition name key rest ∷ ds) =
    add_front (chain_partition name key rest) (split_hash found ds)
split_hash found (hashtree name rest ∷ ds) = add_front (hashtree name rest) (split_hash found ds)
split_hash found (other rest ∷ ds) = add_front (other rest) (split_hash found ds)

abbrev pub is_some {ℓ} : {A : Type ℓ} → Option A → Bool
is_some none = false
is_some (some a) = true

abbrev pub same_bool : Bool → Bool → Bool
same_bool true b = b
same_bool false b = not b

-- `key`, which is dropped for an image that was not signed.
abbrev pub key_for {ℓ} : {Key : Type ℓ} → Bool → Bool → Option Key → Option Key
key_for have_key_old only_if_previously_signed key =
    if not have_key_old && only_if_previously_signed then none else key

-- The patches, one after the other, each of the file that the one before has left. A patch is given the
-- bytes of the file too, which `MagiskRootPatch` hashes.
unfoldable pub apply_patches : List (Bytes → BootImage → Result BootImage) → Bytes → Result Bytes
apply_patches [] image = ok image
apply_patches (p ∷ ps) image = patch_file (p image) (bytes_io image) >>= apply_patches ps

module _ {Key : Type 0} where
  abbrev pub sign :
      Image
      → Option Key
      → Bytes
      → Bytes
      → List Descriptor
      → Option (Bytes × Bytes)
      → Result (HashFooter Key)
  sign image key name out ds none = err exception
  sign image key name out ds (some (partition, attributes)) =
      let h = image.header in
      ok (record {
        image = out;
        partition_size = image.image_size;
        partition_name = partition;
        hash_attributes = attributes;
        algorithm_name = upgrade_algorithm name;
        key_path = key;
        rollback_index = h.rollback_index;
        flags = h.flags;
        rollback_index_location = h.rollback_index_location;
        kernel_cmdlines = ds;
        release_string = h.release_string;
      })

module _ {Location Key : Type 0} (avb : Avb Location) (erase_footer : Location → Result Bytes) where
  unfoldable pub patch_boot :
      Location
      → Option Key
      → Bool
      → List (Bytes → BootImage → Result BootImage)
      → Result (HashFooter Key)
  patch_boot input_path key only_if_previously_signed patch_funcs =
      avb.parse_image input_path >>= λ image.
      let have_key_old = not (image.header.public_key_size == 0) in
      let key' = key_for have_key_old only_if_previously_signed key in
      guard (same_bool have_key_old (is_some key')) exception
      >> (split_hash none image.descriptors >>= λ (found, new_descriptors).
          guard (is_some found) exception
          >> (avb.algorithm_name image.header.algorithm_type >>= λ name.
              erase_footer input_path >>= apply_patches patch_funcs >>= λ out.
              sign image key' name out new_descriptors found))
