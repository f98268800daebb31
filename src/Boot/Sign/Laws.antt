-- ===== src/Boot/Sign/Laws.antt =====
-- When an image is signed, and with which descriptors.
use avbroot.Prelude.{
  ◌≡◌, refl, ap, ◌∙◌, Bool, true, false, ◌||◌, not, Option, none, some, List, [], ◌∷◌, ◌==◌,
  if◌then◌else◌, Bool-cases, inl, inr,
}
use avbroot.Prelude.Text.{codes, bytes_eq}
use avbroot.Result.{Result, ok, err, exception, ◌>>=◌, ◌>>◌, guard}
use avbroot.Stream.{Bytes}
use avbroot.BootImage.Detect.{BootImage}
use avbroot.Vbmeta.{Descriptor, chain_partition, hash, hashtree, other, Image, Avb}
use avbroot.Vbmeta.Patch.{upgrade_algorithm}
use avbroot.Boot.Sign.{
  HashFooter, add_front, split_hash, is_some, same_bool, key_for, apply_patches, sign, patch_boot,
}

-- The hash descriptors, and the others.
abbrev pub hashes : List Descriptor → List (Bytes × Bytes)
hashes [] = []
hashes (hash name rest ∷ ds) = (name, rest) ∷ hashes ds
hashes (chain_partition name key rest ∷ ds) = hashes ds
hashes (hashtree name rest ∷ ds) = hashes ds
hashes (other rest ∷ ds) = hashes ds

abbrev pub others : List Descriptor → List Descriptor
others [] = []
others (hash name rest ∷ ds) = others ds
others (chain_partition name key rest ∷ ds) = chain_partition name key rest ∷ others ds
others (hashtree name rest ∷ ds) = hashtree name rest ∷ others ds
others (other rest ∷ ds) = other rest ∷ others ds

abbrev with_more :
    Option (Bytes × Bytes)
    → List (Bytes × Bytes)
    → List Descriptor
    → Result (Option (Bytes × Bytes) × List Descriptor)
with_more found [] ds = ok (found, ds)
with_more none (h ∷ []) ds = ok (some h, ds)
with_more none (h ∷ g ∷ hs) ds = err exception
with_more (some f) (h ∷ hs) ds = err exception

add-with_more :
    (d : Descriptor) (found : Option (Bytes × Bytes)) (hs : List (Bytes × Bytes))
    (ds : List Descriptor)
    → add_front d (with_more found hs ds) ≡ with_more found hs (d ∷ ds)
add-with_more d found [] ds = refl
add-with_more d none (h ∷ []) ds = refl
add-with_more d none (h ∷ g ∷ hs) ds = refl
add-with_more d (some f) (h ∷ hs) ds = refl

one_more :
    (h : Bytes × Bytes) (hs : List (Bytes × Bytes)) (ds : List Descriptor)
    → with_more (some h) hs ds ≡ with_more none (h ∷ hs) ds
one_more h [] ds = refl
one_more h (g ∷ hs) ds = refl

split_hash_lem :
    (found : Option (Bytes × Bytes)) (ds : List Descriptor)
    → split_hash found ds ≡ with_more found (hashes ds) (others ds)
unfolding split_hash
split_hash_lem found [] = refl
split_hash_lem none (hash name rest ∷ ds) =
    split_hash_lem (some (name, rest)) ds ∙ one_more (name, rest) (hashes ds) (others ds)
split_hash_lem (some h) (hash name rest ∷ ds) = refl
split_hash_lem found (chain_partition name key rest ∷ ds) =
    ap (add_front (chain_partition name key rest)) (split_hash_lem found ds)
    ∙ add-with_more (chain_partition name key rest) found (hashes ds) (others ds)
split_hash_lem found (hashtree name rest ∷ ds) =
    ap (add_front (hashtree name rest)) (split_hash_lem found ds)
    ∙ add-with_more (hashtree name rest) found (hashes ds) (others ds)
split_hash_lem found (other rest ∷ ds) =
    ap (add_front (other rest)) (split_hash_lem found ds)
    ∙ add-with_more (other rest) found (hashes ds) (others ds)

module _ {Key : Type 0} where
  -- A key is there for an image that was signed, and only for one.
  abbrev pub key_matches : Image → Option Key → Bool → Bool
  key_matches image key only_if_previously_signed =
      let signed = not (image.header.public_key_size == 0) in
      if signed then is_some key else (only_if_previously_signed || not (is_some key))

  key_matches_lem :
      (signed only_if : Bool) (key : Option Key)
      → same_bool signed (is_some (key_for signed only_if key))
        ≡ (if signed then is_some key else (only_if || not (is_some key)))
  key_matches_lem true only_if key = refl
  key_matches_lem false true key = refl
  key_matches_lem false false key = refl

  -- The one hash descriptor is made again; the other descriptors are handed on.
  abbrev pub signed_with :
      Image → Option Key → Bytes → Bytes → List (Bytes × Bytes) → Result (HashFooter Key)
  signed_with image key name out [] = err exception
  signed_with image key name out (h ∷ g ∷ hs) = err exception
  signed_with image key name out ((partition, attributes) ∷ []) = ok (record {
    image = out;
    partition_size = image.image_size;
    partition_name = partition;
    hash_attributes = attributes;
    algorithm_name =
        if bytes_eq name (codes "SHA256_RSA2048") then codes "SHA256_RSA4096" else name;
    key_path = if image.header.public_key_size == 0 then none else key;
    rollback_index = image.header.rollback_index;
    flags = image.header.flags;
    rollback_index_location = image.header.rollback_index_location;
    kernel_cmdlines = others image.descriptors;
    release_string = image.header.release_string;
  })

  key_for_lem :
      (unsigned only_if : Bool) (key : Option Key)
      → (if not unsigned then is_some key else (only_if || not (is_some key))) ≡ true
      → key_for (not unsigned) only_if key ≡ (if unsigned then none else key)
  key_for_lem false only_if key h = refl
  key_for_lem true true key h = refl
  key_for_lem true false none h = refl
  key_for_lem true false (some k) h = cc

  sign_one :
      (image : Image) (key : Option Key) (name out : Bytes) (hs : List (Bytes × Bytes))
      → (with_more none hs (others image.descriptors) >>= λ (found, ds).
          guard (is_some found) exception
          >> sign image (if image.header.public_key_size == 0 then none else key) name out ds found)
        ≡ signed_with image key name out hs
  unfolding upgrade_algorithm
  sign_one image key name out [] = refl
  sign_one image key name out (h ∷ []) = refl
  sign_one image key name out (h ∷ g ∷ hs) = refl

module _ {Location Key : Type 0} (avb : Avb Location) (erase_footer : Location → Result Bytes) where
  -- For an image that parses, with a known algorithm, and patches that succeed on it without its
  -- footer, `patch_boot` raises if the presence of a key is not that of the old signature (where a
  -- key may be dropped only on request), or if there is not exactly one hash descriptor; else it
  -- signs the patched file with the name and attributes of the one hash descriptor, with the other
  -- descriptors in their order, and with no key for an image that was not signed.
  pub patch_boot_lem :
      (input_path : Location) (key : Option Key) (only_if : Bool)
      (patch_funcs : List (Bytes → BootImage → Result BootImage)) (image : Image)
      (name stripped out : Bytes)
      → avb.parse_image input_path ≡ ok image
      → avb.algorithm_name image.header.algorithm_type ≡ ok name
      → erase_footer input_path ≡ ok stripped
      → apply_patches patch_funcs stripped ≡ ok out
      → patch_boot avb erase_footer input_path key only_if patch_funcs ≡ (
          if key_matches image key only_if
          then signed_with image key name out (hashes image.descriptors)
          else err exception)
  unfolding patch_boot
  patch_boot_lem input_path key only_if patch_funcs image name stripped out parsed named erased
        patched =
      let unsigned = image.header.public_key_size == 0 in
      elim (Bool-cases (key_matches image key only_if)) [
        | inl m ↦
            rw
              (
                parsed,
                key_matches_lem (not unsigned) only_if key,
                m,
                key_for_lem unsigned only_if key m,
                split_hash_lem none image.descriptors,
                named,
                erased,
                patched,
              )
              (sign_one image key name out (hashes image.descriptors))
        | inr m ↦ rw (parsed, key_matches_lem (not unsigned) only_if key, m) refl
      ]
