-- ===== src/Vbmeta/Patch/Laws.antt =====
-- The loop over the descriptors as a map, and when every override is used.
use avbroot.Prelude.{
  or_left, or_right, ◌≡◌, refl, ap, ◌∙◌, ◌⊎◌, inl, inr, Bool, true, false, ◌&&◌, Option, none, some,
  List, [], ◌∷◌, map, Bool-cases, ◌==◌, arith, if◌then◌else◌,
}
use avbroot.Prelude.Text.{codes, bytes_eq}
use avbroot.Prelude.Dict.{
  bytes_eq_sym, elem, AreDistinct, lookup, without, without_all, covers, lookup-without_other,
  is_empty-without_all,
}
use avbroot.Result.{ok, err, exception, guard, ◌>>◌}
use avbroot.Stream.{Bytes}
use avbroot.Vbmeta.{Descriptor, chain_partition, hash, hashtree, other, Header, Image, Avb}
use avbroot.Vbmeta.Overrides.{Overrides, get_descriptor_overrides}
use avbroot.Vbmeta.Patch.{
  VbmetaImage, upgrade_algorithm, check_flags, chain_with, replaced_by, patch_descriptors,
  check_unused, patch_vbmeta_image,
}

-- The partitions of the chain descriptors, and those of the hash and hashtree descriptors.
abbrev pub chained : List Descriptor → List Bytes
chained [] = []
chained (chain_partition n key rest ∷ ds) = n ∷ chained ds
chained (hash n rest ∷ ds) = chained ds
chained (hashtree n rest ∷ ds) = chained ds
chained (other rest ∷ ds) = chained ds

abbrev pub hashed : List Descriptor → List Bytes
hashed [] = []
hashed (chain_partition n key rest ∷ ds) = hashed ds
hashed (hash n rest ∷ ds) = n ∷ hashed ds
hashed (hashtree n rest ∷ ds) = n ∷ hashed ds
hashed (other rest ∷ ds) = hashed ds

abbrev pub found_or {ℓ} : {A : Type ℓ} → A → Option A → A
found_or a none = a
found_or a (some b) = b

-- A descriptor with the override of its partition: another public key in a chain descriptor, or another
-- descriptor in its place.
abbrev pub overridden : Overrides → Descriptor → Descriptor
overridden (keys, descriptors) (chain_partition n key rest) =
    chain_partition n (found_or key (lookup n keys)) rest
overridden (keys, descriptors) (hash n rest) = found_or (hash n rest) (lookup n descriptors)
overridden (keys, descriptors) (hashtree n rest) = found_or (hashtree n rest) (lookup n descriptors)
overridden (keys, descriptors) (other rest) = other rest

chain_with-found :
    (n key rest : Bytes) (new : Option Bytes)
    → chain_with n key rest new ≡ chain_partition n (found_or key new) rest
chain_with-found n key rest none = refl
chain_with-found n key rest (some new) = refl

replaced_by-found : (d : Descriptor) (new : Option Descriptor) → replaced_by d new ≡ found_or d new
replaced_by-found d none = refl
replaced_by-found d (some new) = refl

-- An override of a partition that is not in the list makes no difference.
lookup-elsewhere {ℓ} :
    {A : Type ℓ} (n m : Bytes) (ms : List Bytes) (xs : List (Bytes × A))
    → elem n (m ∷ ms) ≡ false
    → lookup m (without n xs) ≡ lookup m xs
lookup-elsewhere n m ms xs h =
    lookup-without_other n m xs (bytes_eq_sym n m ∙ or_left (bytes_eq m n) (elem n ms) h)

same-without_key :
    (n : Bytes) (ds : List Descriptor) (keys : List (Bytes × Bytes))
    (descriptors : List (Bytes × Descriptor))
    → elem n (chained ds) ≡ false
    → map (overridden (without n keys, descriptors)) ds ≡ map (overridden (keys, descriptors)) ds
same-without_key n [] keys descriptors h = refl
same-without_key n (chain_partition m key rest ∷ ds) keys descriptors h =
    rw
      (
        lookup-elsewhere n m (chained ds) keys h,
        same-without_key n ds keys descriptors (or_right (bytes_eq m n) (elem n (chained ds)) h),
      )
      refl
same-without_key n (hash m rest ∷ ds) keys descriptors h =
    rw (same-without_key n ds keys descriptors h) refl
same-without_key n (hashtree m rest ∷ ds) keys descriptors h =
    rw (same-without_key n ds keys descriptors h) refl
same-without_key n (other rest ∷ ds) keys descriptors h =
    rw (same-without_key n ds keys descriptors h) refl

same-without_descriptor :
    (n : Bytes) (ds : List Descriptor) (keys : List (Bytes × Bytes))
    (descriptors : List (Bytes × Descriptor))
    → elem n (hashed ds) ≡ false
    → map (overridden (keys, without n descriptors)) ds ≡ map (overridden (keys, descriptors)) ds
same-without_descriptor n [] keys descriptors h = refl
same-without_descriptor n (chain_partition m key rest ∷ ds) keys descriptors h =
    rw (same-without_descriptor n ds keys descriptors h) refl
same-without_descriptor n (hash m rest ∷ ds) keys descriptors h =
    rw
      (
        lookup-elsewhere n m (hashed ds) descriptors h,
        same-without_descriptor n ds keys descriptors
            (or_right (bytes_eq m n) (elem n (hashed ds)) h),
      )
      refl
same-without_descriptor n (hashtree m rest ∷ ds) keys descriptors h =
    rw
      (
        lookup-elsewhere n m (hashed ds) descriptors h,
        same-without_descriptor n ds keys descriptors
            (or_right (bytes_eq m n) (elem n (hashed ds)) h),
      )
      refl
same-without_descriptor n (other rest ∷ ds) keys descriptors h =
    rw (same-without_descriptor n ds keys descriptors h) refl

-- The loop.
pub patch_descriptors-map :
    (ds : List Descriptor) (keys : List (Bytes × Bytes)) (descriptors : List (Bytes × Descriptor))
    → AreDistinct (chained ds)
    → AreDistinct (hashed ds)
    → patch_descriptors ds (keys, descriptors) ≡ (
      map (overridden (keys, descriptors)) ds,
      (without_all (chained ds) keys, without_all (hashed ds) descriptors),
    )
unfolding patch_descriptors
patch_descriptors-map [] keys descriptors c h = refl
patch_descriptors-map (chain_partition n key rest ∷ ds) keys descriptors (c, cs) h =
    rw
      (
        patch_descriptors-map ds (without n keys) descriptors cs h,
        same-without_key n ds keys descriptors c,
        chain_with-found n key rest (lookup n keys),
      )
      refl
patch_descriptors-map (hash n rest ∷ ds) keys descriptors cs (h, hs) =
    rw
      (
        patch_descriptors-map ds keys (without n descriptors) cs hs,
        same-without_descriptor n ds keys descriptors h,
        replaced_by-found (hash n rest) (lookup n descriptors),
      )
      refl
patch_descriptors-map (hashtree n rest ∷ ds) keys descriptors cs (h, hs) =
    rw
      (
        patch_descriptors-map ds keys (without n descriptors) cs hs,
        same-without_descriptor n ds keys descriptors h,
        replaced_by-found (hashtree n rest) (lookup n descriptors),
      )
      refl
patch_descriptors-map (other rest ∷ ds) keys descriptors cs hs =
    rw (patch_descriptors-map ds keys descriptors cs hs) refl

-- Every override has a descriptor to replace.
abbrev pub all_used : List Descriptor → Overrides → Bool
all_used ds (keys, descriptors) = covers (chained ds) keys && covers (hashed ds) descriptors

check_flags_lem :
    (clear_flags : Bool) (header : Header)
    → (clear_flags ≡ true) ⊎ (header.flags ≡ 0)
    → check_flags clear_flags header ≡ ok (record header { flags = 0 })
unfolding check_flags
check_flags_lem clear_flags header (inr none_set) =
    let test : (header.flags == 0) ≡ true = ground arith in
    rw test (ap (λ n. ok (record header { flags = n })) none_set)
check_flags_lem clear_flags header (inl clear) = elim (Bool-cases (header.flags == 0)) [
  | inl h ↦
      let e : header.flags ≡ 0 = ground arith in rw h (ap (λ n. ok (record header { flags = n })) e)
  | inr h ↦ rw (h, clear) refl
]

finish :
    (used : Bool) (out : VbmetaImage)
    → (guard used exception >> ok out) ≡ (if used then ok out else err exception)
finish true out = refl
finish false out = refl

module _ {Location : Type 0} (avb : Avb Location) where
  -- For a vbmeta image that parses, whose flags are 0 or are to be cleared, in which no partition
  -- has two chain descriptors or two hash or hashtree descriptors, and for given overrides and a
  -- known algorithm, `patch_vbmeta_image` makes an image of the descriptors in their order, where a
  -- chain descriptor has the public key that is given for its partition, and a given descriptor
  -- stands in place of the hash or hashtree descriptor of its partition, with flags 0, and with
  -- SHA256_RSA4096 for SHA256_RSA2048 and any other algorithm as it is; it raises exactly if an
  -- override has no descriptor to replace.
  pub patch_vbmeta_image_lem :
      (images : List (Bytes × Location)) (input_path : Location) (clear_flags : Bool)
      (image : Image) (keys : List (Bytes × Bytes)) (descriptors : List (Bytes × Descriptor))
      (name : Bytes)
      → avb.parse_image input_path ≡ ok image
      → (clear_flags ≡ true) ⊎ (image.header.flags ≡ 0)
      → get_descriptor_overrides avb images ≡ ok (keys, descriptors)
      → avb.algorithm_name image.header.algorithm_type ≡ ok name
      → AreDistinct (chained image.descriptors)
      → AreDistinct (hashed image.descriptors)
      → patch_vbmeta_image avb images input_path clear_flags ≡ (
          if all_used image.descriptors (keys, descriptors)
          then ok (record {
            algorithm_name =
                if bytes_eq name (codes "SHA256_RSA2048") then codes "SHA256_RSA4096" else name;
            rollback_index = image.header.rollback_index;
            flags = 0;
            rollback_index_location = image.header.rollback_index_location;
            kernel_cmdlines = map (overridden (keys, descriptors)) image.descriptors;
            release_string = image.header.release_string;
          })
          else err exception)
  unfolding patch_vbmeta_image check_unused upgrade_algorithm
  patch_vbmeta_image_lem images input_path clear_flags image keys descriptors name parsed flags
        overrides algorithm cs hs =
      rw
        (
          parsed,
          check_flags_lem clear_flags image.header flags,
          overrides,
          patch_descriptors-map image.descriptors keys descriptors cs hs,
          is_empty-without_all (chained image.descriptors) keys,
          is_empty-without_all (hashed image.descriptors) descriptors,
          algorithm,
        )
        (finish (all_used image.descriptors (keys, descriptors)) _)
