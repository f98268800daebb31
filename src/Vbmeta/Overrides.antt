-- ===== src/Vbmeta/Overrides.antt =====
-- avbroot/vbmeta.py, `_get_descriptor_overrides`: a signed image gives its public key, and another one
-- the descriptor of itself.
pub mod Laws
use avbroot.Prelude.{
  ℕ, ◌+◌, Bool, true, false, ◌||◌, not, Option, none, some, List, [], ◌∷◌, ◌++◌, take, drop, ◌==◌,
  if◌then◌else◌,
}
use avbroot.Prelude.Text.{bytes_eq}
use avbroot.Prelude.Dict.{lookup}
use avbroot.Result.{Result, ok, err, value_error, ◌>>=◌, ◌>>◌, guard}
use avbroot.Stream.{Bytes}
use avbroot.Vbmeta.{Descriptor, chain_partition, hash, hashtree, other, Header, Image, Avb}

-- The public keys and the descriptors, by partition name.
abbrev pub Overrides : Type 0
Overrides = List (Bytes × Bytes) × List (Bytes × Descriptor)

-- A hash or hashtree descriptor of that partition.
abbrev pub describes : Bytes → Descriptor → Bool
describes name (chain_partition n key rest) = false
describes name (hash n rest) = bytes_eq n name
describes name (hashtree n rest) = bytes_eq n name
describes name (other rest) = false

unfoldable pub find_descriptor : Bytes → List Descriptor → Option Descriptor
find_descriptor name [] = none
find_descriptor name (d ∷ ds) =
    let more = find_descriptor name ds in if describes name d then some d else more

abbrev pub is_some {ℓ} : {A : Type ℓ} → Option A → Bool
is_some none = false
is_some (some a) = true

module _ {Location : Type 0} (avb : Avb Location) where
  -- `blob[offset:offset + header.public_key_size]`
  abbrev pub public_key_of : Image → Bytes
  public_key_of image =
      let h = image.header in
      let offset = avb.header_size + h.authentication_data_block_size + h.public_key_offset in
      take h.public_key_size (drop offset image.vbmeta_blob)

  abbrev pub add_descriptor : Bytes → Overrides → Option Descriptor → Result Overrides
  add_descriptor name (keys, descriptors) none = err value_error
  add_descriptor name (keys, descriptors) (some d) = ok (keys, descriptors ++ ((name, d) ∷ []))

  -- The two branches of the loop's body.
  unfoldable pub add_override : Bytes → Image → Overrides → Result Overrides
  add_override name image (keys, descriptors) =
      if image.header.public_key_size == 0
      then add_descriptor name (keys, descriptors) (find_descriptor name image.descriptors)
      else ok (keys ++ ((name, public_key_of image) ∷ []), descriptors)

  -- The loop, from the overrides so far.
  unfoldable pub overrides_loop : List (Bytes × Location) → Overrides → Result Overrides
  overrides_loop [] (keys, descriptors) = ok (keys, descriptors)
  overrides_loop ((name, path) ∷ images) (keys, descriptors) = avb.parse_image path >>= λ image.
      guard (not (is_some (lookup name keys) || is_some (lookup name descriptors))) value_error
      >> (add_override name image (keys, descriptors) >>= overrides_loop images)

  unfoldable pub get_descriptor_overrides : List (Bytes × Location) → Result Overrides
  get_descriptor_overrides images = overrides_loop images ([], [])
