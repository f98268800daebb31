-- ===== src/Vbmeta.antt =====
-- avbroot/vbmeta.py: the descriptors of vbmeta images. avbtool is third-party code: its objects are
-- records of the attributes that the code uses, and its functions are parameters.
pub mod Overrides
pub mod Patch
pub mod Deps
use avbroot.Prelude.{ℕ, List}
use avbroot.Result.{Result}
use avbroot.Stream.{Bytes}

-- The classes of descriptors that the code tells apart, each with the rest of its attributes, encoded.
pub data Descriptor : Type 0 where
  -- partition_name, public_key
  chain_partition : Bytes → Bytes → Bytes → Descriptor
  -- partition_name
  hash : Bytes → Bytes → Descriptor
  hashtree : Bytes → Bytes → Descriptor
  other : Bytes → Descriptor

pub record Header : Type 0 where
  pub public_key_size : ℕ
  pub public_key_offset : ℕ
  pub authentication_data_block_size : ℕ
  pub flags : ℕ
  pub algorithm_type : ℕ
  pub rollback_index : ℕ
  pub rollback_index_location : ℕ
  pub release_string : Bytes

-- What `_parse_image` returns but for the footer, and what `_load_vbmeta_blob` returns.
pub record Image : Type 0 where
  pub header : Header
  pub descriptors : List Descriptor
  pub image_size : ℕ
  pub vbmeta_blob : Bytes

-- `_parse_image` of an `ImageHandler` of the file, `AvbVBMetaHeader.SIZE`, and the name in
-- `lookup_algorithm_by_type(...)`.
pub record Avb (Location : Type 0) : Type 0 where
  pub parse_image : Location → Result Image
  pub header_size : ℕ
  pub algorithm_name : ℕ → Result Bytes
