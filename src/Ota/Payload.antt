-- ===== src/Ota/Payload.antt =====
-- avbroot/ota.py: the blob of a payload, `_recompute_offsets` and the loop of `patch_payload` that
-- writes the new blob. The manifest is a protobuf object: the fields that the code reads or sets are
-- records, and the others stay as they are. An image is opened by its path, so what a path's file
-- holds is a parameter.
pub mod Laws
use avbroot.Prelude.{ℕ, ◌+◌, Bool, true, Option, none, some, List, [], ◌∷◌, ◌++◌}
use avbroot.Result.{Result, ok, err, ◌>>=◌}
use avbroot.Stream.{Bytes, InFile}
use avbroot.Util.{copyfileobj_n}

-- What the code uses of a protobuf `InstallOperation`. Its numbers are 64 bits wide there: where an offset
-- would not fit, protobuf raises, and here it is a natural number.
pub record Operation : Type 0 where
  pub data_offset : ℕ
  pub data_length : ℕ

pub record Partition : Type 0 where
  pub partition_name : Bytes
  pub operations : List Operation

-- An entry of `data_list`: the image file, if any, the offset in it or in the original blob, the size.
pub record Blob (Image : Type 0) : Type 0 where
  pub image_file : Option Image
  pub data_offset : ℕ
  pub data_length : ℕ

-- What a loop has appended to `data_list`, what it has changed, and `offset` behind it.
pub record Laid (Image A : Type 0) : Type 0 where
  pub data_list : List (Blob Image)
  pub changed : List A
  pub offset : ℕ

module _ {Image : Type 0} where
  unfoldable pub blob_of : Option Image → ℕ → Operation → Blob Image
  blob_of none p_offset op = record {
    image_file = none;
    data_offset = op.data_offset;
    data_length = op.data_length;
  }
  blob_of (some image) p_offset op = record {
    image_file = some image;
    data_offset = p_offset;
    data_length = op.data_length;
  }

  abbrev pub prepend : {A : Type 0} → List (Blob Image) → A → Laid Image A → Laid Image A
  prepend blobs a r = record {
    data_list = blobs ++ r.data_list;
    changed = a ∷ r.changed;
    offset = r.offset;
  }

  -- `for op in p.operations`
  unfoldable pub recompute_operations : Option Image → ℕ → ℕ → List Operation → Laid Image Operation
  recompute_operations image p_offset offset [] = record {
    data_list = [];
    changed = [];
    offset = offset;
  }
  recompute_operations image p_offset offset (op ∷ ops) =
      prepend (blob_of image p_offset op ∷ []) (record op { data_offset = offset })
        (recompute_operations image (p_offset + op.data_length) (offset + op.data_length) ops)

  -- `for p in manifest.partitions`; `new_images` is the dictionary of the patched images.
  unfoldable pub recompute_partitions :
      (Bytes → Option Image) → ℕ → List Partition → Laid Image Partition
  recompute_partitions new_images offset [] = record {
    data_list = [];
    changed = [];
    offset = offset;
  }
  recompute_partitions new_images offset (p ∷ ps) =
      let r = recompute_operations (new_images p.partition_name) 0 offset p.operations in
      prepend r.data_list (record p { operations = r.changed })
        (recompute_partitions new_images r.offset ps)

  unfoldable pub recompute_offsets : (Bytes → Option Image) → List Partition → Laid Image Partition
  recompute_offsets new_images partitions = recompute_partitions new_images 0 partitions

  -- "Write new blob": the payload's bytes, where its blob begins, and the images' bytes. Every copy
  -- starts with a seek, so the position of the payload's file between two copies does not matter.
  module _ {H : Type 0} (update : H → Bytes → H) (original : Bytes) (blob_offset : ℕ)
      (contents : Image → Bytes) where
    abbrev pub opened : Blob Image → InFile
    opened b = elim b.image_file [
      | none ↦ record { bytes = original; pos = blob_offset + b.data_offset; seekable = true }
      | some image ↦ record { bytes = contents image; pos = b.data_offset; seekable = true }
    ]

    unfoldable pub write_blob : Blob Image → H → Bytes → Result (H × Bytes)
    write_blob b h out =
        copyfileobj_n update 16384 b.data_length (opened b) h out >>= λ (f, written). ok written

    unfoldable pub write_blobs : List (Blob Image) → H → Bytes → Result (H × Bytes)
    write_blobs [] h out = ok (h, out)
    write_blobs (b ∷ bs) h out = write_blob b h out >>= λ (k, o). write_blobs bs k o
