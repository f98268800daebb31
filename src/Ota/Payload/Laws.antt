-- ===== src/Ota/Payload/Laws.antt =====
-- The new blob, and that the new offsets find the old data in it.
use avbroot.Prelude.{
  ℕ, ◌+◌, ◌≤◌, ◌≡◌, refl, sym, ap, ◌∙◌, true, Option, none, some, List, [], ◌∷◌, ◌++◌, length, take,
  drop, leb, arith, append_assoc, append-nil, length-append, length-take, take_front, drop_front,
}
use avbroot.Result.{Result, ok, err, ◌>>=◌}
use avbroot.Stream.{Bytes, InFile}
use avbroot.Util.{copyfileobj_n}
use avbroot.Util.Copy.{copyfileobj_n_lem}
use avbroot.Ota.Payload.{
  Operation, Partition, Blob, blob_of, recompute_operations, recompute_partitions,
  recompute_offsets, write_blob, write_blobs,
}

module _ {Image H : Type 0} (update : H → Bytes → H)
    (update-append : (h : H) (c d : Bytes) → update (update h c) d ≡ update h (c ++ d))
    (update-nil : (h : H) → update h [] ≡ h) (original : Bytes) (blob_offset : ℕ)
    (contents : Image → Bytes) (new_images : Bytes → Option Image) where
  -- Where an operation's data begins, and in what: the image, or the original payload.
  abbrev source : Option Image → ℕ → Operation → Bytes
  source none p_offset op = drop (blob_offset + op.data_offset) original
  source (some image) p_offset op = drop p_offset (contents image)

  -- The data of an operation.
  abbrev piece : Option Image → ℕ → Operation → Bytes
  piece image p_offset op = take op.data_length (source image p_offset op)

  -- The source holds all the data that the operations refer to.
  abbrev AreThere : Option Image → ℕ → List Operation → Type 0
  AreThere image p_offset [] = Unit
  AreThere image p_offset (op ∷ ops) =
      (op.data_length ≤ length (source image p_offset op))
      × AreThere image (p_offset + op.data_length) ops

  abbrev pub HasData : List Partition → Type 0
  HasData [] = Unit
  HasData (p ∷ ps) = AreThere (new_images p.partition_name) 0 p.operations × HasData ps

  -- The changed operations find in a blob what the original ones referred to.
  abbrev Find : Bytes → Option Image → ℕ → List Operation → List Operation → Type 0
  Find blob image p_offset [] [] = Unit
  Find blob image p_offset [] (op' ∷ ops') = ⊥
  Find blob image p_offset (op ∷ ops) [] = ⊥
  Find blob image p_offset (op ∷ ops) (op' ∷ ops') =
      (op'.data_length ≡ op.data_length)
      × (take op'.data_length (drop op'.data_offset blob) ≡ piece image p_offset op)
      × Find blob image (p_offset + op.data_length) ops ops'

  abbrev pub FindsData : Bytes → List Partition → List Partition → Type 0
  FindsData blob [] [] = Unit
  FindsData blob [] (p' ∷ ps') = ⊥
  FindsData blob (p ∷ ps) [] = ⊥
  FindsData blob (p ∷ ps) (p' ∷ ps') =
      (p'.partition_name ≡ p.partition_name)
      × Find blob (new_images p.partition_name) 0 p.operations p'.operations
      × FindsData blob ps ps'

  operations_bytes : Option Image → ℕ → List Operation → Bytes
  operations_bytes image p_offset [] = []
  operations_bytes image p_offset (op ∷ ops) =
      piece image p_offset op ++ operations_bytes image (p_offset + op.data_length) ops

  partitions_bytes : List Partition → Bytes
  partitions_bytes [] = []
  partitions_bytes (p ∷ ps) =
      operations_bytes (new_images p.partition_name) 0 p.operations ++ partitions_bytes ps

  abbrev written : Bytes → H → Bytes → Result (H × Bytes)
  written blob h out = ok (update h blob, out ++ blob)

  writes_nothing : (h : H) (out : Bytes) → ok (h, out) ≡ written [] h out
  writes_nothing h out = sym (rw (update-nil h, append-nil out) refl)

  written_twice :
      (c d : Bytes) (h : H) (out : Bytes)
      → written d (update h c) (out ++ c) ≡ written (c ++ d) h out
  written_twice c d h out = rw (update-append h c d, append_assoc out c d) refl

  copy_there :
      (n : ℕ) (f : InFile) (h : H) (out : Bytes)
      → n ≤ length (drop f.pos f.bytes)
      → (copyfileobj_n update 16384 n f h out >>= λ (g, w). ok w)
        ≡ written (take n (drop f.pos f.bytes)) h out
  copy_there n f h out there =
      let enough : leb n (length (drop f.pos f.bytes)) ≡ true = ground arith in
      rw (copyfileobj_n_lem update update-append update-nil 16384 n f h out (omega arith), enough)
        refl

  write_one :
      (image : Option Image) (p_offset : ℕ) (op : Operation) (h : H) (out : Bytes)
      → op.data_length ≤ length (source image p_offset op)
      → write_blob update original blob_offset contents (blob_of image p_offset op) h out
        ≡ written (piece image p_offset op) h out
  unfolding write_blob blob_of
  write_one none p_offset op h out there = copy_there op.data_length _ h out there
  write_one (some image) p_offset op h out there = copy_there op.data_length _ h out there

  abbrev write_all : List (Blob Image) → H → Bytes → Result (H × Bytes)
  write_all = write_blobs update original blob_offset contents

  abbrev and_then : Result (H × Bytes) → List (Blob Image) → Result (H × Bytes)
  and_then r bs = r >>= λ (k, o). write_all bs k o

  write-append_from :
      (bs cs : List (Blob Image))
      → ((h : H) (out : Bytes) → write_all (bs ++ cs) h out ≡ and_then (write_all bs h out) cs)
      → (r : Result (H × Bytes)) → and_then r (bs ++ cs) ≡ and_then (and_then r bs) cs
  write-append_from bs cs ih (ok (k, o)) = ih k o
  write-append_from bs cs ih (err e) = refl

  write-append :
      (bs cs : List (Blob Image)) (h : H) (out : Bytes)
      → write_all (bs ++ cs) h out ≡ and_then (write_all bs h out) cs
  unfolding write_blobs
  write-append [] cs h out = refl
  write-append (b ∷ bs) cs h out =
      write-append_from bs cs (write-append bs cs)
        (write_blob update original blob_offset contents b h out)

  write_operations :
      (image : Option Image) (p_offset offset : ℕ) (ops : List Operation) (h : H) (out : Bytes)
      → AreThere image p_offset ops
      → write_all (recompute_operations image p_offset offset ops).data_list h out
        ≡ written (operations_bytes image p_offset ops) h out
  unfolding write_blobs recompute_operations operations_bytes
  write_operations image p_offset offset [] h out there = writes_nothing h out
  write_operations image p_offset offset (op ∷ ops) h out (one, more) =
      ap
        (λ r.
          and_then r
            (recompute_operations image (p_offset + op.data_length) (offset + op.data_length)
              ops).data_list)
        (write_one image p_offset op h out one)
      ∙ write_operations image (p_offset + op.data_length) (offset + op.data_length) ops _ _ more
      ∙ written_twice (piece image p_offset op) _ h out

  write_partitions :
      (offset : ℕ) (ps : List Partition) (h : H) (out : Bytes)
      → HasData ps
      → write_all (recompute_partitions new_images offset ps).data_list h out
        ≡ written (partitions_bytes ps) h out
  unfolding write_blobs recompute_partitions partitions_bytes
  write_partitions offset [] h out there = writes_nothing h out
  write_partitions offset (p ∷ ps) h out (one, more) =
      let image = new_images p.partition_name in
      let r = recompute_operations image 0 offset p.operations in
      write-append r.data_list (recompute_partitions new_images r.offset ps).data_list h out
      ∙ ap (λ x. and_then x (recompute_partitions new_images r.offset ps).data_list)
          (write_operations image 0 offset p.operations h out one)
      ∙ write_partitions r.offset ps _ _ more
      ∙ written_twice (operations_bytes image 0 p.operations) _ h out

  offset_operations :
      (image : Option Image) (p_offset offset : ℕ) (ops : List Operation)
      → AreThere image p_offset ops
      → (recompute_operations image p_offset offset ops).offset
        ≡ offset + length (operations_bytes image p_offset ops)
  unfolding recompute_operations operations_bytes
  offset_operations image p_offset offset [] there = omega arith
  offset_operations image p_offset offset (op ∷ ops) (one, more) =
      let chunk = piece image p_offset op in
      let rest = operations_bytes image (p_offset + op.data_length) ops in
      omega (
        arith,
        offset_operations image (p_offset + op.data_length) (offset + op.data_length) ops more,
        length-append chunk rest,
        length-take op.data_length (source image p_offset op),
      )

  offset_partitions :
      (offset : ℕ) (ps : List Partition)
      → HasData ps
      → (recompute_partitions new_images offset ps).offset ≡ offset + length (partitions_bytes ps)
  unfolding recompute_partitions partitions_bytes
  offset_partitions offset [] there = omega arith
  offset_partitions offset (p ∷ ps) (one, more) =
      let image = new_images p.partition_name in
      let chunk = operations_bytes image 0 p.operations in
      let r = recompute_operations image 0 offset p.operations in
      omega (
        arith,
        offset_operations image 0 offset p.operations one,
        offset_partitions r.offset ps more,
        length-append chunk (partitions_bytes ps),
      )

  -- The data at its place in a blob.
  find_piece :
      (front chunk behind blob : Bytes) (n offset : ℕ)
      → blob ≡ front ++ (chunk ++ behind)
      → length front ≡ offset
      → length chunk ≡ n
      → take n (drop offset blob) ≡ chunk
  find_piece front chunk behind blob n offset e at size =
      rw (e, ← at, ← size, drop_front front (chunk ++ behind)) (take_front chunk behind)

  Find-operations :
      (image : Option Image) (p_offset offset : ℕ) (ops : List Operation) (front behind : Bytes)
      → length front ≡ offset
      → AreThere image p_offset ops
      → (blob : Bytes) → blob ≡ front ++ (operations_bytes image p_offset ops ++ behind)
      → Find blob image p_offset ops (recompute_operations image p_offset offset ops).changed
  unfolding recompute_operations operations_bytes
  Find-operations image p_offset offset [] front behind at there blob e = tt
  Find-operations image p_offset offset (op ∷ ops) front behind at (one, more) blob e =
      let chunk = piece image p_offset op in
      let rest = operations_bytes image (p_offset + op.data_length) ops in
      let size : length chunk ≡ op.data_length =
        omega (arith, length-take op.data_length (source image p_offset op)) in
      let split : blob ≡ front ++ (chunk ++ (rest ++ behind)) =
        e ∙ ap (λ t. front ++ t) (append_assoc chunk rest behind) in
      (
        refl,
        find_piece front chunk (rest ++ behind) blob op.data_length offset split at size,
        Find-operations image (p_offset + op.data_length) (offset + op.data_length) ops
            (front ++ chunk) behind (omega (arith, length-append front chunk)) more blob
            (split ∙ sym (append_assoc front chunk (rest ++ behind))),
      )

  find_partitions :
      (offset : ℕ) (ps : List Partition) (front : Bytes)
      → length front ≡ offset
      → HasData ps
      → (blob : Bytes) → blob ≡ front ++ partitions_bytes ps
      → FindsData blob ps (recompute_partitions new_images offset ps).changed
  unfolding recompute_partitions partitions_bytes
  find_partitions offset [] front at there blob e = tt
  find_partitions offset (p ∷ ps) front at (one, more) blob e =
      let image = new_images p.partition_name in
      let chunk = operations_bytes image 0 p.operations in
      let r = recompute_operations image 0 offset p.operations in
      (
        refl,
        Find-operations image 0 offset p.operations front (partitions_bytes ps) at one blob e,
        find_partitions r.offset ps (front ++ chunk)
            (omega
              (arith, length-append front chunk, offset_operations image 0 offset p.operations one))
            more blob (e ∙ sym (append_assoc front chunk (partitions_bytes ps))),
      )

  -- For a manifest whose operations refer to data that the original payload and the new images hold,
  -- and a hasher that takes its data in any number of pieces, the loop of `patch_payload` over what
  -- `_recompute_offsets` returns succeeds and appends and hashes one blob, of the size that is
  -- returned with it; every operation of the changed manifest keeps its length and finds in the
  -- blob, at its new offset, the bytes that it referred to: the next ones of the partition's new
  -- image, or those of the original blob.
  pub recompute_offsets-FindsData :
      (ps : List Partition) (h : H) (out : Bytes)
      → HasData ps
      → (blob : Bytes) × (write_blobs update original blob_offset contents
            (recompute_offsets new_images ps).data_list
            h
            out
          ≡ ok (update h blob, out ++ blob))
        × (length blob ≡ (recompute_offsets new_images ps).offset)
        × FindsData blob ps (recompute_offsets new_images ps).changed
  unfolding recompute_offsets
  recompute_offsets-FindsData ps h out there = (
    partitions_bytes ps,
    write_partitions 0 ps h out there,
    omega (arith, offset_partitions 0 ps there),
    find_partitions 0 ps [] refl there (partitions_bytes ps) refl,
  )
