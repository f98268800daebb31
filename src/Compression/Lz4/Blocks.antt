-- ===== src/Compression/Lz4/Blocks.antt =====
-- The blocks of a stream.
use avbroot.Prelude.{
  ◌⊎◌, ◌≤◌, ◌<◌, ◌≡◌, refl, ap, ◌∙◌, sym, false, List, [], ◌∷◌, ◌++◌, length, All, arith,
  append_assoc, append-nil, Bool-cases, inl, inr,
}
use avbroot.Prelude.Text.{bytes_eq, bytes_eq→eq}
use avbroot.Stream.{Bytes}
use avbroot.Struct.{to_le, from_le}
use avbroot.Struct.Laws.{from_le-to_le}
use avbroot.Compression.Lz4.{magic, max_block_size, Lz4Block}

abbrev pub concat : List Bytes → Bytes
concat [] = []
concat (b ∷ bs) = b ++ concat bs

-- A block that the reader takes for one.
abbrev pub IsBlock : Bytes → Type 0
IsBlock b = (0 < length b) × (length b ≤ max_block_size)

pub concat-snoc : (bs : List Bytes) (b : Bytes) → concat (bs ++ (b ∷ [])) ≡ concat bs ++ b
concat-snoc [] b = append-nil b
concat-snoc (c ∷ bs) b = ap (λ t. c ++ t) (concat-snoc bs b) ∙ sym (append_assoc c (concat bs) b)

from_le-magic : from_le magic ≡ 407642370
unfolding from_le
from_le-magic = refl

module _ (lz4 : Lz4Block) where
  open lz4 use {compress, decompress, compress_bound}

  unfoldable pub block_bytes : Bytes → Bytes
  block_bytes b = to_le 4 (length (compress b)) ++ compress b

  abbrev pub stream_bytes : List Bytes → Bytes
  stream_bytes [] = []
  stream_bytes (b ∷ bs) = block_bytes b ++ stream_bytes bs

  pub stream_bytes-snoc :
      (bs : List Bytes) (b : Bytes)
      → stream_bytes (bs ++ (b ∷ [])) ≡ stream_bytes bs ++ block_bytes b
  stream_bytes-snoc [] b = append-nil (block_bytes b)
  stream_bytes-snoc (c ∷ bs) b =
      ap (λ t. block_bytes c ++ t) (stream_bytes-snoc bs b)
      ∙ sym (append_assoc (block_bytes c) (stream_bytes bs) (block_bytes b))

  -- The compressed size is below the number that the magic is.
  pub compressed_small : (b : Bytes) → length b ≤ max_block_size → length (compress b) < 407642370
  compressed_small b h = omega (arith, compress_bound b)

  pub size-ne-magic :
      (b : Bytes)
      → length b ≤ max_block_size
      → bytes_eq (to_le 4 (length (compress b))) magic ≡ false
  size-ne-magic b h = elim (Bool-cases (bytes_eq (to_le 4 (length (compress b))) magic)) [
    | inr e ↦ e
    | inl e ↦
        let small = compressed_small b h in
        let same : length (compress b) ≡ from_le magic =
          sym (from_le-to_le 4 (length (compress b)) (omega arith))
          ∙ ap from_le (bytes_eq→eq _ magic e) in
        absurd (omega (arith, same ∙ from_le-magic))
  ]

  -- The bytes behind the magic that hold some content: its blocks, and at the end an empty block or
  -- nothing.
  pub record IsStream (stream content : Bytes) : Type 0 where
    pub blocks : List Bytes
    pub are_blocks : All IsBlock blocks
    pub holds : concat blocks ≡ content
    pub ending : (stream ≡ stream_bytes blocks) ⊎ (stream ≡ stream_bytes blocks ++ block_bytes [])
