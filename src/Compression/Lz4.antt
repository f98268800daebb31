-- ===== src/Compression/Lz4.antt =====
-- avbroot/formats/compression.py, `Lz4Legacy`: a stream of blocks, as an object that is read or
-- written. The two functions of the lz4 package are parameters.
pub mod Blocks
pub mod Writes
pub mod Reads
pub mod ReadLoop
pub mod RoundTrip
use avbroot.Prelude.{
  ◌≡◌, ◌≤◌, ◌/◌, ℕ, zero, suc, ◌+◌, ◌-◌, ◌*◌, ◌^◌, min, Bool, true, false, not, ◌&&◌, ◌||◌, Option,
  none, some, List, [], ◌∷◌, ◌++◌, length, take, drop, leb, ltb, ◌==◌, if◌then◌else◌,
}
use avbroot.Prelude.Text.{bytes_eq}
use avbroot.Result.{
  Result, ok, err, eof_error, value_error, overflow_error, assertion_error, out_of_fuel, ◌>>=◌,
  ◌>>◌, guard,
}
use avbroot.Stream.{Bytes, InFile, read, read_exact}
use avbroot.Struct.{to_le, from_le}

abbrev pub magic : Bytes
magic = 0x02 ∷ 0x21 ∷ 0x4c ∷ 0x18 ∷ []

abbrev pub max_block_size : ℕ
max_block_size = 8388608

-- `lz4.block.compress` as it is called, and `lz4.block.decompress` with the size that it may return.
-- The laws are those of the package: what was compressed is decompressed, and the compressed block is
-- not longer than LZ4_compressBound says.
pub record Lz4Block : Type 0 where
  pub compress : Bytes → Bytes
  pub decompress : Bytes → ℕ → Result Bytes
  pub decompress-compress :
      (block : Bytes) (size : ℕ) → length block ≤ size → decompress (compress block) size ≡ ok block
  pub compress_bound :
      (block : Bytes) → length (compress block) ≤ length block + length block / 255 + 16

-- The object in mode 'rb'. The file that it reads is `fp`.
pub record Reader : Type 0 where
  pub fp : InFile
  pub rblock : Bytes
  pub rblock_offset : ℕ
  pub file_offset : ℕ

-- The object in mode 'wb'. What it has written to its file is `fp`.
pub record Writer : Type 0 where
  pub fp : Bytes
  pub wblock : Bytes
  pub file_offset : ℕ

-- `Lz4Legacy(fp, 'rb')`
unfoldable pub open_read : InFile → Result Reader
open_read f = read_exact 4 f >>= λ (found, g).
    guard (bytes_eq found magic) value_error
    >> ok (record { fp = g; rblock = []; rblock_offset = 0; file_offset = 0 })

-- `Lz4Legacy(fp, 'wb')`
unfoldable pub open_write : Bytes → Writer
open_write fp = record { fp = fp ++ magic; wblock = []; file_offset = 0 }

-- `size is None or size > 0`
abbrev pub wants_more : Option ℕ → Bool
wants_more none = true
wants_more (some n) = ltb 0 n

abbrev pub at_most : Option ℕ → ℕ → ℕ
at_most none to_read = to_read
at_most (some size) to_read = min to_read size

abbrev pub less : Option ℕ → ℕ → Option ℕ
less none to_read = none
less (some size) to_read = some (size - to_read)

abbrev pub advance : Reader → ℕ → Reader
advance r n = record r { rblock_offset = r.rblock_offset + n; file_offset = r.file_offset + n }

abbrev pub extend : Writer → Bytes → Writer
extend w part = record w { wblock = w.wblock ++ part; file_offset = w.file_offset + length part }

-- One round of the loop behind `_read_block`; `again` is the loop with what is left to read.
unfoldable pub take_block :
    Option ℕ
    → Bytes
    → Reader
    → (Option ℕ → Bytes → Reader → Result (Bytes × Reader))
    → Result (Bytes × Reader)
take_block size result r again =
    let left = length r.rblock - r.rblock_offset in
    let to_read = at_most size left in
    let part = take to_read (drop r.rblock_offset r.rblock) in
    let next = again (less size to_read) (result ++ part) (advance r to_read) in
    if left == 0 then ok (result, r) else next

module _ (lz4 : Lz4Block) where
  open lz4 use {compress, decompress}

  -- A block behind the four bytes of its size.
  unfoldable pub next_block : Reader → Bytes → InFile → Result Reader
  next_block r size_raw f =
      guard (length size_raw == 4) eof_error
      >> (read_exact (from_le size_raw) f >>= λ (compressed, g).
          decompress compressed max_block_size >>= λ block.
          ok (record r { fp = g; rblock = block; rblock_offset = 0 }))

  -- `_read_block`, once four bytes or less are read.
  unfoldable pub read_size : Reader → Result (Bytes × InFile) → Result Reader
  read_size r (err e) = err e
  read_size r (ok (size_raw, f)) =
      if length size_raw == 0 || bytes_eq size_raw magic
      then ok (record r { fp = f; rblock = []; rblock_offset = 0 })
      else next_block r size_raw f

  unfoldable pub read_block : Reader → Result Reader
  read_block r = if ltb r.rblock_offset (length r.rblock) then ok r else read_size r (read 4 r.fp)

  unfoldable pub read_loop : ℕ → Option ℕ → Bytes → Reader → Result (Bytes × Reader)
  read_loop zero size result r = if wants_more size then err out_of_fuel else ok (result, r)
  read_loop (suc fuel) size result r =
      let more = read_block r >>= λ s. take_block size result s (read_loop fuel) in
      if wants_more size then more else ok (result, r)

  -- Each round but the first and the last takes a block from the file, so the file's length and two
  -- more is fuel enough.
  unfoldable pub read_plain : Option ℕ → Reader → Result (Bytes × Reader)
  read_plain size r = read_loop (length r.fp.bytes + 2) size [] r

  -- `self.fp.write(len(compressed).to_bytes(4, 'little'))`, which raises for a length of more bytes.
  unfoldable pub flush_block : Writer → Result Writer
  flush_block w =
      let compressed = compress w.wblock in
      guard (ltb (length compressed) (2 ^ 32)) overflow_error
      >> ok (record w { fp = w.fp ++ (to_le 4 (length compressed) ++ compressed); wblock = [] })

  -- `_write_block`
  unfoldable pub write_block : Bool → Writer → Result Writer
  write_block force w =
      if not force && ltb (length w.wblock) max_block_size then ok w else flush_block w

  -- The loop of `write`, on what follows the offset.
  unfoldable pub write_loop : ℕ → Bytes → Writer → Result Writer
  write_loop fuel [] w = ok w
  write_loop zero (b ∷ rest) w = err out_of_fuel
  write_loop (suc fuel) (b ∷ rest) w = write_block false w >>= λ v.
      let n = min (max_block_size - length v.wblock) (length (b ∷ rest)) in
      write_loop fuel (drop n (b ∷ rest)) (extend v (take n (b ∷ rest)))

  unfoldable pub write_plain : Bytes → Writer → Result Writer
  write_plain content w = write_loop (length content) content w

  -- `close` in mode 'wb', which is `flush`.
  unfoldable pub close_write : Writer → Result Writer
  close_write w = write_block true w
