-- ===== src/Tests/Stored.antt =====
-- Concrete functions in place of the compression packages: they store what they are given.
use avbroot.Prelude.{◌≡◌, ◌≤◌, ◌+◌, ◌/◌, ℕ, refl, ◌++◌, length, drop, leb, arith, if◌then◌else◌}
use avbroot.Result.{ok, err, codec_error}
use avbroot.Stream.{Bytes}
use avbroot.Compression.Lz4.{Lz4Block}
use avbroot.Compression.Auto.{Gzip, gzip_magic}

pub stored :
    (block : Bytes) (size : ℕ)
    → length block ≤ size
    → (if leb (length block) size then ok block else err codec_error) ≡ ok block
stored block size h = ground arith

pub stored_bound : (block : Bytes) → length block ≤ length block + length block / 255 + 16
stored_bound block = omega arith

abbrev pub stored_lz4 : Lz4Block
stored_lz4 = record {
  compress = λ block. block;
  decompress = λ block size. if leb (length block) size then ok block else err codec_error;
  decompress-compress = stored;
  compress_bound = stored_bound;
}

abbrev pub stored_gzip : Gzip
stored_gzip = record {
  compress = λ content. gzip_magic ++ content;
  decompress = λ bytes. ok (drop 2 bytes);
  decompress-compress = λ content. refl;
  compress_magic = λ content. (content, refl);
}
