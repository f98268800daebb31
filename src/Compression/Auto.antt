-- ===== src/Compression/Auto.antt =====
-- avbroot/formats/compression.py, `Format` and `CompressedFile`: a file compressed in a format that is
-- given, or found by the magic in front. Python's gzip module is a parameter.
pub mod RoundTrip
use avbroot.Prelude.{
  ◌≡◌, ℕ, Bool, true, false, Option, none, some, List, [], ◌∷◌, ◌++◌, length, take, drop,
  if◌then◌else◌,
}
use avbroot.Prelude.Text.{bytes_eq}
use avbroot.Result.{Result, ok, err, value_error, attribute_error, ◌>>=◌}
use avbroot.Stream.{Bytes, InFile, read}
use avbroot.Compression.Lz4.{
  magic, Lz4Block, Reader, Writer, open_read, open_write, read_plain, write_plain, close_write,
}

abbrev pub gzip_magic : Bytes
gzip_magic = 0x1f ∷ 0x8b ∷ []

-- The file that a closed `gzip.GzipFile(mode='wb', mtime=0)` has written, and what one of mode 'rb'
-- reads to the end. The laws are those of the package: what was written is read again, and RFC 1952's
-- magic stands in front.
pub record Gzip : Type 0 where
  pub compress : Bytes → Bytes
  pub decompress : Bytes → Result Bytes
  pub decompress-compress : (content : Bytes) → decompress (compress content) ≡ ok content
  pub compress_magic : (content : Bytes) → (rest : Bytes) × (compress content ≡ gzip_magic ++ rest)

pub data Format : Type 0 where
  gzip lz4_legacy : Format

-- `max(len(m) for m in _MAGIC_TO_FORMAT)`
abbrev pub magic_max_size : ℕ
magic_max_size = 4

abbrev pub starts_with : Bytes → Bytes → Bool
starts_with m found = bytes_eq (take (length m) found) m

-- The loop over `_MAGIC_TO_FORMAT`.
unfoldable pub format_of : Bytes → Option Format
format_of found =
    if starts_with gzip_magic found
    then some gzip
    else if starts_with magic found
    then some lz4_legacy
    else none

-- The object's `fp` in mode 'rb', by the object that is behind it.
pub data Source : Type 0 where
  gzip_source : InFile → Source
  lz4_source : Reader → Source
  raw_source : InFile → Source

unfoldable pub make_source : Option Format → Bool → InFile → Result (Source × Option Format)
make_source (some gzip) raw_if_unknown f = ok (gzip_source f, some gzip)
make_source (some lz4_legacy) raw_if_unknown f =
    open_read f >>= λ r. ok (lz4_source r, some lz4_legacy)
make_source none raw_if_unknown f =
    if raw_if_unknown then ok (raw_source f, none) else err value_error

-- `fp.read(_MAGIC_MAX_SIZE)`, `fp.seek(0)`, which a file may not have, and the choice of the format.
unfoldable pub detect_source : Bool → Result (Bytes × InFile) → Result (Source × Option Format)
detect_source raw_if_unknown (err e) = err e
detect_source raw_if_unknown (ok (found, f)) =
    let source = make_source (format_of found) raw_if_unknown (record f { pos = 0 }) in
    if f.seekable then source else err attribute_error

-- `CompressedFile(fp, 'rb', format, raw_if_unknown)`
unfoldable pub open_source : Option Format → Bool → InFile → Result (Source × Option Format)
open_source (some format) raw_if_unknown f = make_source (some format) raw_if_unknown f
open_source none raw_if_unknown f = detect_source raw_if_unknown (read magic_max_size f)

-- The object's `fp` in mode 'wb'. `GzipFile` has its file and the content so far.
pub data Sink : Type 0 where
  gzip_sink : Bytes → Bytes → Sink
  lz4_sink : Writer → Sink
  raw_sink : Bytes → Sink

-- `CompressedFile(fp, 'wb', format, raw_if_unknown)`
unfoldable pub open_sink : Option Format → Bool → Bytes → Result Sink
open_sink (some gzip) raw_if_unknown out = ok (gzip_sink out [])
open_sink (some lz4_legacy) raw_if_unknown out = ok (lz4_sink (open_write out))
open_sink none raw_if_unknown out = if raw_if_unknown then ok (raw_sink out) else err value_error

module _ (zip : Gzip) (lz4 : Lz4Block) where
  -- `read()` of a new object, from the position of its file.
  unfoldable pub read_source : Source → Result Bytes
  read_source (gzip_source f) = zip.decompress (drop f.pos f.bytes)
  read_source (lz4_source r) = read_plain lz4 none r >>= λ (content, rest). ok content
  read_source (raw_source f) = ok (drop f.pos f.bytes)

  -- `write(data)`
  unfoldable pub write_sink : Bytes → Sink → Result Sink
  write_sink part (gzip_sink out content) = ok (gzip_sink out (content ++ part))
  write_sink part (lz4_sink w) = write_plain lz4 part w >>= λ v. ok (lz4_sink v)
  write_sink part (raw_sink out) = ok (raw_sink (out ++ part))

  -- `__exit__`, which leaves what the file holds.
  unfoldable pub close_sink : Sink → Result Bytes
  close_sink (gzip_sink out content) = ok (out ++ zip.compress content)
  close_sink (lz4_sink w) = close_write lz4 w >>= λ v. ok v.fp
  close_sink (raw_sink out) = ok out
