-- ===== src/Tests/Compressed.antt =====
-- avbroot/formats/compression.py: two pieces, written, closed and read.
use avbroot.Prelude.{◌≡◌, refl, true, false, none, some, List, [], ◌∷◌, ◌++◌, inl, arith}
use avbroot.Result.{ok, ◌>>=◌}
use avbroot.Stream.{Bytes, InFile}
use avbroot.Compression.Lz4.{
  Reader, Writer, open_read, open_write, read_plain, write_plain, close_write,
}
use avbroot.Compression.Lz4.Blocks.{concat}
use avbroot.Compression.Lz4.Writes.{Took, open_write-Took, write_plain-Took}
use avbroot.Compression.Lz4.Reads.{Holds, front, behind}
use avbroot.Compression.Lz4.ReadLoop.{read_plain-Holds}
use avbroot.Compression.Lz4.RoundTrip.{write_parts, lz4_legacy_round_trip}
use avbroot.Compression.Auto.{lz4_legacy, Source, open_source, open_sink, read_source, close_sink}
use avbroot.Compression.Auto.RoundTrip.{write_sinks, compressed_file_round_trip}
use avbroot.Tests.Stored.{stored_lz4, stored_gzip}

abbrev pieces : List Bytes
pieces = (1 ∷ 2 ∷ []) ∷ (3 ∷ []) ∷ []

lz4_legacy_round_trip_example :
    (w : Writer) × ((write_parts stored_lz4 pieces (open_write []) >>= close_write stored_lz4)
      ≡ ok w)
    × ((r : Reader) × ((open_read (record { bytes = w.fp; pos = 0; seekable = true })
            >>= read_plain stored_lz4 none)
          ≡ ok (concat pieces, r)))
lz4_legacy_round_trip_example = lz4_legacy_round_trip stored_lz4 pieces true

write_plain-Took_example :
    (v : Writer) × (write_plain stored_lz4 (1 ∷ 2 ∷ []) (open_write []) ≡ ok v)
    × Took stored_lz4 [] v ([] ++ (1 ∷ 2 ∷ []))
write_plain-Took_example =
    write_plain-Took stored_lz4 [] (1 ∷ 2 ∷ []) (open_write []) [] (open_write-Took stored_lz4 [])

-- A reader that has read the first of the three bytes of its only block.
abbrev half_read : Reader
half_read = record {
  fp = record { bytes = []; pos = 0; seekable = true };
  rblock = 1 ∷ 2 ∷ 3 ∷ [];
  rblock_offset = 1;
  file_offset = 1;
}

half_read-Holds : Holds stored_lz4 half_read (2 ∷ 3 ∷ [])
half_read-Holds = record {
  blocks = [];
  are_blocks = tt;
  tail = [];
  ending = inl refl;
  in_file = refl;
  inside = omega arith;
  holds = refl;
}

read_plain-Holds_example :
    (s : Reader) × (read_plain stored_lz4 (some 1) half_read ≡ ok (front (some 1) (2 ∷ 3 ∷ []), s))
    × Holds stored_lz4 s (behind (some 1) (2 ∷ 3 ∷ []))
read_plain-Holds_example =
    read_plain-Holds stored_lz4 (some 1) half_read (2 ∷ 3 ∷ []) half_read-Holds

compressed_file_round_trip_example :
    (out : Bytes) × ((open_sink (some lz4_legacy) false []
        >>= write_sinks stored_gzip stored_lz4 pieces
        >>= close_sink stored_gzip stored_lz4)
      ≡ ok out)
    × ((source : Source) × (open_source none false
            (record { bytes = out; pos = 0; seekable = true })
          ≡ ok (source, some lz4_legacy))
        × (read_source stored_gzip stored_lz4 source ≡ ok (concat pieces)))
compressed_file_round_trip_example =
    compressed_file_round_trip stored_gzip stored_lz4 lz4_legacy pieces false true

abbrev plain_file : InFile
plain_file = record { bytes = 1 ∷ 2 ∷ 3 ∷ []; pos = 0; seekable = true }
