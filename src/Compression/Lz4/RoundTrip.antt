-- ===== src/Compression/Lz4/RoundTrip.antt =====
-- The object written in any pieces, closed, opened and read.
use avbroot.Prelude.{◌≡◌, refl, sym, Bool, none, List, [], ◌∷◌, ◌++◌, append_assoc, append-nil}
use mathlib.Core.Path.{subst}
use avbroot.Result.{Result, ok, ◌>>=◌}
use avbroot.Stream.{Bytes, InFile}
use avbroot.Compression.Lz4.{
  magic, Lz4Block, Reader, Writer, open_read, open_write, read_plain, write_plain, close_write,
}
use avbroot.Compression.Lz4.Blocks.{concat}
use avbroot.Compression.Lz4.Writes.{Took, open_write-Took, write_plain-Took, close_write_lem}
use avbroot.Compression.Lz4.ReadLoop.{read_plain-Holds, open_read-Holds}

module _ (lz4 : Lz4Block) where
  -- Calls of `write` one after the other.
  abbrev pub write_parts : List Bytes → Writer → Result Writer
  write_parts [] w = ok w
  write_parts (p ∷ ps) w = write_plain lz4 p w >>= write_parts ps

  write_parts-Took :
      (ps : List Bytes) (w : Writer) (content : Bytes)
      → Took lz4 [] w content
      → (v : Writer) × (write_parts ps w ≡ ok v) × Took lz4 [] v (content ++ concat ps)
  write_parts-Took [] w content t = (w, refl, subst (Took lz4 [] w) (sym (append-nil content)) t)
  write_parts-Took (p ∷ ps) w content t =
      let (v, written, took) = write_plain-Took lz4 [] p w content t in
      let (u, rest, done) = write_parts-Took ps v (content ++ p) took in
      (u, rw written rest, subst (Took lz4 [] u) (append_assoc content p (concat ps)) done)

  -- The same as below, with what the file begins with and the object that opening it makes.
  pub lz4_legacy_opened :
      (ps : List Bytes) (seekable : Bool)
      → (w : Writer) × (stream : Bytes) × ((write_parts ps (open_write []) >>= close_write lz4)
          ≡ ok w)
        × (w.fp ≡ magic ++ stream)
        × (r : Reader) × (u : Reader) × (open_read
              (record { bytes = w.fp; pos = 0; seekable = seekable })
            ≡ ok r)
        × (read_plain lz4 none r ≡ ok (concat ps, u))
  lz4_legacy_opened ps seekable =
      let (v, written, took) = write_parts-Took ps (open_write []) [] (open_write-Took lz4 []) in
      let (stream, closed, s) = close_write_lem lz4 [] v (concat ps) took in
      let f : InFile = record { bytes = magic ++ stream; pos = 0; seekable = seekable } in
      let (r, opened, held) = open_read-Holds lz4 f stream (concat ps) refl s in
      let (u, got, done) = read_plain-Holds lz4 none r (concat ps) held in
      (
        record v { fp = magic ++ stream; wblock = [] },
        stream,
        rw written closed,
        refl,
        r,
        u,
        opened,
        got,
      )

  -- What is written to a `Lz4Legacy` object, in pieces of any number and sizes, and closed, is read
  -- back in whole by a new object of the file, if lz4 decompresses what it has compressed and keeps
  -- its bound on the compressed size.
  pub lz4_legacy_round_trip :
      (ps : List Bytes) (seekable : Bool)
      → (w : Writer) × ((write_parts ps (open_write []) >>= close_write lz4) ≡ ok w)
        × ((r : Reader) × ((open_read (record { bytes = w.fp; pos = 0; seekable = seekable })
                >>= read_plain lz4 none)
              ≡ ok (concat ps, r)))
  lz4_legacy_round_trip ps seekable =
      let (w, stream, closed, e, r, u, opened, got) = lz4_legacy_opened ps seekable in
      (w, closed, (u, rw opened got))
