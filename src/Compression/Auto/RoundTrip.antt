-- ===== src/Compression/Auto/RoundTrip.antt =====
-- A file written in a format, in any pieces, found again by its magic.
use avbroot.Prelude.{
  if◌then◌else◌, ◌≡◌, refl, sym, ap, ◌∙◌, Bool, none, some, List, [], ◌∷◌, ◌++◌, append_assoc,
  append-nil, take,
}
use avbroot.Result.{attribute_error, Result, ok, err, ◌>>=◌}
use avbroot.Prelude.Text.{bytes_eq}
use avbroot.Stream.{Bytes, read}
use avbroot.Compression.Lz4.{
  Lz4Block, Writer, Reader, magic, open_read, open_write, write_plain, close_write,
}
use avbroot.Compression.Lz4.Blocks.{concat}
use avbroot.Compression.Lz4.RoundTrip.{write_parts, lz4_legacy_opened}
use avbroot.Compression.Auto.{
  Gzip, gzip_magic, Format, gzip, lz4_legacy, Source, Sink, gzip_sink, lz4_sink, gzip_source,
  lz4_source, open_source, detect_source, make_source, format_of, open_sink, read_source,
  write_sink, close_sink,
}

module _ (zip : Gzip) (lz4 : Lz4Block) where
  -- Calls of `write` one after the other.
  abbrev pub write_sinks : List Bytes → Sink → Result Sink
  write_sinks [] s = ok s
  write_sinks (p ∷ ps) s = write_sink zip lz4 p s >>= write_sinks ps

  write_sinks-gzip :
      (ps : List Bytes) (out content : Bytes)
      → write_sinks ps (gzip_sink out content) ≡ ok (gzip_sink out (content ++ concat ps))
  unfolding write_sink
  write_sinks-gzip [] out content = ap (λ c. ok (gzip_sink out c)) (sym (append-nil content))
  write_sinks-gzip (p ∷ ps) out content =
      write_sinks-gzip ps out (content ++ p)
      ∙ ap (λ c. ok (gzip_sink out c)) (append_assoc content p (concat ps))

  write_sinks-then :
      (ps : List Bytes) (written : Result Writer)
      → ((w : Writer)
          → write_sinks ps (lz4_sink w) ≡ (write_parts lz4 ps w >>= λ v. ok (lz4_sink v)))
      → (written >>= (λ v. ok (lz4_sink v)) >>= write_sinks ps)
        ≡ (written >>= write_parts lz4 ps >>= λ v. ok (lz4_sink v))
  write_sinks-then ps (ok w) h = h w
  write_sinks-then ps (err e) h = refl

  write_sinks-lz4 :
      (ps : List Bytes) (w : Writer)
      → write_sinks ps (lz4_sink w) ≡ (write_parts lz4 ps w >>= λ v. ok (lz4_sink v))
  unfolding write_sink
  write_sinks-lz4 [] w = refl
  write_sinks-lz4 (p ∷ ps) w = write_sinks-then ps (write_plain lz4 p w) (write_sinks-lz4 ps)

  close-lz4 :
      (written : Result Writer) (w : Writer)
      → (written >>= close_write lz4) ≡ ok w
      → (written >>= (λ v. ok (lz4_sink v)) >>= close_sink zip lz4) ≡ ok w.fp
  unfolding close_sink
  close-lz4 (ok v) w h = rw h refl
  close-lz4 (err e) w h = cc

  open-gzip :
      (b : Bytes) (rest : Bytes) (raw seekable : Bool)
      → b ≡ gzip_magic ++ rest
      → open_source none raw (record { bytes = b; pos = 0; seekable = seekable }) ≡ (
          if seekable
          then ok (gzip_source (record { bytes = b; pos = 0; seekable = seekable }), some gzip)
          else err attribute_error)
  unfolding open_source detect_source make_source format_of bytes_eq read
  open-gzip b rest raw seekable e = rw e refl

  lz4_found : (stream : Bytes) → format_of (take 4 (magic ++ stream)) ≡ some lz4_legacy
  unfolding format_of bytes_eq
  lz4_found stream = refl

  open-lz4 :
      (b : Bytes) (stream : Bytes) (raw seekable : Bool) (r : Reader)
      → b ≡ magic ++ stream
      → open_read (record { bytes = b; pos = 0; seekable = seekable }) ≡ ok r
      → open_source none raw (record { bytes = b; pos = 0; seekable = seekable })
        ≡ (if seekable then ok (lz4_source r, some lz4_legacy) else err attribute_error)
  unfolding open_source detect_source make_source read
  open-lz4 b stream raw seekable r e opened =
      rw (ap (λ c. format_of (take 4 c)) e ∙ lz4_found stream, opened) refl

  -- What is written in any pieces to a `CompressedFile` of either format, and closed, is opened
  -- without a given format as a file of that format, and read back in whole; of a file that has no
  -- `seek`, the opening raises AttributeError.
  pub compressed_file_round_trip :
      (format : Format) (ps : List Bytes) (raw_if_unknown seekable : Bool)
      → (out : Bytes) × ((open_sink (some format) raw_if_unknown []
            >>= write_sinks ps
            >>= close_sink zip lz4)
          ≡ ok out)
        × ((source : Source) × (open_source none raw_if_unknown
                (record { bytes = out; pos = 0; seekable = seekable })
              ≡ (if seekable then ok (source, some format) else err attribute_error))
            × (read_source zip lz4 source ≡ ok (concat ps)))
  unfolding open_sink close_sink read_source
  compressed_file_round_trip gzip ps raw seekable =
      let content = concat ps in
      let (rest, e) = zip.compress_magic content in
      (
        zip.compress content,
        rw (write_sinks-gzip ps [] []) refl,
        (
          gzip_source (record { bytes = zip.compress content; pos = 0; seekable = seekable }),
          open-gzip (zip.compress content) rest raw seekable e,
          zip.decompress-compress content,
        ),
      )
  compressed_file_round_trip lz4_legacy ps raw seekable =
      let (w, stream, closed, e, r, u, opened, got) = lz4_legacy_opened lz4 ps seekable in
      (
        w.fp,
        rw (write_sinks-lz4 ps (open_write []))
            (close-lz4 (write_parts lz4 ps (open_write [])) w closed),
        (lz4_source r, open-lz4 w.fp stream raw seekable r e opened, rw got refl),
      )
