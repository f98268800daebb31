-- ===== src/Boot/Ramdisk/Laws.antt =====
-- A ramdisk that is saved and loaded.
use avbroot.Prelude.{
  ◌+◌, ◌<◌, ◌^◌, ◌≡◌, refl, sym, ap, ◌∙◌, Bool, true, false, some, List, [], ◌∷◌, length, map, All,
  append-nil,
}
use avbroot.Result.{Result, ok, err, ◌>>=◌}
use avbroot.Stream.{Bytes, InFile}
use avbroot.Cpio.Entry.{CpioEntry}
use avbroot.Cpio.Archive.{clear_inode, sort_entries, first_inode, save, load}
use avbroot.Cpio.Archive.RoundTrip.{IsSavable, load-save}
use avbroot.Compression.Lz4.{Lz4Block}
use avbroot.Compression.Auto.{Gzip, Format, Sink, open_sink, write_sink, close_sink}
use avbroot.Compression.Auto.RoundTrip.{write_sinks, compressed_file_round_trip}
use avbroot.Boot.Ramdisk.{can_seek, load_ramdisk, save_ramdisk}

module _ (zip : Gzip) (lz4 : Lz4Block) where
  last-ok :
      (w : Result Sink) → (w >>= (λ v. ok v) >>= close_sink zip lz4) ≡ (w >>= close_sink zip lz4)
  last-ok (ok v) = refl
  last-ok (err e) = refl

  one_piece :
      (archive : Bytes) (opened : Result Sink)
      → (opened >>= write_sinks zip lz4 (archive ∷ []) >>= close_sink zip lz4)
        ≡ (opened >>= λ s. write_sink zip lz4 archive s >>= close_sink zip lz4)
  one_piece archive (ok s) = last-ok (write_sink zip lz4 archive s)
  one_piece archive (err e) = refl

  loads :
      (es : List CpioEntry) (seekable : Bool) (archive : Bytes)
      → All IsSavable es
      → first_inode + length es < 2 ^ 32
      → save es true false [] ≡ ok archive
      → (f : InFile) × (load false true (record { bytes = archive; pos = 0; seekable = seekable })
          ≡ ok (map clear_inode (sort_entries es), f))
  loads es seekable archive ss room saved =
      let (a, saved_a, loaded) = load-save es seekable ss room in
      let same : a ≡ archive = cc in
      (
        record { bytes = a; pos = 0 + length a; seekable = seekable },
        ap (λ b. load false true (record { bytes = b; pos = 0; seekable = seekable })) (sym same)
            ∙ loaded,
      )

  -- Fewer than 2^32 - 300000 savable entries are saved as a ramdisk in either format, and the
  -- ramdisk loads as the entries sorted by name, with cleared inode numbers, and that format.
  pub load_ramdisk-save_ramdisk :
      (es : List CpioEntry) (format : Format)
      → All IsSavable es
      → first_inode + length es < 2 ^ 32
      → (ramdisk : Bytes) × (save_ramdisk zip lz4 es (some format) ≡ ok ramdisk)
        × (load_ramdisk zip lz4 ramdisk ≡ ok (map clear_inode (sort_entries es), some format))
  unfolding load_ramdisk save_ramdisk
  load_ramdisk-save_ramdisk es format ss room =
      let (archive, saved, unused) = load-save es true ss room in
      let (out, written, (source, opened, content)) =
        compressed_file_round_trip zip lz4 format (archive ∷ []) false true in
      let (f, loaded) = loads es (can_seek source) archive ss room saved in
      (
        out,
        rw saved (sym (one_piece archive (open_sink (some format) false [])) ∙ written),
        rw (opened, content, append-nil archive, loaded) refl,
      )
