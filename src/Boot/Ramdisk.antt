-- ===== src/Boot/Ramdisk.antt =====
-- avbroot/boot.py, `_load_ramdisk` and `_save_ramdisk`: the archive in a compressed ramdisk. The
-- compressed file is read in whole in front of the archive, where the code reads as it goes: if both are
-- broken, the exception is the compression's, and a broken block behind the archive's trailer, which the
-- code never reads, is an error here. A ramdisk that loads here loads in the code; `cpio.save` hands its pieces to the compressed file as one.
pub mod Laws
use avbroot.Prelude.{Bool, true, false, Option, none, some, List, []}
use avbroot.Result.{Result, ok, err, ◌>>=◌}
use avbroot.Stream.{Bytes, InFile}
use avbroot.Cpio.Entry.{CpioEntry}
use avbroot.Cpio.Archive.{load, save}
use avbroot.Compression.Lz4.{Lz4Block}
use avbroot.Compression.Auto.{
  Gzip, Format, Source, gzip_source, lz4_source, raw_source, open_source, open_sink, read_source,
  write_sink, close_sink,
}

-- `hasattr(fp, 'seek')`
abbrev pub can_seek : Source → Bool
can_seek (gzip_source f) = true
can_seek (lz4_source r) = false
can_seek (raw_source f) = f.seekable

-- `io.BytesIO(content)`
abbrev pub bytes_io : Bytes → InFile
bytes_io content = record { bytes = content; pos = 0; seekable = true }

module _ (zip : Gzip) (lz4 : Lz4Block) where
  unfoldable pub load_ramdisk : Bytes → Result (List CpioEntry × Option Format)
  load_ramdisk ramdisk = open_source none false (bytes_io ramdisk) >>= λ (source, format).
      read_source zip lz4 source >>= λ content.
      load false true (record { bytes = content; pos = 0; seekable = can_seek source })
      >>= λ (entries, f). ok (entries, format)

  unfoldable pub save_ramdisk : List CpioEntry → Option Format → Result Bytes
  save_ramdisk entries format = open_sink format false [] >>= λ sink.
      save entries true false [] >>= λ archive.
      write_sink zip lz4 archive sink >>= close_sink zip lz4
