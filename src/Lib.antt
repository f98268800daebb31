-- ===== src/Lib.antt =====
-- avbroot patches Android OTA images: it reads boot images, ramdisks and payloads, changes them and
-- signs the result. This library models its binary formats, the code that everything else rests on, and
-- the patches that are made of them.
--
-- Files, with the source that they are about (paths from the repository's root):
--   Prelude (Tests, Lists, Bits, Int, Text, Dict): Boolean tests, lists, binary digits, Python's signed
--     integers, byte strings and dictionaries.
--   Result: Python's exceptions as values.
--   Stream: avbroot/util.py `read_exact`, and files. An input file is its bytes, a position and
--     whether it can seek; an output file is the bytes written so far. Stream/Laws has the relations
--     `Reads` and `Writes` that the codecs' proofs are composed of, and Stream/Random those of a reader
--     that jumps in its file.
--   Util: avbroot/util.py `Range`, `hash_file`, `copyfileobj_n`, `zero_n` and `is_zero`, with Util/Copy
--     and Util/Zero about the loops over files and over null bytes, and Util/Pieces on lists.
--   Struct: Python's `struct` for the field kinds used (`s`, `H`, `I`, `Q`; little endian, not aligned).
--   Padding: avbroot/formats/padding.py (`calc`, `read_skip`, `write`).
--   Cpio: avbroot/formats/cpio.py. Hex is `_read_int` and `_write_int`, Entry is `CpioEntryNew`, and
--     Archive is `load` and `save`.
--   Compression: avbroot/formats/compression.py. Lz4 is `Lz4Legacy`, with Lz4/Blocks on its file, Writes
--     and Reads on what an object holds, and ReadLoop and RoundTrip on whole files; Auto is
--     `CompressedFile`.
--   BootImage: avbroot/formats/bootimage.py. Format has the constants and header layouts, Section what
--     the classes share, V0 is `_BootImageV0Through2`, V3 `_BootImageV3Through4`, Vendor
--     `_VendorBootImageV3Through4`, Detect `load_autodetect`, and Dict the headers as dictionaries with
--     `create_from_dict`.
--   Ota: avbroot/ota.py. Payload is `_recompute_offsets` and the loop of `patch_payload` that writes the
--     new blob, Concatenated is `_ConcatenatedFileDescriptor`, and Comment is the zip comment of
--     `open_signing_wrapper`, with Comment/Written on the whole file.
--   Vbmeta: avbroot/vbmeta.py. Overrides is `_get_descriptor_overrides`, Patch `patch_vbmeta_image` and
--     Deps `get_vbmeta_deps`. The objects of avbtool are records of what the code uses of them.
--   Boot: avbroot/boot.py. Ramdisk is `_load_ramdisk` and `_save_ramdisk`, Image `BootImagePatch`, OtaCert
--     `OtaCertPatch`, Magisk `MagiskRootPatch` with Backup for `_apply_magisk_backup` (Magisk/Config,
--     Entries, Init, Built and Rooted are about the patched entries, and Patched about the image),
--     Prepatched `PrepatchedImage` with Kmi for `_get_kmi_version` (Prepatched/Found and Levels are
--     about the issues), and Sign `patch_boot`.
--   Main: avbroot/main.py. ExtraFields is `strip_bad_extra_fields`, Partitions `get_partitions_by_type`
--     and `get_required_images`, Order `get_vbmeta_patch_order`, and Zip `patch_ota_zip`.
--   Tests: concrete runs.
--
-- The boot images call the padding and the stream functions, and so do the archive entries; an archive
-- is a loop over entries. An attribute that exists only for some header versions is a field of that
-- version's constructor. `load` is a loop without a bound of its own: the model gives it the file's
-- length and one more as fuel, since every entry takes more than one byte. The buffered loops of
-- avbroot/util.py take the number of bytes they have to move, which each round makes smaller; a chunk
-- read from a file is as long as the view or the rest of the file allows. A hasher is a parameter.
-- The loop of `_ConcatenatedFileDescriptor.read` has the size for fuel, and without a size any number
-- of rounds.
--
-- The patches of boot images take ramdisks apart into archive entries, through the compression, and put
-- them together again; a patched image's vbmeta descriptors are signed by avbtool, and the vbmeta images
-- that refer to the image get its key or descriptor. `Lz4Legacy.read` takes a block in each round but
-- the first and the last, so the length of its file and two more is fuel enough, and the loop that
-- drops vbmeta images takes a node away in each round. What Python iterates a set for is done in an
-- order that is a parameter, or in that of the list that stands for the set.
--
-- The 64-bit numbers of protobuf's messages are naturals. A compressed ramdisk is read in whole before its
-- archive is, so a broken block behind the archive's trailer, which the code leaves unread, is an error of
-- the model.
--
-- Not modelled: printing (`__str__`) and the text of messages, the rest of avbroot/ota.py and of
-- avbroot/main.py, the search for the version in a Magisk APK, and avbroot/openssl.py, which runs the
-- openssl command; the file system, gzip, lzma, lz4, zipfile, protobuf, graphlib, OpenSSL and avbtool are
-- not part of this repository.
pub mod Prelude
pub mod Result
pub mod Stream
pub mod Util
pub mod Struct
pub mod Padding
pub mod Cpio
pub mod Compression
pub mod BootImage
pub mod Vbmeta
pub mod Boot
pub mod Ota
pub mod Main
pub mod Tests
