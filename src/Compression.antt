-- ===== src/Compression.antt =====
-- avbroot/formats/compression.py: the legacy lz4 stream, and the file that is compressed in one of
-- the two formats.
pub mod Lz4
pub mod Auto
