-- ===== src/Cpio.antt =====
-- avbroot/formats/cpio.py: cpio archives in the "new" formats, for ramdisks.
pub mod Hex
pub mod Entry
pub mod Archive
