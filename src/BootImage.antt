-- ===== src/BootImage.antt =====
-- avbroot/formats/bootimage.py: Android boot images, versions 0 to 4, and vendor boot images.
pub mod Format
pub mod Section
pub mod Version
pub mod V0
pub mod V3
pub mod Vendor
pub mod Detect
pub mod Dict
