-- ===== src/Boot.antt =====
-- avbroot/boot.py: the patches of boot images, with the compression module's parameters.
pub mod Ramdisk
pub mod Image
pub mod OtaCert
pub mod Backup
pub mod Magisk
pub mod Kmi
pub mod Prepatched
pub mod Sign
