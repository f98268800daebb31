-- ===== src/Main.antt =====
-- avbroot/main.py.
pub mod ExtraFields
pub mod Partitions
pub mod Order
pub mod Zip
