-- ===== src/Ota.antt =====
-- avbroot/ota.py.
pub mod Payload
pub mod Comment
pub mod Concatenated
