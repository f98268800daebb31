-- ===== src/Tests.antt =====
-- Concrete runs of the modelled code.
mod Formats
mod Comments
mod Streams
mod Zip
mod Payloads
mod Archives
mod Stored
mod Compressed
mod Boots
mod Roots
mod Prepatches
mod Vbmetas
mod Images
