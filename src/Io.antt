-- ===== src/Io.antt =====
-- src/anj/io: the payload formats.
pub mod Base64
pub mod Cbor
