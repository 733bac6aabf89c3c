-- ===== src/Primitives.antt =====
-- The crate sena-primitives: digests, the canonical codec and the encoder.
pub mod Hash256
pub mod Codec
pub mod Encoding
pub mod Utf8
