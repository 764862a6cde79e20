-- ===== src/Tags/Codec.antt =====
-- tags/tag_set_codec.go: the binary form in which tag sets travel between processes.
pub mod Encode
pub mod Reader
pub mod Decode
pub mod RoundTrip
pub mod Safety
pub mod Elsewhere
pub mod Integers
