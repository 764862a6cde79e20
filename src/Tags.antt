-- ===== src/Tags.antt =====
-- The package tags: keys, tag sets, and the two encodings of a tag set.
pub mod Examples
pub mod Key
pub mod KeysManager
pub mod TagSet
pub mod Buffer
pub mod Varint
pub mod Codec
pub mod Values
