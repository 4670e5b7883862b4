-- ===== src/Proto.antt =====
-- The messages of pkg/proto/agglayer that the proxy reads and writes, with the getters that the
-- code calls. A pointer is an `Option`, whose `none` is nil; a byte slice is an `Option` too, since
-- the code tells a nil slice from an empty one. Fields that protobuf keeps for itself are left out.
pub mod Fields
pub mod Interop
pub mod Aggchain
pub mod Node
