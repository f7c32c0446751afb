-- ===== src/Fuse.antt =====
-- crates/tcfs-fuse/src: what the FUSE driver keeps and reads.
pub mod Index
pub mod Stub
pub mod NegativeCache
pub mod Cache
pub mod Mount
pub mod Hydrate
pub mod Driver
