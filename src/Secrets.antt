-- ===== src/Secrets.antt =====
-- crates/tcfs-secrets/src: the credentials of the object store.
pub mod Rotate
