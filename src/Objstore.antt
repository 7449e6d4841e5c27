-- ===== src/Objstore.antt =====
-- internal/objstore: the stores of a repository's refs and objects.
pub mod Refname
pub mod PackedRefs
pub mod Peel
