-- ===== src/Objfmt.antt =====
-- internal/objfmt: Git's on-disk object formats.
pub mod Hash
pub mod Fanout
pub mod Idx
pub mod Midx
pub mod PackHeader
pub mod Loose

-- The errors of the package's readers; `unreadable` stands for those of the operating system.
pub data Error : Type 0 where
  unsupported_version truncated corrupt out_of_range unreadable : Error
