-- ===== src/Tests.antt =====
-- Runs of the models at concrete inputs.
mod Pktline
mod Formats
mod LsRefs
mod Serve
mod Loose
mod Advertise
mod ObjectInfo
mod Reftable
mod Seek
mod Idx
mod Midx
mod Url
mod Refname
mod PackedRefs
mod PackHeader
