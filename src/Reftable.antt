-- ===== src/Reftable.antt =====
-- internal/reftable.
pub mod Varint
pub mod Key
pub mod RefRecord
pub mod Header
pub mod Block
pub mod Walk
pub mod Reader
pub mod Seek
pub mod Stack

-- The errors of the package's decoders.
pub data Error : Type 0 where
  truncated_record varint_overflow unsupported_value_type update_index_overflow : Error
  short_file bad_magic unsupported_version bad_hash_id header_copy trailer_checksum : Error
  truncated_block bad_block_type log_block_unsupported : Error
  open_failed mixed_hash_algo invalid_tables_list : Error
