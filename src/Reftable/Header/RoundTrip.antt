-- ===== src/Reftable/Header/RoundTrip.antt =====
-- A file header and a trailer as a writer lays them out, and what the reader takes from them.
use go_ls_remote.Base.{ℕ, ◌^◌, ◌<◌, false, ◌≡◌, refl, ◌∷◌, ◌++◌, arith, ◌==◌, equal, Bytes, ok}
use go_ls_remote.Base.Text.{bytes}
use go_ls_remote.Base.BigEndian.{be, be_bytes, be-be_bytes}
use go_ls_remote.Objfmt.Hash.{Algo, sha1, sha256}
use go_ls_remote.Reftable.Header.{Header, parse_header}

-- Version 1 is for SHA-1, and version 2 names the algorithm.
pub data Format : Type 0 where
  first : Format
  second : Algo → Format

abbrev pub tag : Algo → Bytes
tag sha1 = bytes "sha1"
tag sha256 = bytes "s256"

abbrev pub header_bytes : Format → ℕ → ℕ → ℕ → Bytes
header_bytes first block min max =
    bytes "REFT" ++ (1 ∷ (be_bytes 3 block ++ (be_bytes 8 min ++ be_bytes 8 max)))
header_bytes (second algo) block min max =
    bytes "REFT" ++ (2 ∷ (be_bytes 3 block ++ (be_bytes 8 min ++ (be_bytes 8 max ++ tag algo))))

abbrev pub header_of : Format → ℕ → ℕ → ℕ → Header
header_of first block min max = record {
  version = 1;
  block_size = block;
  min_update_index = min;
  max_update_index = max;
  algo = sha1;
}
header_of (second algo) block min max = record {
  version = 2;
  block_size = block;
  min_update_index = min;
  max_update_index = max;
  algo = algo;
}

tags_differ : (be (bytes "s256") == be (bytes "sha1")) ≡ false
unfolding be
tags_differ = refl

-- `parseHeader` reads the header that a file of either version starts with, where the block size is
-- below 2^24 and the update indexes are uint64.
pub parse_header-header_bytes :
    (f : Format) (block min max : ℕ) (rest : Bytes)
    → block < 2 ^ 24
    → min < 2 ^ 64
    → max < 2 ^ 64
    → parse_header (header_bytes f block min max ++ rest) ≡ ok (header_of f block min max)
unfolding parse_header be_bytes equal
parse_header-header_bytes first block min max rest hb h1 h2 = ground (
  arith,
  be-be_bytes 3 block (omega arith),
  be-be_bytes 8 min (omega arith),
  be-be_bytes 8 max (omega arith),
)
parse_header-header_bytes (second sha1) block min max rest hb h1 h2 = ground (
  arith,
  be-be_bytes 3 block (omega arith),
  be-be_bytes 8 min (omega arith),
  be-be_bytes 8 max (omega arith),
)
parse_header-header_bytes (second sha256) block min max rest hb h1 h2 = ground (
  arith,
  be-be_bytes 3 block (omega arith),
  be-be_bytes 8 min (omega arith),
  be-be_bytes 8 max (omega arith),
  tags_differ,
)
