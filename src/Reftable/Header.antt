-- ===== src/Reftable/Header.antt =====
-- internal/reftable/format.go: the file header and the trailer.
pub mod RoundTrip
use go_ls_remote.Base.{
  ℕ, ◌+◌, ◌-◌, ◌*◌, Bool, true, false, [], ◌∷◌, ltb, ◌==◌, ◌||◌, ◌&&◌, not, equal, if◌then◌else◌,
  Bytes, length, take, drop, Result, ok, err, ◌>>=◌, get_or,
}
use go_ls_remote.Base.Text.{bytes}
use go_ls_remote.Base.BigEndian.{be}
use go_ls_remote.Objfmt.Hash.{Algo, sha1, sha256}
use go_ls_remote.Reftable.{
  Error, short_file, bad_magic, unsupported_version, bad_hash_id, header_copy, trailer_checksum,
}

-- `header`.
pub record Header : Type 0 where
  pub version : ℕ
  pub block_size : ℕ
  pub min_update_index : ℕ
  pub max_update_index : ℕ
  pub algo : Algo

abbrev pub header_size_v1 : ℕ
header_size_v1 = 24

abbrev pub header_size_v2 : ℕ
header_size_v2 = 28

-- `header.size`.
abbrev pub header_size : Header → ℕ
header_size h = if h.version == 2 then header_size_v2 else header_size_v1

-- `header.footerSize`.
abbrev pub footer_size : Header → ℕ
footer_size h = if h.version == 2 then header_size_v2 + 5 * 8 + 4 else header_size_v1 + 5 * 8 + 4

-- `buf[from:to]`.
abbrev pub slice : Bytes → ℕ → ℕ → Bytes
slice buf from to = take (to - from) (drop from buf)

abbrev with_algo : Bytes → ℕ → Algo → Header
with_algo buf ver algo = record {
  version = ver;
  block_size = be (slice buf 5 8);
  min_update_index = be (slice buf 8 16);
  max_update_index = be (slice buf 16 24);
  algo = algo;
}

abbrev hash_id : Bytes → Result Error Algo
hash_id tag =
    if be tag == be (bytes "sha1")
    then ok sha1
    else if be tag == be (bytes "s256")
    then ok sha256
    else err bad_hash_id

-- `parseHeader`.
unfoldable pub parse_header : Bytes → Result Error Header
parse_header buf =
    let ver = get_or buf 4 0 in
    if ltb (length buf) header_size_v1
    then err short_file
    else if not (equal (take 4 buf) (bytes "REFT"))
    then err bad_magic
    else if not (ver == 1 || ver == 2)
    then err unsupported_version
    else if ver == 2 && ltb (length buf) header_size_v2
    then err short_file
    else if ver == 1
    then ok (with_algo buf ver sha1)
    else (hash_id (slice buf 24 28) >>= λ algo. ok (with_algo buf ver algo))

-- `verifyTrailer`; `crc32` is `crc32.Checksum` with the IEEE table.
module _ (crc32 : Bytes → ℕ) where
  unfoldable pub verify_trailer : Bytes → Header → Result Error (Unit {0})
  verify_trailer file h =
      let footer = drop (length file - footer_size h) file in
      if ltb (length file) (header_size h + footer_size h)
      then err short_file
      else if not (equal (take (header_size h) footer) (take (header_size h) file))
      then err header_copy
      else if crc32 (take (footer_size h - 4) footer) == be (drop (footer_size h - 4) footer)
      then ok tt
      else err trailer_checksum
