-- ===== src/Wire/ObjectInfo.antt =====
-- internal/wire/object_info.go: the client's side of the v2 `object-info` command.
pub mod Request
use go_ls_remote.Base.{
  ℕ, Bool, true, false, ◌&&◌, ◌||◌, [], ◌∷◌, List, Option, none, some, if◌then◌else◌, equal, Bytes,
  Result, ok, err, ◌>>=◌, ◌==◌, leb, length,
}
use go_ls_remote.Base.Text.{bytes, cut, trim_suffix}
use go_ls_remote.Base.Spaces.{fields}
use go_ls_remote.Base.Decimal.{ℤ, pos, parse_int}
use go_ls_remote.Pktline.{payload, flush}
use go_ls_remote.Pktline.Incoming.{Incoming, stop, more}
use go_ls_remote.Pktline.Writer.{
  Write, done, ◌>>◌, write_line, write_line_parts, write_delim, write_flush,
}
use go_ls_remote.Wire.{
  RawCapabilities, WireError, unexpected_control, server_refused, malformed_size, check_err_packet,
}
use go_ls_remote.Wire.Capabilities.{write_capability_echo}
use go_ls_remote.Wire.LsRefs.{unexpected_end, write_flag}

-- `RawObjectInfo`.
pub record RawObjectInfo : Type 0 where
  pub oid : Bytes
  pub size : ℤ

-- `ObjectInfoArgs`.
pub record ObjectInfoArgs : Type 0 where
  pub size : Bool

-- The loop over `oids`.
unfoldable pub write_oids : List Bytes → Write
write_oids [] = done
write_oids (oid ∷ oids) = write_line_parts (bytes "oid " ∷ oid ∷ []) >> write_oids oids

-- `EncodeObjectInfo`.
unfoldable pub encode_object_info : List Bytes → ObjectInfoArgs → RawCapabilities → Bytes → Write
encode_object_info oids args caps user_agent =
    write_line (bytes "command=object-info")
    >> write_capability_echo caps user_agent
    >> write_delim
    >> write_flag args.size (bytes "size")
    >> write_oids oids
    >> write_flush

abbrev is_lower_hex : ℕ → Bool
is_lower_hex c = (leb b'0' c && leb c b'9') || (leb b'a' c && leb c b'f')

abbrev all_lower_hex : Bytes → Bool
all_lower_hex [] = true
all_lower_hex (c ∷ s) = is_lower_hex c && all_lower_hex s

abbrev first_token : Option (Bytes × Bytes) → Bytes → Bytes
first_token none line = line
first_token (some (tok, rest)) line = tok

-- `looksLikeObjectInfoOIDLine`.
unfoldable pub looks_like_oid_line : Bytes → Bool
looks_like_oid_line line =
    let tok = first_token (cut b' ' line) line in
    (length tok == 40 || length tok == 64) && all_lower_hex tok

-- A row, or none if the line is dropped.
abbrev Row : Type 0
Row = Result WireError (Option RawObjectInfo)

abbrev pub sized_row : Bytes → Option ℤ → Row
sized_row oid none = err malformed_size
sized_row oid (some n) = ok (some (record { oid = oid; size = n }))

abbrev bare_row : Bytes → Row
bare_row oid = ok (some (record { oid = oid; size = pos 0 }))

abbrev pub tail_row : Bytes → Bytes → Bool → Row
tail_row oid [] want_size = ok none
tail_row oid (c ∷ tail) want_size =
    if want_size then sized_row oid (parse_int (c ∷ tail)) else bare_row oid

abbrev pub cut_row : Option (Bytes × Bytes) → Bytes → Bool → Row
cut_row none [] want_size = ok none
cut_row none (c ∷ line) want_size = if want_size then ok none else bare_row (c ∷ line)
cut_row (some ([], tail)) line want_size = ok none
cut_row (some (c ∷ oid, tail)) line want_size = tail_row (c ∷ oid) tail want_size

-- `parseObjectInfoLine`.
unfoldable pub parse_object_info_line : Bytes → Bool → Row
parse_object_info_line line want_size = cut_row (cut b' ' line) line want_size

abbrev kept : Option RawObjectInfo → List RawObjectInfo → List RawObjectInfo
kept none infos = infos
kept (some info) infos = info ∷ infos

abbrev pub Infos : Type 0
Infos = Result WireError (List RawObjectInfo)

abbrev pub with_row : Row → Infos → Infos
with_row (err e) rest = err e
with_row (ok row) rest = do infos ← rest; ok (kept row infos)

abbrev pub unless_refused : Option Bytes → Infos → Infos
unless_refused (some msg) infos = err (server_refused msg)
unless_refused none infos = infos

-- The loop of `DecodeObjectInfo`; an error forgets the rows before it.
unfoldable pub object_info_rows : Bool → Incoming → Infos
object_info_rows want_size (stop e) = err (unexpected_end e)
object_info_rows want_size (more p rest) =
    let line = trim_suffix b'\n' p.bytes in
    let later = object_info_rows want_size rest in
    elim p.kind [
      | flush ↦ ok []
      | payload ↦
          unless_refused (check_err_packet line)
            (with_row (parse_object_info_line line want_size) later)
      | other ↦ err unexpected_control
    ]

abbrev pub names_size : List Bytes → Bool
names_size [] = false
names_size (tok ∷ toks) = equal tok (bytes "size") || names_size toks

-- The first line is a row, or names the attributes of the rows.
unfoldable pub first_line_infos : Bytes → Incoming → Infos
first_line_infos line rest =
    if looks_like_oid_line line
    then with_row (parse_object_info_line line false) (object_info_rows false rest)
    else object_info_rows (names_size (fields line)) rest

-- `DecodeObjectInfo`.
unfoldable pub decode_object_info : Incoming → Infos
decode_object_info (stop e) = err (unexpected_end e)
decode_object_info (more p rest) =
    let line = trim_suffix b'\n' p.bytes in
    elim p.kind [
      | flush ↦ ok []
      | payload ↦ unless_refused (check_err_packet line) (first_line_infos line rest)
      | other ↦ err unexpected_control
    ]
