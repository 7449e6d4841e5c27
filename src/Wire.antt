-- ===== src/Wire.antt =====
-- internal/wire/types.go, args.go and err_packet.go: the values that the wire package exchanges.
-- A Go string is its bytes.
pub mod Capabilities
pub mod LsRefs
pub mod Advertisement
pub mod ObjectInfo
use go_ls_remote.Base.{ℕ, Bytes, Bool, List, Option, none, some}
use go_ls_remote.Base.Text.{bytes, cut_prefix, trim_suffix}
use go_ls_remote.Pktline.{ReadError}

-- `RawCapability`; a token with no `=` has the empty value.
pub record RawCapability : Type 0 where
  pub name : Bytes
  pub value : Bytes

abbrev pub RawCapabilities : Type 0
RawCapabilities = List RawCapability

-- `RawRef`.
pub record RawRef : Type 0 where
  pub oid : Bytes
  pub name : Bytes
  pub peeled : Bytes
  pub symref : Bytes
  pub unborn : Bool

-- `RefsArgs`.
pub record RefsArgs : Type 0 where
  pub prefixes : List Bytes
  pub peel : Bool
  pub symrefs : Bool
  pub unborn : Bool

-- What the decoders of the package fail with.
pub data WireError : Type 0 where
  read : ReadError → WireError
  server_refused : Bytes → WireError
  unexpected_control malformed_line missing_space missing_nul : WireError
  peeled_first peeled_alone peeled_mismatch peeled_twice : WireError
  unsupported_protocol malformed_size : WireError

-- `DefaultUserAgent`.
abbrev pub default_user_agent : Bytes
default_user_agent = bytes "lsremote/0"

-- `CheckERRPacket`: the server's message, if the payload is an `ERR ` packet.
unfoldable pub check_err_packet : Bytes → Option Bytes
check_err_packet payload = elim (cut_prefix payload (bytes "ERR ")) [
  | none ↦ none
  | some msg ↦ some (trim_suffix b'\n' msg)
]
