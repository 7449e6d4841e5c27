-- ===== src/Server.antt =====
-- internal/server: the in-process upload-pack of `file://` remotes. What its steps return.
pub mod Advertise
pub mod CommandLoop
pub mod LsRefs
pub mod ObjectInfo
pub mod Replies
pub mod Serve
pub mod Sort
pub mod Store
use go_ls_remote.Base.{Bytes, [], ◌∷◌, ◌++◌}
use go_ls_remote.Base.Text.{bytes}
use go_ls_remote.Pktline.{ReadError}
use go_ls_remote.Pktline.Incoming.{Incoming}
use go_ls_remote.Pktline.Writer.{
  Writer, Write, WriteError, Outcome, done, failed, ◌>>◌, write_packet, write_flush,
}

pub data ServerError : Type 0 where
  read_failed : ReadError → ServerError
  write_failed : WriteError → ServerError
  refused : Bytes → ServerError
  command_twice unexpected_packet no_command store_failed : ServerError

-- The end of a step that reads arguments and may write: its value with the packets and the writer
-- after it, or its error.
pub data Served (A : Type 0) : Type 0 where
  served : A → Incoming → Writer → Served A
  fault : ServerError → Writer → Served A

-- `fmt.Errorf("%w: ...", wire.ErrServerRefused, msg)` behind a write, whose own error comes first.
abbrev pub refuse_after : {A : Type 0} → Outcome → Bytes → Served A
refuse_after (done w) msg = fault (refused msg) w
refuse_after (failed e w) msg = fault (write_failed e) w

-- `writeERRPacket`.
unfoldable pub write_err_packet : Bytes → Write
write_err_packet msg = write_packet (bytes "ERR " ++ (msg ++ bytes "\n")) >> write_flush

-- The end of a step that only writes.
pub data Reply : Type 0 where
  replied : Writer → Reply
  reply_fault : ServerError → Writer → Reply

abbrev pub reply : Outcome → Reply
reply (done w) = replied w
reply (failed e w) = reply_fault (write_failed e) w

abbrev pub reply_then : Reply → (Writer → Reply) → Reply
reply_then (replied w) k = k w
reply_then (reply_fault e w) k = reply_fault e w
