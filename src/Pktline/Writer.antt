-- ===== src/Pktline/Writer.antt =====
-- pktline/writer.go: the calls of `Writer`, as functions from the writer's state to its state
pub mod Sends
pub mod Frames
-- after the call and the error, if any.
use go_ls_remote.Base.{
  ℕ, zero, suc, ◌+◌, ◌≡◌, refl, Bool, true, false, [], ◌∷◌, ◌++◌, List, Option, none, some, arith,
  ltb, if◌then◌else◌, Bytes, length, length-append,
}
use go_ls_remote.Base.Text.{bytes}
use go_ls_remote.Pktline.{
  Kind, payload, flush, delim, response_end, Packet, control, data_packet, max_payload,
}
use go_ls_remote.Pktline.Hex.{encode_hex_length}

-- `Writer`. `written` is what the underlying writer has taken, and `writes_left` counts the calls of
-- its `Write` that still succeed (`none`: all do).
pub record Writer : Type 0 where
  pub written : Bytes
  pub writes_left : Option ℕ
  pub enabled : Bool
  pub events : List Packet

pub data WriteError : Type 0 where
  too_large sink_failed : WriteError

pub data Outcome : Type 0 where
  done : Writer → Outcome
  failed : WriteError → Writer → Outcome

abbrev pub Write : Type 0
Write = Writer → Outcome

-- `if err := ...; err != nil { return err }`
abbrev pub and_then : Outcome → Write → Outcome
and_then (done w) k = k w
and_then (failed e w) k = failed e w

infixr 5 ◌>>◌
abbrev pub ◌>>◌ : Write → Write → Write
◌>>◌ m k w = and_then (m w) k

-- One call of the underlying `Write`, all or nothing.
abbrev sink_write_in : Option ℕ → Bytes → Write
sink_write_in none b w = done (record w { written = w.written ++ b })
sink_write_in (some zero) b w = failed sink_failed w
sink_write_in (some (suc n)) b w =
    done (record w { written = w.written ++ b; writes_left = some n })

unfoldable pub sink_write : Bytes → Write
sink_write b w = sink_write_in w.writes_left b w

-- `Writer.emit`.
unfoldable pub emit : Packet → Write
emit p w = done (if w.enabled then record w { events = w.events ++ (p ∷ []) } else w)

-- `WritePacket`.
unfoldable pub write_packet : Bytes → Write
write_packet p w =
    if ltb max_payload (length p)
    then failed too_large w
    else (sink_write (encode_hex_length (4 + length p) ++ p) >> emit (data_packet p)) w

-- `WriteLine`.
unfoldable pub write_line : Bytes → Write
write_line s w =
    if ltb max_payload (length s + 1)
    then failed too_large w
    else (sink_write (encode_hex_length (4 + (length s + 1)) ++ (s ++ bytes "\n"))
          >> emit (data_packet (s ++ bytes "\n")))
        w

-- The two loops of `WriteLineParts`: over the lengths, and over the copies.
pub parts_length : ℕ → List Bytes → ℕ
parts_length n [] = n
parts_length n (p ∷ ps) = parts_length (n + length p) ps

pub copy_parts : Bytes → List Bytes → Bytes
copy_parts out [] = out
copy_parts out (p ∷ ps) = copy_parts (out ++ p) ps

-- `WriteLineParts`.
unfoldable pub write_line_parts : List Bytes → Write
write_line_parts ps w =
    let n = parts_length 1 ps in
    if ltb max_payload n
    then failed too_large w
    else (sink_write (copy_parts (encode_hex_length (4 + n)) ps ++ bytes "\n")
          >> emit (data_packet (copy_parts [] ps ++ bytes "\n")))
        w

-- `writeControl`.
unfoldable pub write_control : Bytes → Kind → Write
write_control s k = sink_write s >> emit (control k)

unfoldable pub write_flush : Write
unfolding write_control
write_flush = write_control (bytes "0000") flush

unfoldable pub write_delim : Write
unfolding write_control
write_delim = write_control (bytes "0001") delim

unfoldable pub write_response_end : Write
unfolding write_control
write_response_end = write_control (bytes "0002") response_end
