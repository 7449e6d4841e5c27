-- ===== src/Tests/Formats.antt =====
-- Reftables, object ids and capability lists at concrete bytes.
use go_ls_remote.Base.{◌≡◌, ◌<◌, ◌^◌, ◌↔◌, [], ◌∷◌, map, Bytes, ok, arith}
use go_ls_remote.Base.Text.{bytes}
use go_ls_remote.Base.Fields.{join}
use go_ls_remote.OffsetVarint.{Reads}
use go_ls_remote.Reftable.Varint.{decode_varint}
use go_ls_remote.Reftable.Varint.Exact.{decode_varint_exact}
use go_ls_remote.Wire.{RawCapabilities}
use go_ls_remote.Wire.Capabilities.{parse_capabilities, is_wire_space}
use go_ls_remote.Wire.Capabilities.RoundTrip.{token, parse_capabilities-join}

abbrev group : Bytes
group = 128 ∷ 3 ∷ 9 ∷ []

varint_example : (decode_varint group ≡ ok (131, 2)) ↔ (Reads group 131 2 × (131 < 2 ^ 64))
varint_example = decode_varint_exact group 131 2 (omega arith)

abbrev advertised : RawCapabilities
advertised =
    record { name = bytes "multi_ack"; value = [] }
    ∷ record { name = bytes "symref"; value = bytes "HEAD:refs/heads/a=b" }
    ∷ []

capabilities_example : parse_capabilities (join b' ' (map token advertised)) ≡ advertised
capabilities_example = parse_capabilities-join advertised (
  record {
    name_word = ((λ e. cc), unfold is_wire_space in ground arith);
    name_plain = ground arith;
    value_solid = tt;
  },
  (
    record {
      name_word = ((λ e. cc), unfold is_wire_space in ground arith);
      name_plain = ground arith;
      value_solid = unfold is_wire_space in ground arith;
    },
    tt,
  ),
)
