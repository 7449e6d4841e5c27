-- ===== src/Wire/Capabilities.antt =====
-- internal/wire/caps_parse.go, caps_echo.go and the methods of RawCapabilities in types.go.
pub mod RoundTrip
use go_ls_remote.Base.{
  ℕ, Bool, true, false, ◌||◌, ◌&&◌, not, [], ◌∷◌, ◌++◌, List, map, Option, none, some, ◌==◌,
  if◌then◌else◌, equal, Bytes,
}
use go_ls_remote.Base.Text.{bytes, cut}
use go_ls_remote.Base.Fields.{fields_func}
use go_ls_remote.Pktline.Writer.{Write, done, ◌>>◌, write_line_parts}
use go_ls_remote.Wire.{RawCapability, RawCapabilities, default_user_agent}

-- `isWireSpace`.
unfoldable pub is_wire_space : ℕ → Bool
is_wire_space r = r == b' ' || r == b'\t' || r == b'\n'

-- One token; the first `=` ends the name.
unfoldable pub to_capability : Bytes → RawCapability
to_capability tok = elim (cut b'=' tok) [
  | none ↦ record { name = tok; value = [] }
  | some (name, value) ↦ record { name = name; value = value }
]

-- `ParseCapabilities`.
unfoldable pub parse_capabilities : Bytes → RawCapabilities
parse_capabilities s = map to_capability (fields_func is_wire_space s)

-- `Get`: the value of the first capability of that name.
unfoldable pub get : RawCapabilities → Bytes → Option Bytes
get [] name = none
get (rc ∷ c) name = if equal rc.name name then some rc.value else get c name

-- `All`.
unfoldable pub all : RawCapabilities → Bytes → List Bytes
all [] name = []
all (rc ∷ c) name = let rest = all c name in if equal rc.name name then rc.value ∷ rest else rest

-- `Has`.
unfoldable pub has : RawCapabilities → Bytes → Bool
has [] name = false
has (rc ∷ c) name = if equal rc.name name then true else has c name

-- `Names`.
pub names : RawCapabilities → List Bytes
names = map (λ rc. rc.name)

-- The user agent that is sent: the caller's, or the default.
abbrev pub agent_or_default : Bytes → Bytes
agent_or_default [] = default_user_agent
agent_or_default (c ∷ ua) = c ∷ ua

abbrev pub write_agent : Bool → Bytes → Write
write_agent false ua = done
write_agent true ua = write_line_parts (bytes "agent=" ∷ agent_or_default ua ∷ [])

abbrev pub write_format : Option Bytes → Write
write_format none = done
write_format (some []) = done
write_format (some (c ∷ v)) = write_line_parts (bytes "object-format=" ∷ (c ∷ v) ∷ [])

-- `writeCapabilityEcho`.
unfoldable pub write_capability_echo : RawCapabilities → Bytes → Write
write_capability_echo caps user_agent =
    write_agent (has caps (bytes "agent")) user_agent
    >> write_format (get caps (bytes "object-format"))
