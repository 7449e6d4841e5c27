-- ===== src/Wire/Capabilities/RoundTrip.antt =====
-- A capability list as a server writes it, and `ParseCapabilities` of it.
use go_ls_remote.Base.{◌≡◌, ◌≢◌, refl, ap, ◌∙◌, [], ◌∷◌, ◌++◌, map, Bytes, All}
use go_ls_remote.Base.Text.{Lacks, cut-append, cut-none}
use go_ls_remote.Base.Fields.{IsWord, Solid, join, fields_func-join}
use go_ls_remote.Wire.{RawCapability, RawCapabilities}
use go_ls_remote.Wire.Capabilities.{is_wire_space, to_capability, parse_capabilities}

-- `name` alone, or `name=value`.
abbrev pub token_of : Bytes → Bytes → Bytes
token_of name [] = name
token_of name (c ∷ value) = name ++ (b'=' ∷ c ∷ value)

abbrev pub token : RawCapability → Bytes
token rc = token_of rc.name rc.value

-- A name that is not empty and has no `=`, and no white space in the name or the value.
pub record IsCapability (rc : RawCapability) : Type 0 where
  pub name_word : IsWord is_wire_space rc.name
  pub name_plain : Lacks b'=' rc.name
  pub value_solid : Solid is_wire_space rc.value

to_capability-token_of :
    (name value : Bytes)
    → Lacks b'=' name
    → to_capability (token_of name value) ≡ record { name = name; value = value }
unfolding to_capability
to_capability-token_of name [] h = rw (cut-none b'=' name h, to_capability)
to_capability-token_of name (c ∷ value) h = rw (cut-append b'=' name (c ∷ value) h, to_capability)

Solid-append :
    (a b : Bytes) → Solid is_wire_space a → Solid is_wire_space b → Solid is_wire_space (a ++ b)
Solid-append [] b ha hb = hb
Solid-append (c ∷ a) b ha hb = (ha.0, Solid-append a b ha.1 hb)

append-ne-nil : (a b : Bytes) → a ≢ [] → a ++ b ≢ []
append-ne-nil [] b h = absurd (h refl)
append-ne-nil (c ∷ a) b h = λ e. cc

token_of-IsWord :
    (name value : Bytes)
    → IsWord is_wire_space name
    → Solid is_wire_space value
    → IsWord is_wire_space (token_of name value)
token_of-IsWord name [] h k = h
token_of-IsWord name (c ∷ value) h k = (
  append-ne-nil name (b'=' ∷ c ∷ value) h.0,
  Solid-append name (b'=' ∷ c ∷ value) h.1 (unfold is_wire_space in refl, k),
)

tokens-IsWord :
    (caps : RawCapabilities) → All IsCapability caps → All (IsWord is_wire_space) (map token caps)
tokens-IsWord [] h = tt
tokens-IsWord (rc ∷ caps) h =
    (token_of-IsWord rc.name rc.value h.0.name_word h.0.value_solid, tokens-IsWord caps h.1)

to_capability-tokens :
    (caps : RawCapabilities) → All IsCapability caps → map to_capability (map token caps) ≡ caps
to_capability-tokens [] h = refl
to_capability-tokens (rc ∷ caps) h =
    ap (λ (x : RawCapability). x ∷ map to_capability (map token caps))
      (to_capability-token_of rc.name rc.value h.0.name_plain)
    ∙ ap (◌∷◌ rc) (to_capability-tokens caps h.1)

-- `ParseCapabilities` reads back every list of well-formed capabilities, in order and with
-- repetitions, from their tokens joined by spaces.
pub parse_capabilities-join :
    (caps : RawCapabilities)
    → All IsCapability caps
    → parse_capabilities (join b' ' (map token caps)) ≡ caps
unfolding parse_capabilities
parse_capabilities-join caps h =
    ap (map to_capability) (
      fields_func-join is_wire_space b' ' (map token caps) (unfold is_wire_space in refl)
        (tokens-IsWord caps h))
    ∙ to_capability-tokens caps h
