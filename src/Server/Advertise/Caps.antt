-- ===== src/Server/Advertise/Caps.antt =====
-- The capabilities of a v0 advertisement: what the server sends and what the client reads.
use go_ls_remote.Base.{
  ◌≡◌, ◌≢◌, refl, ap, ◌∙◌, [], ◌∷◌, ◌++◌, List, map, Bytes, All, All-append, arith, append_assoc,
  equal, equal_iff, false,
}
use go_ls_remote.Base.Text.{bytes, cut}
use go_ls_remote.Base.Fields.{Solid, join}
use go_ls_remote.Objfmt.Hash.{Algo, sha1, sha256, to_string}
use go_ls_remote.Wire.{RawCapabilities, RawRef}
use go_ls_remote.Wire.Advertisement.{apply_symrefs, set_symref}
use go_ls_remote.Wire.Capabilities.{is_wire_space, parse_capabilities, agent_or_default, all}
use go_ls_remote.Wire.Capabilities.RoundTrip.{token, IsCapability, parse_capabilities-join}
use go_ls_remote.Server.Advertise.{build_v0_caps, head_symref}
use go_ls_remote.Server.Store.{Head}

abbrev pub symref_caps : Bytes → RawCapabilities
symref_caps [] = []
symref_caps (c ∷ s) = record { name = bytes "symref"; value = bytes "HEAD:" ++ (c ∷ s) } ∷ []

-- The capabilities that the client sees.
abbrev pub v0_caps : Bytes → Algo → Bytes → RawCapabilities
v0_caps symref algo agent =
    symref_caps symref
    ++ (record { name = bytes "object-format"; value = to_string algo }
        ∷ record { name = bytes "agent"; value = agent_or_default agent }
        ∷ [])

later_caps : Algo → Bytes → RawCapabilities
later_caps algo agent =
    record { name = bytes "object-format"; value = to_string algo }
    ∷ record { name = bytes "agent"; value = agent_or_default agent }
    ∷ []

later_text : Algo → Bytes → Bytes
later_text algo agent =
    bytes "object-format=" ++ (to_string algo ++ (bytes " agent=" ++ agent_or_default agent))

later-join :
    (algo : Algo) (agent : Bytes)
    → later_text algo agent ≡ join b' ' (map token (later_caps algo agent))
unfolding later_text later_caps
later-join sha1 [] = refl
later-join sha1 (c ∷ a) = refl
later-join sha256 [] = refl
later-join sha256 (c ∷ a) = refl

text-join :
    (symref : Bytes) (algo : Algo) (agent : Bytes)
    → head_symref symref ++ later_text algo agent
      ≡ join b' ' (map token (symref_caps symref ++ later_caps algo agent))
unfolding later_caps
text-join [] algo agent = later-join algo agent
text-join (c ∷ s) algo agent =
    ap (λ t. bytes "symref=HEAD:" ++ (c ∷ t))
      (append_assoc s (bytes " ") (later_text algo agent)
        ∙ ap (λ t. s ++ (b' ' ∷ t)) (later-join algo agent))

build-join :
    (head : Head) (algo : Algo) (agent : Bytes)
    → build_v0_caps head algo agent ≡ join b' ' (map token (v0_caps head.symref algo agent))
unfolding build_v0_caps later_text later_caps
build-join head algo agent = text-join head.symref algo agent

pub agent-token :
    (agent : Bytes)
    → token (record { name = bytes "agent"; value = agent_or_default agent })
      ≡ bytes "agent=" ++ agent_or_default agent
agent-token [] = refl
agent-token (c ∷ a) = refl

pub format-token :
    (algo : Algo)
    → token (record { name = bytes "object-format"; value = to_string algo })
      ≡ bytes "object-format=" ++ to_string algo
format-token sha1 = refl
format-token sha256 = refl

pub agent-IsCapability :
    (agent : Bytes)
    → Solid is_wire_space agent
    → IsCapability (record { name = bytes "agent"; value = agent_or_default agent })
unfolding is_wire_space
agent-IsCapability [] h = record {
  name_word = ((λ e. cc), ground arith);
  name_plain = ground arith;
  value_solid = ground arith;
}
agent-IsCapability (c ∷ a) h = record {
  name_word = ((λ e. cc), ground arith);
  name_plain = ground arith;
  value_solid = h;
}

pub format-IsCapability :
    (algo : Algo) → IsCapability (record { name = bytes "object-format"; value = to_string algo })
unfolding is_wire_space
format-IsCapability sha1 = record {
  name_word = ((λ e. cc), ground arith);
  name_plain = ground arith;
  value_solid = ground arith;
}
format-IsCapability sha256 = record {
  name_word = ((λ e. cc), ground arith);
  name_plain = ground arith;
  value_solid = ground arith;
}

symref-IsCapability : (s : Bytes) → Solid is_wire_space s → All IsCapability (symref_caps s)
unfolding is_wire_space
symref-IsCapability [] h = tt
symref-IsCapability (c ∷ s) h = (
  record {
    name_word = ((λ e. cc), ground arith);
    name_plain = ground arith;
    value_solid =
        All-append (λ x. is_wire_space x ≡ false) (bytes "HEAD:") (c ∷ s) (ground arith) h;
  },
  tt,
)

-- `ParseCapabilities` reads what `buildV0Caps` writes.
pub parse_capabilities-build_v0_caps :
    (head : Head) (algo : Algo) (agent : Bytes)
    → Solid is_wire_space head.symref
    → Solid is_wire_space agent
    → parse_capabilities (build_v0_caps head algo agent) ≡ v0_caps head.symref algo agent
parse_capabilities-build_v0_caps head algo agent hs ha =
    ap parse_capabilities (build-join head algo agent)
    ∙ parse_capabilities-join (v0_caps head.symref algo agent) (
        All-append IsCapability (symref_caps head.symref) _ (symref-IsCapability head.symref hs)
          (format-IsCapability algo, (agent-IsCapability agent ha, tt)))

-- What the symref capability does to the refs.
abbrev pub with_symref : Bytes → List RawRef → List RawRef
with_symref [] refs = refs
with_symref (c ∷ s) refs = set_symref (bytes "HEAD") (c ∷ s) refs

pub apply_symrefs-v0_caps :
    (symref : Bytes) (algo : Algo) (agent : Bytes) (refs : List RawRef)
    → apply_symrefs refs (v0_caps symref algo agent) ≡ with_symref symref refs
unfolding apply_symrefs all equal cut
apply_symrefs-v0_caps [] algo agent refs = refl
apply_symrefs-v0_caps (c ∷ s) algo agent refs = refl

-- No ref of the name, no change.
pub set_symref-absent :
    (name target : Bytes) (refs : List RawRef)
    → All (λ (r : RawRef). r.name ≢ name) refs
    → set_symref name target refs ≡ refs
unfolding set_symref
set_symref-absent name target [] h = refl
set_symref-absent name target (r ∷ refs) h =
    ground (arith, equal_iff r.name name, set_symref-absent name target refs h.1)
