-- ===== src/Wire/Advertisement.antt =====
-- internal/wire/advertisement.go and refs_v0.go: the advertisement that opens a session.
pub mod RefLines
pub mod V0
use go_ls_remote.Base.{
  ℕ, Bool, true, false, not, [], ◌∷◌, ◌++◌, List, Option, none, some, if◌then◌else◌, equal, Bytes,
  Result, ok, err, ◌>>=◌, ◌==◌, ◌&&◌,
}
use go_ls_remote.Base.Text.{bytes, cut, cut_prefix, cut_suffix, has_prefix, trim_suffix}
use go_ls_remote.Pktline.{Kind, payload, flush, delim, response_end, Packet}
use go_ls_remote.Pktline.Incoming.{Incoming, stop, more}
use go_ls_remote.Wire.{
  RawCapabilities, RawRef, WireError, unexpected_control, missing_space, missing_nul, peeled_first,
  peeled_alone, peeled_mismatch, peeled_twice, unsupported_protocol,
}
use go_ls_remote.Wire.Capabilities.{all, parse_capabilities}
use go_ls_remote.Wire.LsRefs.{unexpected_end, plain_ref}

-- `transport.ProtocolVersion`: `ProtocolV0`, `ProtocolV1` and `ProtocolV2`.
pub data ProtocolVersion : Type 0 where
  protocol_v0 protocol_v1 protocol_v2 : ProtocolVersion

-- `Advertisement`.
pub record Advertisement : Type 0 where
  pub version : ProtocolVersion
  pub caps : RawCapabilities
  pub refs : List RawRef

-- A value, with the packets that are left.
abbrev pub Parsed : Type 0 → Type 0
Parsed A = Result WireError (A × Incoming)

-- `isAllZero`.
abbrev all_digits_zero : Bytes → Bool
all_digits_zero [] = true
all_digits_zero (c ∷ b) = c == b'0' && all_digits_zero b

unfoldable pub is_all_zero : Bytes → Bool
is_all_zero [] = false
is_all_zero (c ∷ b) = all_digits_zero (c ∷ b)

abbrev first_ref :
    Bytes → Bytes → RawCapabilities → Result WireError (RawCapabilities × Option RawRef)
first_ref oid name caps =
    if equal name (bytes "capabilities^{}") && is_all_zero oid
    then ok (caps, none)
    else elim (cut_suffix name (bytes "^{}")) [
      | some n ↦ err peeled_first
      | none ↦ ok (caps, some (plain_ref oid name))
    ]

abbrev named_ref :
    Bytes → Option (Bytes × Bytes) → Result WireError (RawCapabilities × Option RawRef)
named_ref oid none = err missing_nul
named_ref oid (some (name, cap_list)) = first_ref oid name (parse_capabilities cap_list)

abbrev identified_ref : Option (Bytes × Bytes) → Result WireError (RawCapabilities × Option RawRef)
identified_ref none = err missing_space
identified_ref (some (oid, rest)) = named_ref oid (cut 0 rest)

-- `parseFirstRefLine`; no ref stands for the placeholder of an empty repository.
unfoldable pub parse_first_ref_line : Bytes → Result WireError (RawCapabilities × Option RawRef)
parse_first_ref_line contents = identified_ref (cut b' ' (trim_suffix b'\n' contents))

-- A peeled id goes to the ref before it, which has the same name and no peeled id.
unfoldable pub mark_peeled : Bytes → Bytes → List RawRef → Result WireError (List RawRef)
mark_peeled oid name [] = err peeled_alone
mark_peeled oid name (prev ∷ refs) =
    if not (equal prev.name name)
    then err peeled_mismatch
    else if not (equal prev.peeled [])
    then err peeled_twice
    else ok (record prev { peeled = oid } ∷ refs)

abbrev pub take_ref : List RawRef → Option (Bytes × Bytes) → Result WireError (List RawRef)
take_ref refs none = err missing_space
take_ref refs (some (oid, name)) = elim (cut_suffix name (bytes "^{}")) [
  | some peeled_name ↦ mark_peeled oid peeled_name refs
  | none ↦ ok (plain_ref oid name ∷ refs)
]

-- One ref line; `refs` holds the refs so far, the last first.
unfoldable pub take_ref_line : Bytes → List RawRef → Result WireError (List RawRef)
take_ref_line line refs =
    if has_prefix line (bytes "shallow ") then ok refs else take_ref refs (cut b' ' line)

abbrev pub refs_or : List RawRef → Result WireError (List RawRef) → List RawRef
refs_or refs (err e) = refs
refs_or refs (ok rs) = rs

-- The loop of `parseV0Advertisement`.
unfoldable pub ref_lines_loop : Incoming → List RawRef → Parsed (List RawRef)
ref_lines_loop (stop e) refs = err (unexpected_end e)
ref_lines_loop (more p rest) refs =
    let taken = take_ref_line (trim_suffix b'\n' p.bytes) refs in
    let next = ref_lines_loop rest (refs_or refs taken) in
    elim p.kind [
      | flush ↦ ok (refs, rest)
      | payload ↦ elim taken [ ok rs ↦ next | err e ↦ err e ]
      | other ↦ err unexpected_control
    ]

abbrev pub reversed_onto : List RawRef → List RawRef → List RawRef
reversed_onto [] acc = acc
reversed_onto (r ∷ rs) acc = reversed_onto rs (r ∷ acc)

-- The inner loop of `applySymrefs`, which stops at the first ref of the name.
unfoldable pub set_symref : Bytes → Bytes → List RawRef → List RawRef
set_symref name target [] = []
set_symref name target (r ∷ refs) =
    let rest = set_symref name target refs in
    if equal r.name name then record r { symref = target } ∷ refs else r ∷ rest

abbrev symref_of : Option (Bytes × Bytes) → List RawRef → List RawRef
symref_of none refs = refs
symref_of (some ([], target)) refs = refs
symref_of (some (c ∷ name, [])) refs = refs
symref_of (some (c ∷ name, d ∷ target)) refs = set_symref (c ∷ name) (d ∷ target) refs

abbrev apply_values : List Bytes → List RawRef → List RawRef
apply_values [] refs = refs
apply_values (val ∷ vals) refs = apply_values vals (symref_of (cut b':' val) refs)

-- `applySymrefs`.
unfoldable pub apply_symrefs : List RawRef → RawCapabilities → List RawRef
apply_symrefs refs caps = apply_values (all caps (bytes "symref")) refs

abbrev pub first_refs : Option RawRef → List RawRef
first_refs none = []
first_refs (some r) = r ∷ []

-- `parseV0Advertisement`.
unfoldable pub parse_v0_advertisement : Packet → Incoming → ProtocolVersion → Parsed Advertisement
parse_v0_advertisement first q version = do
  (caps, first_ref) ← parse_first_ref_line first.bytes
  (refs, rest) ← ref_lines_loop q (first_refs first_ref)
  ok (
    record { version = version; caps = caps; refs = apply_symrefs (reversed_onto refs []) caps },
    rest,
  )

-- `readV2Capabilities`.
unfoldable pub read_v2_capabilities : Incoming → RawCapabilities → Parsed RawCapabilities
read_v2_capabilities (stop e) caps = err (unexpected_end e)
read_v2_capabilities (more p rest) caps =
    let next = read_v2_capabilities rest (caps ++ parse_capabilities (trim_suffix b'\n' p.bytes)) in
    elim p.kind [ flush ↦ ok (caps, rest) | payload ↦ next | other ↦ err unexpected_control ]

abbrev v1_refs : Incoming → Parsed Advertisement
v1_refs (stop e) = err (unexpected_end e)
v1_refs (more p rest) = parse_v0_advertisement p rest protocol_v1

abbrev versioned : Bytes → Incoming → Parsed Advertisement
versioned digits rest =
    if equal digits (bytes "2")
    then (read_v2_capabilities rest [] >>= λ (caps, left).
        ok (record { version = protocol_v2; caps = caps; refs = [] }, left))
    else if equal digits (bytes "1")
    then v1_refs rest
    else err unsupported_protocol

abbrev pub by_version_line : Option Bytes → Packet → Incoming → Parsed Advertisement
by_version_line none first rest = parse_v0_advertisement first rest protocol_v0
by_version_line (some digits) first rest = versioned digits rest

-- `dispatchAdvertisement`. A control packet at the head is an empty v0 advertisement; `version 0` and
-- unknown versions are refused.
unfoldable pub dispatch_advertisement : Packet → Incoming → Parsed Advertisement
dispatch_advertisement first rest = elim first.kind [
  | payload ↦
      by_version_line (cut_prefix (trim_suffix b'\n' first.bytes) (bytes "version ")) first rest
  | other ↦ ok (record { version = protocol_v0; caps = []; refs = [] }, rest)
]

abbrev pub same_version : ProtocolVersion → ProtocolVersion → Bool
same_version protocol_v0 protocol_v0 = true
same_version protocol_v1 protocol_v1 = true
same_version protocol_v2 protocol_v2 = true
same_version _ _ = false

abbrev pub wanted : Option ProtocolVersion → ProtocolVersion → Bool
wanted none version = true
wanted (some want) version = same_version version want

-- `ParseAdvertisement`.
unfoldable pub parse_advertisement : Incoming → Option ProtocolVersion → Parsed Advertisement
parse_advertisement (stop e) want = err (unexpected_end e)
parse_advertisement (more first q) want = do
  (ad, rest) ← dispatch_advertisement first q
  if wanted want ad.version then ok (ad, rest) else err unsupported_protocol
