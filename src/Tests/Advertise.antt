-- ===== src/Tests/Advertise.antt =====
-- The advertisements of a concrete store.
use go_ls_remote.Base.{◌≡◌, refl, [], ◌∷◌, ◌++◌, List, none, true, false, Bytes, ok, arith, equal}
use go_ls_remote.Base.Text.{bytes, cut_suffix}
use go_ls_remote.Objfmt.Hash.{sha1, is_zero, hex}
use go_ls_remote.Pktline.{Packet, control, flush, eof}
use go_ls_remote.Pktline.Incoming.{stop, incoming}
use go_ls_remote.Pktline.Reader.Truncated.{ends_after}
use go_ls_remote.Pktline.Writer.{Writer, done}
use go_ls_remote.Pktline.Writer.Frames.{sent}
use go_ls_remote.Wire.Advertisement.{protocol_v0, protocol_v2, parse_advertisement}
use go_ls_remote.Wire.Capabilities.{is_wire_space}
use go_ls_remote.Wire.LsRefs.Request.{lines_of}
use go_ls_remote.Server.{replied}
use go_ls_remote.Server.Advertise.{
  write_v0_advertisement, write_v2_advertisement, v2_caps, head_valid, collect_v0_refs,
  build_v0_caps,
}
use go_ls_remote.Server.Advertise.Caps.{v0_caps}
use go_ls_remote.Server.Advertise.V0.{advertised_refs, v0_advertisement-parsed}
use go_ls_remote.Server.Advertise.V2.{seen_caps, v2_advertisement-parsed}
use go_ls_remote.Server.Sort.{sort_refs, insert_ref, bytes_le}
use go_ls_remote.Server.Store.{
  Head, RefEntry, Store, head_is, refs_next, refs_end, absent, ref_peel,
}

abbrev fresh : Writer
fresh = record { written = []; writes_left = none; enabled = false; events = [] }

abbrev id : Bytes
id =
    1 ∷ 35 ∷ 69 ∷ 103 ∷ 137 ∷ 171 ∷ 205 ∷ 239 ∷ 1 ∷ 35 ∷ 69 ∷ 103 ∷ 137 ∷ 171 ∷ 205 ∷ 239 ∷ 1 ∷ 35
    ∷ 69 ∷ 103 ∷ []

abbrev head : Head
head = record { symref = bytes "refs/heads/main"; oid = id; unborn = false }

abbrev main : RefEntry
main = record { name = bytes "refs/heads/main"; oid = id; peeled = []; peel_known = true }

abbrev tag : RefEntry
tag = record { name = bytes "refs/tags/v1"; oid = id; peeled = id; peel_known = true }

abbrev store : Store
store = record {
  algo = sha1;
  head = head_is head;
  refs = refs_next tag (refs_next main refs_end);
  peel = λ h. absent;
}

v0_example :
    (b : Bytes) × (ps : List Packet) × (write_v0_advertisement store [] fresh
      ≡ replied (sent fresh b ps))
    × (parse_advertisement (incoming (ends_after b)) none
        ≡ ok (
          record {
            version = protocol_v0;
            caps = v0_caps head.symref store.algo [];
            refs = advertised_refs (head_valid head) store head (main ∷ tag ∷ []);
          },
          stop eof,
        ))
v0_example =
    v0_advertisement-parsed store [] head (main ∷ tag ∷ []) fresh refl refl
      (unfold collect_v0_refs sort_refs insert_ref bytes_le in refl)
      (unfold is_wire_space in ground arith) tt
      (
        record {
          unmarked = unfold cut_suffix equal in refl;
          no_nul = ground arith;
          not_head = (λ e. cc);
          peel_answered = unfold ref_peel is_zero in tt;
        },
        (
          record {
            unmarked = unfold cut_suffix equal in refl;
            no_nul = ground arith;
            not_head = (λ e. cc);
            peel_answered = unfold ref_peel is_zero in tt;
          },
          tt,
        ),
      )
      (unfold ref_peel is_zero hex equal build_v0_caps in omega arith)

v2_example :
    (b : Bytes) × (write_v2_advertisement store (bytes "git/2") fresh
      ≡ done (
          sent fresh b
            (lines_of (bytes "version 2" ∷ v2_caps store (bytes "git/2")) ++ (control flush ∷ []))))
    × (parse_advertisement (incoming (ends_after b)) none
        ≡ ok (
          record { version = protocol_v2; caps = seen_caps store (bytes "git/2"); refs = [] },
          stop eof,
        ))
v2_example =
    v2_advertisement-parsed store (bytes "git/2") fresh refl (unfold is_wire_space in ground arith)
      (omega arith)
