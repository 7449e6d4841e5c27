-- ===== src/Tests/LsRefs.antt =====
-- The `ls-refs` exchange at a concrete store.
use go_ls_remote.Base.{
  Bool, ◌&&◌, some, ◌≡◌, refl, [], ◌∷◌, ◌++◌, List, none, true, false, Bytes, arith, equal,
}
use go_ls_remote.Base.Text.{bytes, cut_prefix, has_prefix}
use go_ls_remote.Base.Fields.{is_space}
use go_ls_remote.Base.Spaces.{space_width}
use go_ls_remote.Objfmt.Hash.{sha1, is_zero, hex}
use go_ls_remote.Pktline.{Kind, Packet, eof}
use go_ls_remote.Pktline.Incoming.{Incoming, stop, more, incoming}
use go_ls_remote.Pktline.Reader.Truncated.{ends_after}
use go_ls_remote.Pktline.Writer.{Writer, done}
use go_ls_remote.Pktline.Writer.Frames.{sent}
use go_ls_remote.Wire.Capabilities.{has, get}
use go_ls_remote.Wire.{RawCapabilities, RefsArgs}
use go_ls_remote.Wire.LsRefs.{encode_ls_refs, decode_ls_refs}
use go_ls_remote.Wire.LsRefs.Request.{request_packets, allowed}
use go_ls_remote.Wire.LsRefs.Response.{refs}
use go_ls_remote.Server.{served, replied}
use go_ls_remote.Server.CommandLoop.{command, process_v2_request}
use go_ls_remote.Server.LsRefs.{parse_ls_refs_args, ref_match}
use go_ls_remote.Server.LsRefs.EndToEnd.{ls_refs_request-served}
use go_ls_remote.Server.LsRefs.Answer.{response_entries, ls_refs_response-decoded}
use go_ls_remote.Server.LsRefs.Respond.{collect_ls_refs_refs, matching_refs, respond_ls_refs}
use go_ls_remote.Server.LsRefs.Refusal.{refusal, ls_refs_refusal-decoded}
use go_ls_remote.Server.{fault, refused}
use go_ls_remote.Server.LsRefs.{take_arg}
use go_ls_remote.Wire.{server_refused}
use go_ls_remote.Pktline.Writer.Sends.{line_packet}
use go_ls_remote.Server.LsRefs.Collected.{IsSorted, count, listed, collect_ls_refs_refs_sound}
use go_ls_remote.Server.Sort.{sort_refs, insert_ref}
use go_ls_remote.Server.Store.{
  Head, RefEntry, Store, head_is, refs_next, refs_end, absent, ref_peel,
}

abbrev fresh : Writer
fresh = record { written = []; writes_left = none; enabled = false; events = [] }

abbrev wanted : RefsArgs
wanted = record {
  prefixes = bytes "HEAD" ∷ bytes "refs/heads/" ∷ [];
  peel = true;
  symrefs = true;
  unborn = true;
}

abbrev advertised : RawCapabilities
advertised =
    record { name = bytes "agent"; value = bytes "git/2" }
    ∷ record { name = bytes "ls-refs"; value = bytes "unborn" }
    ∷ []

abbrev quoted : Bytes → Bytes
quoted s = bytes "\"" ++ (s ++ bytes "\"")

abbrev mark : Kind → Bytes
mark k = bytes "control"

request_example :
    (b : Bytes) × (q : Incoming) × (encode_ls_refs wanted advertised [] fresh
      ≡ done (sent fresh b (request_packets wanted advertised [])))
    × (process_v2_request (incoming (ends_after b)) ≡ command (bytes "ls-refs") q)
    × (parse_ls_refs_args quoted mark q fresh ≡ served (allowed wanted advertised) (stop eof) fresh)
request_example =
    ls_refs_request-served wanted advertised [] quoted mark fresh fresh refl
      (unfold has get equal in omega arith) (omega arith)

abbrev id : Bytes
id = 0 ∷ 1 ∷ 2 ∷ 3 ∷ 4 ∷ 5 ∷ 6 ∷ 7 ∷ 8 ∷ 9 ∷ 10 ∷ 11 ∷ 12 ∷ 13 ∷ 14 ∷ 15 ∷ 16 ∷ 127 ∷ 254 ∷ 255 ∷ []

abbrev at_main : Head
at_main = record { symref = bytes "refs/heads/main"; oid = id; unborn = false }

abbrev main : RefEntry
main = record { name = bytes "refs/heads/main"; oid = id; peeled = []; peel_known = true }

abbrev tag : RefEntry
tag = record { name = bytes "refs/tags/v1"; oid = id; peeled = id; peel_known = true }

abbrev store : Store
store = record {
  algo = sha1;
  head = head_is at_main;
  refs = refs_next tag (refs_next main refs_end);
  peel = λ h. absent;
}

response_example :
    (b : Bytes) × (ps : List Packet) × (respond_ls_refs store wanted fresh
      ≡ replied (sent fresh b ps))
    × (decode_ls_refs (incoming (ends_after b)) ≡ record {
      refs = refs (response_entries store wanted at_main (main ∷ []));
      failure = none;
    })
response_example =
    ls_refs_response-decoded store wanted at_main (main ∷ []) fresh refl refl
      (unfold collect_ls_refs_refs matching_refs ref_match sort_refs insert_ref has_prefix
          cut_prefix equal in
        refl)
      (record {
        has_id = (λ e. cc);
        symref_spaceless = unfold space_width is_space in ground arith;
        peel_answered = tt;
        fits = unfold hex in omega arith;
        unborn_fits = omega arith;
      })
      (
        record {
          has_id = (λ e. cc);
          name_word = ((λ e. cc), unfold space_width is_space in ground arith);
          peel_answered = unfold ref_peel is_zero in tt;
          fits = unfold ref_peel is_zero hex in omega arith;
        },
        tt,
      )

refusal_example :
    (b : Bytes) × (ps : List Packet) × (parse_ls_refs_args quoted mark
        (more (line_packet (bytes "peels")) (stop eof))
        fresh
      ≡ fault (refused (refusal (quoted (bytes "peels")))) (sent fresh b ps))
    × (decode_ls_refs (incoming (ends_after b))
        ≡ record { refs = []; failure = some (server_refused (refusal (quoted (bytes "peels")))) })
refusal_example =
    ls_refs_refusal-decoded quoted mark (bytes "peels") (stop eof) fresh refl
      (unfold take_arg equal cut_prefix in refl) (ground arith) (omega arith)

collected_example :
    IsSorted (main ∷ [])
    × ((test : RefEntry → Bool)
        → count test (main ∷ [])
          ≡ count (λ r. ref_match wanted.prefixes r.name && test r) (listed store.refs))
collected_example = collect_ls_refs_refs_sound store wanted.prefixes (main ∷ []) (
    unfold collect_ls_refs_refs matching_refs ref_match sort_refs insert_ref has_prefix cut_prefix
      equal in
    refl)
