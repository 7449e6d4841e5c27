-- ===== src/Tests/Serve.antt =====
-- A session of two `ls-refs` requests to an empty store.
use go_ls_remote.Base.{
  ℕ, suc, ◌≡◌, ◌≢◌, refl, ◌∙◌, arith, Bool, true, false, none, [], ◌∷◌, Bytes, equal,
}
use go_ls_remote.Base.Text.{bytes}
use go_ls_remote.Objfmt.Hash.{sha1, zero_id, is_zero}
use go_ls_remote.Pktline.{Kind, eof}
use go_ls_remote.Pktline.Frame.{frames}
use go_ls_remote.Pktline.Incoming.{Incoming, stop, incoming, queue}
use go_ls_remote.Pktline.Reader.Truncated.{ends_after}
use go_ls_remote.Pktline.Writer.{Writer, write_flush, sink_write, emit}
use go_ls_remote.Wire.{RawCapabilities, RefsArgs}
use go_ls_remote.Wire.Capabilities.{has, get}
use go_ls_remote.Wire.LsRefs.Request.{allowed}
use go_ls_remote.Server.{replied, reply}
use go_ls_remote.Server.LsRefs.{ref_match}
use go_ls_remote.Server.LsRefs.Respond.{
  respond_ls_refs, write_ls_refs_response, emit_head, collect_ls_refs_refs, matching_refs,
  write_refs,
}
use go_ls_remote.Server.ObjectInfo.{ObjectAnswer, missing}
use go_ls_remote.Server.Sort.{sort_refs}
use go_ls_remote.Server.Store.{Store, head_is, refs_end, absent}
use go_ls_remote.Server.Serve.{closed, starved, packets, serve_command_loop, run_v2_command_loop}
use go_ls_remote.Server.Serve.Requests.{
  no_more, answered, session_packets, serve_command_loop-answers,
}
use go_ls_remote.Server.Serve.Ends.{run_v2_command_loop-ends}

abbrev fresh : Writer
fresh = record { written = []; writes_left = none; enabled = false; events = [] }

abbrev all_refs : RefsArgs
all_refs = record { prefixes = []; peel = false; symrefs = false; unborn = false }

abbrev advertised : RawCapabilities
advertised = []

abbrev empty : Store
empty = record {
  algo = sha1;
  head = head_is (record { symref = bytes "refs/heads/main"; oid = zero_id sha1; unborn = true });
  refs = refs_end;
  peel = λ id. absent;
}

abbrev same : Bytes → Bytes
same s = s

abbrev mark : Kind → Bytes
mark k = bytes "control"

abbrev never : ℕ → Bool
never n = false

abbrev nothing : Bytes → ObjectAnswer
nothing id = missing

abbrev after_flushes : Bytes → Writer
after_flushes b = record { written = b; writes_left = none; enabled = false; events = [] }

-- The store has neither a born HEAD nor a ref, so a response is a flush.
empty_answer :
    (w : Writer) → (respond_ls_refs empty (allowed all_refs advertised) w) ≡ reply (write_flush w)
empty_answer w =
    unfold respond_ls_refs write_ls_refs_response emit_head collect_ls_refs_refs matching_refs
      write_refs sort_refs ref_match is_zero has get equal in
    refl

first_answer :
    respond_ls_refs empty (allowed all_refs advertised) fresh
    ≡ replied (after_flushes (bytes "0000"))
first_answer = empty_answer fresh ∙ (unfold write_flush sink_write emit in refl)

second_answer :
    respond_ls_refs empty (allowed all_refs advertised) (after_flushes (bytes "0000"))
    ≡ replied (after_flushes (bytes "00000000"))
second_answer =
    empty_answer (after_flushes (bytes "0000")) ∙ (unfold write_flush sink_write emit in refl)

session_example :
    serve_command_loop same mark sha1 empty nothing never
      (incoming (ends_after (frames (session_packets advertised [] (all_refs ∷ all_refs ∷ [])))))
      fresh
    ≡ closed (after_flushes (bytes "00000000"))
session_example =
    serve_command_loop-answers same mark sha1 empty nothing advertised [] never (λ n. refl)
      (all_refs ∷ all_refs ∷ []) fresh (after_flushes (bytes "00000000"))
      (unfold has get equal in omega arith) (tt, (tt, tt))
      (answered first_answer (answered second_answer no_more))

abbrev requests : Incoming
requests = queue (session_packets advertised [] (all_refs ∷ all_refs ∷ [])) (stop eof)

ends_example :
    run_v2_command_loop same mark sha1 empty nothing never (suc (packets requests)) 0 requests fresh
    ≢ starved
ends_example =
    run_v2_command_loop-ends same mark sha1 empty nothing never (suc (packets requests)) 0 requests
      fresh (omega arith)
