-- ===== src/Server/LsRefs/Respond.antt =====
-- internal/server/ls_refs.go: the response to `ls-refs`.
use go_ls_remote.Base.{
  Bool, true, false, ◌&&◌, not, [], ◌∷◌, ◌++◌, List, if◌then◌else◌, Bytes, Result, ok, err, ◌>>=◌,
}
use go_ls_remote.Base.Text.{bytes}
use go_ls_remote.Objfmt.Hash.{hex, is_zero}
use go_ls_remote.Pktline.Writer.{Writer, write_packet, write_flush}
use go_ls_remote.Wire.{RefsArgs}
use go_ls_remote.Server.{ServerError, store_failed, Reply, replied, reply_fault, reply, reply_then}
use go_ls_remote.Server.LsRefs.{ref_match}
use go_ls_remote.Server.Sort.{sort_refs}
use go_ls_remote.Server.Store.{
  Head, RefEntry, Peel, peel_failed, absent, peels_to, HeadAnswer, head_failed, head_is, Refs,
  refs_end, refs_failed, refs_next, Store, ref_peel,
}

-- ` peeled:<hex>`, if the answer is an id that is not zero.
abbrev pub peel_text : Peel → Result ServerError Bytes
peel_text peel_failed = err store_failed
peel_text absent = ok []
peel_text (peels_to h) = ok (if is_zero h then [] else bytes " peeled:" ++ hex h)

abbrev pub peel_if : Bool → Peel → Result ServerError Bytes
peel_if true p = peel_text p
peel_if false p = ok []

abbrev pub symref_text : Bytes → Bytes
symref_text [] = []
symref_text (c ∷ s) = bytes " symref-target:" ++ (c ∷ s)

-- `formatRefLine`.
unfoldable pub format_ref_line : Store → RefsArgs → RefEntry → Result ServerError Bytes
format_ref_line store args ref = do
  peel ← peel_if args.peel (ref_peel store ref)
  ok (hex ref.oid ++ (bytes " " ++ (ref.name ++ (peel ++ bytes "\n"))))

-- The line of `emitHead` for a HEAD that has an id.
unfoldable pub format_head_line : Store → RefsArgs → Head → Result ServerError Bytes
format_head_line store args head = do
  peel ← peel_if args.peel (store.peel head.oid)
  ok (
      hex head.oid
      ++ (bytes " HEAD"
          ++ ((if args.symrefs then symref_text head.symref else []) ++ (peel ++ bytes "\n"))))

abbrev pub send_line : Result ServerError Bytes → Writer → Reply
send_line (err e) w = reply_fault e w
send_line (ok line) w = reply (write_packet line w)

-- `emitHead`.
unfoldable pub emit_head : Store → RefsArgs → Head → Writer → Reply
emit_head store args head w =
    if ref_match args.prefixes (bytes "HEAD")
    then (if not head.unborn && not (is_zero head.oid)
        then send_line (format_head_line store args head) w
        else if head.unborn && (args.unborn && args.symrefs)
        then reply
            (write_packet (bytes "unborn HEAD symref-target:" ++ (head.symref ++ bytes "\n")) w)
        else replied w)
    else replied w

-- The loop of `collectLSRefsRefs`.
unfoldable pub matching_refs : List Bytes → Refs → Result ServerError (List RefEntry)
matching_refs prefixes refs_end = ok []
matching_refs prefixes refs_failed = err store_failed
matching_refs prefixes (refs_next r rest) = do
  refs ← matching_refs prefixes rest
  ok (if ref_match prefixes r.name then r ∷ refs else refs)

-- `collectLSRefsRefs`.
unfoldable pub collect_ls_refs_refs : Store → List Bytes → Result ServerError (List RefEntry)
collect_ls_refs_refs store prefixes = do
  refs ← matching_refs prefixes store.refs
  ok (sort_refs refs)

-- The loop of `writeLSRefsResponse`.
unfoldable pub write_refs : Store → RefsArgs → List RefEntry → Writer → Reply
write_refs store args [] w = replied w
write_refs store args (r ∷ refs) w =
    reply_then (send_line (format_ref_line store args r) w) (write_refs store args refs)

abbrev pub write_collected : Store → RefsArgs → Result ServerError (List RefEntry) → Writer → Reply
write_collected store args (err e) w = reply_fault e w
write_collected store args (ok refs) w = write_refs store args refs w

abbrev pub write_from_head : Store → RefsArgs → HeadAnswer → Writer → Reply
write_from_head store args head_failed w = reply_fault store_failed w
write_from_head store args (head_is head) w =
    reply_then (emit_head store args head w)
      (write_collected store args (collect_ls_refs_refs store args.prefixes))

-- `writeLSRefsResponse`.
unfoldable pub write_ls_refs_response : Store → RefsArgs → Writer → Reply
write_ls_refs_response store args w = write_from_head store args store.head w

-- `handleLSRefs` behind the reading of its arguments.
unfoldable pub respond_ls_refs : Store → RefsArgs → Writer → Reply
respond_ls_refs store args w =
    reply_then (write_ls_refs_response store args w) (λ v. reply (write_flush v))
