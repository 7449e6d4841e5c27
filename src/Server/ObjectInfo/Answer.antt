-- ===== src/Server/ObjectInfo/Answer.antt =====
-- The `object-info` response, from the store over the wire to the rows that the client is given.
use go_ls_remote.Base.{
  ℕ, ◌<◌, ◌^◌, true, ◌≡◌, refl, ap, ◌∙◌, sym, [], ◌∷◌, ◌++◌, List, map, none, some, Bytes, IsByte,
  All, All-append, arith, append_assoc, ok, length, equal,
}
use go_ls_remote.Base.Decimal.{
  pos, parse_int, append_int, parse_int-append_int, StartsDigit, append_int-StartsDigit,
}
use go_ls_remote.Base.Text.{bytes, cut, cut_prefix, trim_suffix, trim_suffix-append}
use go_ls_remote.Base.Fields.{is_space}
use go_ls_remote.Base.Spaces.{fields_at, space_width}
use go_ls_remote.Objfmt.Hash.{Algo, size, sha1, sha256, hex, parse_hex-hex}
use go_ls_remote.Pktline.{control, flush, eof}
use go_ls_remote.Pktline.Frame.{frames, IsPacket}
use go_ls_remote.Pktline.Incoming.{Incoming, stop, more, incoming, queue, incoming-whole}
use go_ls_remote.Pktline.Reader.Truncated.{ends_after}
use go_ls_remote.Pktline.Writer.{Writer, write_packet, write_flush}
use go_ls_remote.Pktline.Writer.Frames.{sent}
use go_ls_remote.Pktline.Writer.Sends.{line_packet, LineFits}
use go_ls_remote.Pktline.{Packet}
use go_ls_remote.Wire.{check_err_packet}
use go_ls_remote.Wire.Advertisement.RefLines.{named_line, cut-named_line}
use go_ls_remote.Wire.LsRefs.Request.{lines_of, lines_of-IsPacket}
use go_ls_remote.Wire.ObjectInfo.{
  RawObjectInfo, with_row, tail_row, sized_row, cut_row, parse_object_info_line, object_info_rows,
  looks_like_oid_line, first_line_infos, decode_object_info, unless_refused,
}
use go_ls_remote.Server.{replied, reply}
use go_ls_remote.Server.LsRefs.Args.{queue-append}
use go_ls_remote.Server.LsRefs.Lines.{hex_no_error}
use go_ls_remote.Server.ObjectInfo.{
  answered, ObjectAnswer, has_size, missing, unreadable, looked_up, emit_object_info_line,
  emit_lines, write_object_info_response, respond_object_info,
}
use go_ls_remote.Server.Replies.{
  Replies, Replies-nothing, Replies-then, Replies-line, Replies-flush,
}

-- The size column of an answer.
abbrev pub column : ObjectAnswer → Bytes
column (has_size n) = append_int n
column missing = []
column (unreadable text) = []

abbrev pub info_line : Bytes → ObjectAnswer → Bytes
info_line h a = named_line h (column a)

-- The store can answer: the object's size is an int64, or it is missing.
abbrev pub Answered : ObjectAnswer → Type 0
Answered (has_size n) = n < 2 ^ 63
Answered missing = Unit {0}
Answered (unreadable text) = ⊥

abbrev pub row_onto : Bytes → ObjectAnswer → List RawObjectInfo → List RawObjectInfo
row_onto h (has_size n) rows = record { oid = hex h; size = pos n } ∷ rows
row_onto h missing rows = rows
row_onto h (unreadable text) rows = rows

size_row :
    (c : ℕ) (oid s : Bytes)
    → StartsDigit s
    → tail_row (c ∷ oid) s true ≡ sized_row (c ∷ oid) (parse_int s)
size_row c oid [] h = elim h [ ]
size_row c oid (d ∷ s) h = refl

Replies-answered :
    (h : Bytes) (a : ObjectAnswer)
    → Answered a
    → LineFits (info_line h a)
    → Replies (answered (hex h) true a) (line_packet (info_line h a) ∷ [])
Replies-answered h (has_size n) k f = λ w free.
    ap (λ t. reply (write_packet t w))
      (sym (append_assoc (hex h) (b' ' ∷ append_int n) (bytes "\n")))
    ∙ Replies-line (info_line h (has_size n)) f w free
Replies-answered h missing k f = λ w free.
    ap (λ t. reply (write_packet t w)) (sym (append_assoc (hex h) (b' ' ∷ []) (bytes "\n")))
    ∙ Replies-line (info_line h missing) f w free
Replies-answered h (unreadable text) k f = elim k [ ]

row_of_cut :
    (c : ℕ) (h : Bytes) (a : ObjectAnswer) (rows : List RawObjectInfo)
    → Answered a
    → with_row (cut_row (some (hex (c ∷ h), column a)) (info_line (c ∷ h) a) true) (ok rows)
      ≡ ok (row_onto (c ∷ h) a rows)
unfolding hex
row_of_cut c h (has_size n) rows k =
    ap (λ r. with_row r (ok rows))
      (size_row _ _ (append_int n) (append_int-StartsDigit n)
        ∙ ap (sized_row (hex (c ∷ h))) (parse_int-append_int n k))
row_of_cut c h missing rows k = refl
row_of_cut c h (unreadable text) rows k = elim k [ ]

rows_line :
    (c : ℕ) (h : Bytes) (a : ObjectAnswer) (q : Incoming) (rows : List RawObjectInfo)
    → Answered a
    → object_info_rows true q ≡ ok rows
    → object_info_rows true (more (line_packet (info_line (c ∷ h) a)) q)
      ≡ ok (row_onto (c ∷ h) a rows)
unfolding object_info_rows parse_object_info_line
rows_line c h a q rows k e =
    ap
      (λ l.
        unless_refused (check_err_packet l)
          (with_row (cut_row (cut b' ' l) l true) (object_info_rows true q)))
      (trim_suffix-append b'\n' (info_line (c ∷ h) a))
    ∙ ap
        (λ m. unless_refused m (
          with_row (cut_row (cut b' ' (info_line (c ∷ h) a)) (info_line (c ∷ h) a) true)
            (object_info_rows true q)))
        (hex_no_error c h (b' ' ∷ column a))
    ∙ ap (λ m. with_row (cut_row m (info_line (c ∷ h) a) true) (object_info_rows true q))
        (cut-named_line (c ∷ h) (column a))
    ∙ ap (with_row (cut_row (some (hex (c ∷ h), column a)) (info_line (c ∷ h) a) true)) e
    ∙ row_of_cut c h a rows k

rows_end : (q : Incoming) → object_info_rows true (more (control flush) q) ≡ ok []
unfolding object_info_rows
rows_end q = refl

size_line :
    (q : Incoming)
    → decode_object_info (more (line_packet (bytes "size")) q) ≡ object_info_rows true q
unfolding decode_object_info first_line_infos looks_like_oid_line check_err_packet fields_at
    space_width is_space cut cut_prefix trim_suffix equal
size_line q = refl

no_empty_id : (algo : Algo) → 0 ≡ size algo → ⊥
no_empty_id sha1 e = absurd (omega arith)
no_empty_id sha256 e = absurd (omega arith)

module _ (algo : Algo) (object_info : Bytes → ObjectAnswer) where
  -- An object id of the algorithm that the store answers for.
  pub record IsAnswered (h : Bytes) : Type 0 where
    pub is_long : length h ≡ size algo
    pub is_bytes : All IsByte h
    pub answer : Answered (object_info h)
    pub fits : LineFits (info_line h (object_info h))

  abbrev pub info_lines : List Bytes → List Bytes
  info_lines [] = []
  info_lines (h ∷ hs) = info_line h (object_info h) ∷ info_lines hs

  -- The objects that the store has, with their sizes.
  abbrev pub found : List Bytes → List RawObjectInfo
  found [] = []
  found (h ∷ hs) = row_onto h (object_info h) (found hs)

  abbrev pub response_lines : List Bytes → List Bytes
  response_lines [] = []
  response_lines (h ∷ hs) = bytes "size" ∷ info_lines (h ∷ hs)

  Replies-answer :
      (h : Bytes)
      → IsAnswered h
      → Replies
          (emit_object_info_line algo object_info (hex h) true)
          (line_packet (info_line h (object_info h)) ∷ [])
  unfolding emit_object_info_line
  Replies-answer h k = λ w free.
      ap (λ o. looked_up object_info (hex h) true o w) (parse_hex-hex algo h k.is_long k.is_bytes)
      ∙ Replies-answered h (object_info h) k.answer k.fits w free

  Replies-lines :
      (hs : List Bytes)
      → All IsAnswered hs
      → Replies (emit_lines algo object_info (map hex hs) true) (lines_of (info_lines hs))
  unfolding emit_lines
  Replies-lines [] k = Replies-nothing
  Replies-lines (h ∷ hs) k =
      Replies-then (emit_object_info_line algo object_info (hex h) true)
        (emit_lines algo object_info (map hex hs) true)
        (line_packet (info_line h (object_info h)) ∷ []) (lines_of (info_lines hs))
        (Replies-answer h k.0) (Replies-lines hs k.1)

  read_rows :
      (hs : List Bytes) (q : Incoming)
      → All IsAnswered hs
      → object_info_rows true (queue (lines_of (info_lines hs)) (more (control flush) q))
        ≡ ok (found hs)
  read_rows [] q k = rows_end q
  read_rows ([] ∷ hs) q k = elim (no_empty_id algo k.0.is_long) [ ]
  read_rows ((c ∷ h) ∷ hs) q k =
      rows_line c h (object_info (c ∷ h))
        (queue (lines_of (info_lines hs)) (more (control flush) q)) (found hs) k.0.answer
        (read_rows hs q k.1)

  Replies-response :
      (hs : List Bytes)
      → All IsAnswered hs
      → Replies
          (write_object_info_response algo object_info (record { size = true }, map hex hs))
          (lines_of (response_lines hs))
  unfolding write_object_info_response
  Replies-response [] k = Replies-nothing
  Replies-response (h ∷ hs) k =
      Replies-then (λ u. reply (write_packet (bytes "size\n") u))
        (emit_lines algo object_info (map hex (h ∷ hs)) true) (line_packet (bytes "size") ∷ [])
        (lines_of (info_lines (h ∷ hs))) (Replies-line (bytes "size") (omega arith))
        (Replies-lines (h ∷ hs) k)

  lines-fit : (hs : List Bytes) → All IsAnswered hs → All LineFits (info_lines hs)
  lines-fit [] k = tt
  lines-fit (h ∷ hs) k = (k.0.fits, lines-fit hs k.1)

  response-fits : (hs : List Bytes) → All IsAnswered hs → All LineFits (response_lines hs)
  response-fits [] k = tt
  response-fits (h ∷ hs) k = (omega arith, lines-fit (h ∷ hs) k)

  read_response :
      (hs : List Bytes)
      → All IsAnswered hs
      → decode_object_info (queue (lines_of (response_lines hs)) (more (control flush) (stop eof)))
        ≡ ok (found hs)
  read_response [] k = unfold decode_object_info in refl
  read_response (h ∷ hs) k =
      size_line (queue (lines_of (info_lines (h ∷ hs))) (more (control flush) (stop eof)))
      ∙ read_rows (h ∷ hs) (stop eof) k

  -- For object ids of the algorithm that the store has with a size that is an int64, or does not have, the
  -- response to `object-info` with `size`, on an underlying writer that takes everything and with lines
  -- that fit, is decoded by the client as the objects that the store has, in the order of the
  -- request and with their sizes; a missing object has no row.
  pub object_info_response-decoded :
      (hs : List Bytes) (w : Writer)
      → w.writes_left ≡ none
      → All IsAnswered hs
      → (b : Bytes) × (ps : List Packet) × (respond_object_info algo object_info
            (record { size = true }, map hex hs)
            w
          ≡ replied (sent w b ps))
        × (decode_object_info (incoming (ends_after b)) ≡ ok (found hs))
  unfolding respond_object_info
  object_info_response-decoded hs w free k =
      let ls = response_lines hs in
      let ps = lines_of ls ++ (control flush ∷ []) in
      (
        frames ps,
        ps,
        Replies-then
            (write_object_info_response algo object_info (record { size = true }, map hex hs))
            (λ v. reply (write_flush v)) (lines_of ls) (control flush ∷ []) (Replies-response hs k)
            Replies-flush w free,
        ap decode_object_info (
              incoming-whole ps (
                All-append IsPacket (lines_of ls) (control flush ∷ [])
                  (lines_of-IsPacket ls (response-fits hs k)) (refl, tt))
              ∙ queue-append (lines_of ls) (control flush ∷ []) (stop eof))
            ∙ read_response hs k,
      )
