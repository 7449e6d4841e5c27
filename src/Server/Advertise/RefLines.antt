-- ===== src/Server/Advertise/RefLines.antt =====
-- The ref lines of a v0 advertisement: what the server sends and what the client reads.
use go_ls_remote.Base.{
  Bool, true, ◌≡◌, ◌≢◌, refl, ap, ◌∙◌, sym, [], ◌∷◌, ◌++◌, List, if◌then◌else◌, Bytes, All,
  append_assoc, append-nil, Bool-cases, inl, inr,
}
use go_ls_remote.Base.Text.{bytes, Lacks}
use go_ls_remote.Objfmt.Hash.{is_zero, hex}
use go_ls_remote.Pktline.Incoming.{Incoming, more, queue}
use go_ls_remote.Pktline.Writer.{write_packet}
use go_ls_remote.Pktline.Frame.{frames}
use go_ls_remote.Pktline.Writer.Frames.{sent}
use go_ls_remote.Pktline.Writer.Sends.{line_packet, LineFits}
use go_ls_remote.Wire.{RawRef}
use go_ls_remote.Wire.Advertisement.{ref_lines_loop, reversed_onto}
use go_ls_remote.Wire.Advertisement.RefLines.{
  named_line, IsUnmarked, take_ref_line-named, take_ref_line-peeled, ref_lines_loop-line,
}
use go_ls_remote.Wire.LsRefs.{plain_ref}
use go_ls_remote.Wire.LsRefs.Request.{lines_of, lines_of-append}
use go_ls_remote.Server.{replied, reply, reply_then}
use go_ls_remote.Server.Advertise.{write_peel, write_v0_refs, caps_text}
use go_ls_remote.Server.LsRefs.Lines.{Answers, peel_hex, seen_ref}
use go_ls_remote.Server.Replies.{Replies, Replies-nothing, Replies-then, Replies-line}
use go_ls_remote.Server.Store.{RefEntry, Peel, peel_failed, absent, peels_to, Store, ref_peel}

-- A ref that a line can carry: its name does not end in the peeled marker, and its peel is answered.
pub record IsListable (store : Store) (r : RefEntry) : Type 0 where
  pub unmarked : IsUnmarked r.name
  pub no_nul : Lacks 0 r.name
  pub not_head : r.name ≢ bytes "HEAD"
  pub peel_answered : Answers (ref_peel store r)

abbrev pub peel_lines : Bytes → Peel → List Bytes
peel_lines name peel_failed = []
peel_lines name absent = []
peel_lines name (peels_to h) = if is_zero h then [] else named_line h (name ++ bytes "^{}") ∷ []

-- The lines of refs behind the line with the capabilities.
abbrev pub ref_lines : Store → List RefEntry → List Bytes
ref_lines store [] = []
ref_lines store (r ∷ rs) =
    named_line r.oid r.name ∷ (peel_lines r.name (ref_peel store r) ++ ref_lines store rs)

-- The client's view of the refs.
abbrev pub seen_refs : Store → List RefEntry → List RawRef
seen_refs store [] = []
seen_refs store (r ∷ rs) =
    seen_ref r.oid r.name [] (peel_hex true (ref_peel store r)) ∷ seen_refs store rs

peeled_line :
    (o name : Bytes)
    → hex o ++ (bytes " " ++ (name ++ bytes "^{}\n"))
      ≡ named_line o (name ++ bytes "^{}") ++ bytes "\n"
peeled_line o name = sym (
    append_assoc (hex o) (b' ' ∷ (name ++ bytes "^{}")) (bytes "\n")
    ∙ ap (λ t. hex o ++ (b' ' ∷ t)) (append_assoc name (bytes "^{}") (bytes "\n")))

Replies-peel :
    (name : Bytes) (p : Peel)
    → Answers p
    → All LineFits (peel_lines name p)
    → Replies (write_peel name p) (lines_of (peel_lines name p))
Replies-peel name peel_failed a h = elim a [ ]
Replies-peel name absent a h = Replies-nothing
Replies-peel name (peels_to o) a h = elim (Bool-cases (is_zero o)) [
  | inl z ↦ rw z Replies-nothing
  | inr n ↦ rw n (λ w free.
      rw (peeled_line o name)
        (Replies-line (named_line o (name ++ bytes "^{}")) (rw n at h).0 w free))
]

pub read-peel :
    (o name : Bytes) (p : Peel) (q : Incoming) (acc : List RawRef)
    → Answers p
    → ref_lines_loop (queue (lines_of (peel_lines name p)) q) (plain_ref (hex o) name ∷ acc)
      ≡ ref_lines_loop q (seen_ref o name [] (peel_hex true p) ∷ acc)
read-peel o name peel_failed q acc a = elim a [ ]
read-peel o name absent q acc a = refl
read-peel o name (peels_to h) q acc a = elim (Bool-cases (is_zero h)) [
  | inl z ↦ rw z refl
  | inr n ↦ rw n (
      ref_lines_loop-line (named_line h (name ++ bytes "^{}")) q (plain_ref (hex o) name ∷ acc) _
        (take_ref_line-peeled h (plain_ref (hex o) name) acc refl))
]

pub queue-lines :
    (xs ys : List Bytes) (q : Incoming)
    → queue (lines_of (xs ++ ys)) q ≡ queue (lines_of xs) (queue (lines_of ys) q)
queue-lines [] ys q = refl
queue-lines (x ∷ xs) ys q = ap (more (line_packet x)) (queue-lines xs ys q)

-- The refs' lines, behind the line with the capabilities, are read as the refs.
pub read-refs :
    (store : Store) (rs : List RefEntry) (q : Incoming) (acc : List RawRef)
    → All (IsListable store) rs
    → ref_lines_loop (queue (lines_of (ref_lines store rs)) q) acc
      ≡ ref_lines_loop q (reversed_onto (seen_refs store rs) acc)
read-refs store [] q acc h = refl
read-refs store (r ∷ rs) q acc h =
    let p = ref_peel store r in
    let tail = queue (lines_of (ref_lines store rs)) q in
    ref_lines_loop-line (named_line r.oid r.name)
      (queue (lines_of (peel_lines r.name p ++ ref_lines store rs)) q) acc _
      (take_ref_line-named r.oid r.name acc h.0.unmarked)
    ∙ ap (λ x. ref_lines_loop x (plain_ref (hex r.oid) r.name ∷ acc))
        (queue-lines (peel_lines r.name p) (ref_lines store rs) q)
    ∙ read-peel r.oid r.name p tail acc h.0.peel_answered
    ∙ read-refs store rs q (seen_ref r.oid r.name [] (peel_hex true p) ∷ acc) h.1

pub emitted_line :
    (o name caps : Bytes)
    → hex o ++ (bytes " " ++ (name ++ (caps ++ bytes "\n")))
      ≡ named_line o (name ++ caps) ++ bytes "\n"
emitted_line o name caps = sym (
    append_assoc (hex o) (b' ' ∷ (name ++ caps)) (bytes "\n")
    ∙ ap (λ t. hex o ++ (b' ' ∷ t)) (append_assoc name caps (bytes "\n")))

-- The text of a ref line, with the capabilities if none have been sent.
abbrev pub v0_lines : Store → Bytes → Bool → List RefEntry → List Bytes
v0_lines store caps emitted [] = []
v0_lines store caps emitted (r ∷ rs) =
    named_line r.oid (r.name ++ caps_text emitted caps)
    ∷ (peel_lines r.name (ref_peel store r) ++ ref_lines store rs)

All-front : (xs ys : List Bytes) → All LineFits (xs ++ ys) → All LineFits xs
All-front [] ys h = tt
All-front (x ∷ xs) ys h = (h.0, All-front xs ys h.1)

All-back : (xs ys : List Bytes) → All LineFits (xs ++ ys) → All LineFits ys
All-back [] ys h = h
All-back (x ∷ xs) ys h = All-back xs ys h.1

pub v0_lines_emitted :
    (store : Store) (caps : Bytes) (rs : List RefEntry)
    → v0_lines store caps true rs ≡ ref_lines store rs
v0_lines_emitted store caps [] = refl
v0_lines_emitted store caps (r ∷ rs) =
    ap (λ n. named_line r.oid n ∷ (peel_lines r.name (ref_peel store r) ++ ref_lines store rs))
      (append-nil r.name)

pub Replies-refs :
    (store : Store) (caps : Bytes) (emitted : Bool) (rs : List RefEntry)
    → All (IsListable store) rs
    → All LineFits (v0_lines store caps emitted rs)
    → Replies (write_v0_refs store caps emitted rs) (lines_of (v0_lines store caps emitted rs))
unfolding write_v0_refs
Replies-refs store caps emitted [] h f = Replies-nothing
Replies-refs store caps emitted (r ∷ rs) h f =
    let p = ref_peel store r in
    let line = named_line r.oid (r.name ++ caps_text emitted caps) in
    let later =
      rw (sym (v0_lines_emitted store caps rs)) at
        (All-back (peel_lines r.name p) (ref_lines store rs) f.1) in
    let rest = Replies-refs store caps true rs h.1 later in
    let same : line_packet line
          ∷ (lines_of (peel_lines r.name p) ++ lines_of (v0_lines store caps true rs))
        ≡ lines_of (v0_lines store caps emitted (r ∷ rs)) =
      ap (λ ls. line_packet line ∷ (lines_of (peel_lines r.name p) ++ lines_of ls))
        (v0_lines_emitted store caps rs)
      ∙ ap (◌∷◌ (line_packet line))
          (sym (lines_of-append (peel_lines r.name p) (ref_lines store rs))) in
    λ w free. rw (emitted_line r.oid r.name (caps_text emitted caps)) (
      Replies-then (λ v. reply (write_packet (line ++ bytes "\n") v))
        (λ v. reply_then (write_peel r.name p v) (write_v0_refs store caps true rs))
        (line_packet line ∷ []) _ (Replies-line line f.0)
        (Replies-then (write_peel r.name p) (write_v0_refs store caps true rs)
          (lines_of (peel_lines r.name p)) _
          (Replies-peel r.name p h.0.peel_answered
            (All-front (peel_lines r.name p) (ref_lines store rs) f.1))
          rest)
        w free
      ∙ ap (λ ps. replied (sent w (frames ps) ps)) same)
