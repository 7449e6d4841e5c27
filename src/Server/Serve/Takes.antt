-- ===== src/Server/Serve/Takes.antt =====
-- The packets that the steps of a session take.
use go_ls_remote.Base.{
  ℕ, suc, ◌≤◌, ◌<◌, arith, Bool, true, false, [], ◌∷◌, List, Option, none, some, if◌then◌else◌,
  equal, Bytes, ◌++◌,
}
use go_ls_remote.Base.Text.{bytes, cut_prefix, trim_suffix}
use go_ls_remote.Pktline.{eof, Kind, payload, flush, delim, response_end}
use go_ls_remote.Pktline.Incoming.{Incoming, stop, more}
use go_ls_remote.Pktline.Writer.{Writer, Outcome, done, failed}
use go_ls_remote.Wire.{RefsArgs}
use go_ls_remote.Wire.ObjectInfo.{ObjectInfoArgs}
use go_ls_remote.Server.{
  unexpected_packet, Served, served, fault, refuse_after, write_err_packet, Reply, replied,
  reply_fault,
}
use go_ls_remote.Server.CommandLoop.{
  Routed, finished, command, broken, dispatched, named, name_or, continued, request_loop,
  process_v2_request,
}
use go_ls_remote.Server.LsRefs.{refuse_unknown_arg, ls_refs_args_loop, take_arg, args_or}
use go_ls_remote.Server.ObjectInfo.{
  or_write_fault, unexpected_line, write_object_info_err, object_info_args_loop,
}
use go_ls_remote.Server.Serve.{after_reply, then_respond, packets}

-- The packets that a request leaves to its command are no more than `n`.
abbrev pub Leaves : ℕ → Routed → Type 0
Leaves n finished = Unit {0}
Leaves n (broken e) = Unit {0}
Leaves n (command name args) = packets args ≤ n

dispatched-Leaves :
    (n : ℕ) (name : Bytes) (q : Incoming) → packets q ≤ n → Leaves n (dispatched name q)
dispatched-Leaves n [] q h = tt
dispatched-Leaves n (c ∷ name) q h = h

Leaves-more : (m n : ℕ) (r : Routed) → m ≤ n → Leaves m r → Leaves n r
Leaves-more m n finished l h = tt
Leaves-more m n (broken e) l h = tt
Leaves-more m n (command name args) l h = omega (arith, l, h)

continued-Leaves : (n : ℕ) (o : Option Bytes) (r : Routed) → Leaves n r → Leaves n (continued o r)
continued-Leaves n none r h = tt
continued-Leaves n (some name) r h = h

request_loop-Leaves :
    (q : Incoming) (name : Bytes) (seen : Bool) → Leaves (packets q) (request_loop q name seen)
unfolding request_loop
request_loop-Leaves (stop e) name seen = tt
request_loop-Leaves (more p rest) name seen =
    by_kind p.kind seen (request_loop-Leaves rest (name_or so_far) true)
  where
    so_far : Option Bytes
    so_far = named name (cut_prefix (trim_suffix b'\n' p.bytes) (bytes "command="))

    by_kind :
        (k : Kind) (seen : Bool)
        → Leaves (packets rest) (request_loop rest (name_or so_far) true)
        → Leaves (suc (packets rest)) (elim k [
          | flush ↦ if seen then dispatched name (more p rest) else finished
          | delim ↦ dispatched name rest
          | response_end ↦ broken unexpected_packet
          | payload ↦ continued so_far (request_loop rest (name_or so_far) true)
        ])
    by_kind flush true h = dispatched-Leaves (suc (packets rest)) name (more p rest) (omega arith)
    by_kind flush false h = tt
    by_kind delim seen h = dispatched-Leaves (suc (packets rest)) name rest (omega arith)
    by_kind response_end seen h = tt
    by_kind payload seen h =
        continued-Leaves (suc (packets rest)) so_far _
          (Leaves-more (packets rest) (suc (packets rest)) _ (omega arith) h)

pub process_v2_request-Leaves : (q : Incoming) → Leaves (packets q) (process_v2_request q)
unfolding process_v2_request
process_v2_request-Leaves (stop eof) = tt
process_v2_request-Leaves (stop e) = tt
process_v2_request-Leaves (more p rest) = request_loop-Leaves (more p rest) [] false

-- A step that returns has taken a packet of the `n` that were left.
abbrev pub Shrinks : {A : Type 0} → ℕ → Served A → Type 0
Shrinks n (served a rest w) = packets rest < n
Shrinks n (fault e w) = Unit {0}

pub refuse_after-Shrinks :
    (A : Type 0) (n : ℕ) (o : Outcome) (msg : Bytes) → Shrinks {A = A} n (refuse_after o msg)
refuse_after-Shrinks A n (done w) msg = tt
refuse_after-Shrinks A n (failed e w) msg = tt

module _ {A : Type 0} where
  Shrinks-more : (m n : ℕ) (s : Served A) → m ≤ n → Shrinks m s → Shrinks n s
  Shrinks-more m n (served a rest w) l h = omega (arith, l, h)
  Shrinks-more m n (fault e w) l h = tt

  pub then_respond-Shrinks :
      (n : ℕ) (s : Served A) (k : A → Writer → Reply) → Shrinks n s → Shrinks n (then_respond s k)
  then_respond-Shrinks n (fault e w) k h = tt
  then_respond-Shrinks n (served a rest w) k h = replies (k a w)
    where
      replies : (r : Reply) → Shrinks n (after_reply rest r)
      replies (replied v) = h
      replies (reply_fault e v) = tt

module _ (quote : Bytes → Bytes) (kind_mark : Kind → Bytes) where
  pub ls_refs_args_loop-Shrinks :
      (q : Incoming) (args : RefsArgs) (w : Writer)
      → Shrinks (packets q) (ls_refs_args_loop quote kind_mark q args w)
  unfolding ls_refs_args_loop
  ls_refs_args_loop-Shrinks (stop e) args w = tt
  ls_refs_args_loop-Shrinks (more p rest) args w =
      by_kind p.kind taken (ls_refs_args_loop quote kind_mark rest (args_or args taken) w) (
        Shrinks-more (packets rest) (suc (packets rest)) _ (omega arith)
          (ls_refs_args_loop-Shrinks rest (args_or args taken) w))
    where
      taken : Option RefsArgs
      taken = take_arg args (trim_suffix b'\n' p.bytes)

      refusal-Shrinks : (n : ℕ) (arg : Bytes) → Shrinks n (refuse_unknown_arg quote kind_mark arg w)
      refusal-Shrinks n arg =
          unfold refuse_unknown_arg in
          refuse_after-Shrinks RefsArgs n
            (write_err_packet (bytes "ls-refs: unknown argument " ++ quote arg) w)
            (bytes "ls-refs: unknown argument " ++ quote arg)

      by_kind :
          (k : Kind) (t : Option RefsArgs) (next : Served RefsArgs)
          → Shrinks (suc (packets rest)) next
          → Shrinks (suc (packets rest)) (elim k [
            | flush ↦ served args rest w
            | payload ↦ elim t [
              | some a ↦ next
              | none ↦ refuse_unknown_arg quote kind_mark (trim_suffix b'\n' p.bytes) w
            ]
            | other ↦ refuse_unknown_arg quote kind_mark (kind_mark other) w
          ])
      by_kind flush t next h = omega arith
      by_kind payload none next h = refusal-Shrinks (suc (packets rest)) (trim_suffix b'\n' p.bytes)
      by_kind payload (some a) next h = h
      by_kind delim t next h = refusal-Shrinks (suc (packets rest)) (kind_mark delim)
      by_kind response_end t next h = refusal-Shrinks (suc (packets rest)) (kind_mark response_end)

  or_write_fault-Shrinks :
      (n : ℕ) (o : Outcome) (k : Writer → Served (ObjectInfoArgs × List Bytes))
      → ((w : Writer) → Shrinks n (k w))
      → Shrinks n (or_write_fault o k)
  or_write_fault-Shrinks n (done w) k h = h w
  or_write_fault-Shrinks n (failed e w) k h = tt

  pub object_info_args_loop-Shrinks :
      (q : Incoming) (args : ObjectInfoArgs) (oids : List Bytes) (w : Writer)
      → Shrinks (packets q) (object_info_args_loop kind_mark q args oids w)
  unfolding object_info_args_loop
  object_info_args_loop-Shrinks (stop e) args oids w = tt
  object_info_args_loop-Shrinks (more p rest) args oids w =
      by_kind p.kind (equal line (bytes "size")) (cut_prefix line (bytes "oid ")) (λ a o v.
        Shrinks-more (packets rest) (suc (packets rest))
          (object_info_args_loop kind_mark rest a o v) (omega arith)
          (object_info_args_loop-Shrinks rest a o v))
    where
      line : Bytes
      line = trim_suffix b'\n' p.bytes

      skipped :
          (text : Bytes)
          → ((a : ObjectInfoArgs) (o : List Bytes) (v : Writer)
              → Shrinks (suc (packets rest)) (object_info_args_loop kind_mark rest a o v))
          → Shrinks (suc (packets rest)) (
              or_write_fault
                (write_object_info_err text w)
                (object_info_args_loop kind_mark rest args oids))
      skipped text h =
          or_write_fault-Shrinks (suc (packets rest)) (write_object_info_err text w)
            (object_info_args_loop kind_mark rest args oids) (λ v. h args oids v)

      by_kind :
          (k : Kind) (sized : Bool) (found : Option Bytes)
          → ((a : ObjectInfoArgs) (o : List Bytes) (v : Writer)
              → Shrinks (suc (packets rest)) (object_info_args_loop kind_mark rest a o v))
          → Shrinks (suc (packets rest)) (elim k [
            | flush ↦ served (args, oids) rest w
            | payload ↦
                if sized
                then object_info_args_loop kind_mark rest (record args { size = true }) oids w
                else elim found [
                  | some oid ↦ object_info_args_loop kind_mark rest args (oids ++ (oid ∷ [])) w
                  | none ↦
                      or_write_fault
                        (write_object_info_err (unexpected_line line) w)
                        (object_info_args_loop kind_mark rest args oids)
                ]
            | other ↦
                or_write_fault
                  (write_object_info_err (unexpected_line (kind_mark other)) w)
                  (object_info_args_loop kind_mark rest args oids)
          ])
      by_kind flush sized found h = omega arith
      by_kind payload true found h = h (record args { size = true }) oids w
      by_kind payload false (some oid) h = h args (oids ++ (oid ∷ [])) w
      by_kind payload false none h = skipped (unexpected_line line) h
      by_kind delim sized found h = skipped (unexpected_line (kind_mark delim)) h
      by_kind response_end sized found h = skipped (unexpected_line (kind_mark response_end)) h
