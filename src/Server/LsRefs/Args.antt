-- ===== src/Server/LsRefs/Args.antt =====
-- The server's reading of an `ls-refs` request that the client's encoder wrote.
use go_ls_remote.Base.{
  Bool, equal, true, false, ◌≡◌, refl, ap, sym, ◌∙◌, [], ◌∷◌, ◌++◌, List, some, if◌then◌else◌,
  Bytes, arith, append-nil, append_assoc,
}
use go_ls_remote.Base.Text.{bytes, cut_prefix, trim_suffix-append}
use go_ls_remote.Pktline.{Kind, Packet, control, flush}
use go_ls_remote.Pktline.Incoming.{Incoming, more, queue}
use go_ls_remote.Pktline.Writer.{Writer}
use go_ls_remote.Pktline.Writer.Sends.{line_packet}
use go_ls_remote.Wire.{RefsArgs}
use go_ls_remote.Wire.LsRefs.Request.{
  lines_of, flag_lines, prefix_lines, arg_lines, lines_of-append,
}
use go_ls_remote.Server.{Served, served}
use go_ls_remote.Server.LsRefs.{no_args, take_arg, ls_refs_args_loop, parse_ls_refs_args}

pub queue-append : (a b : List Packet) (q : Incoming) → queue (a ++ b) q ≡ queue a (queue b q)
queue-append [] b q = refl
queue-append (p ∷ a) b q = ap (more p) (queue-append a b q)

module _ (quote : Bytes → Bytes) (kind_mark : Kind → Bytes) (w : Writer) where
  abbrev loop : Incoming → RefsArgs → Served RefsArgs
  loop q args = ls_refs_args_loop quote kind_mark q args w

  loop_line :
      (l : Bytes) (q : Incoming) (args a : RefsArgs)
      → take_arg args l ≡ some a
      → loop (more (line_packet l) q) args ≡ loop q a
  unfolding ls_refs_args_loop
  loop_line l q args a e = ground (arith, trim_suffix-append b'\n' l)

  loop_flag :
      (on : Bool) (l : Bytes) (q : Incoming) (args a : RefsArgs)
      → take_arg args l ≡ some a
      → loop (queue (lines_of (flag_lines on l)) q) args ≡ loop q (if on then a else args)
  loop_flag true l q args a e = loop_line l q args a e
  loop_flag false l q args a e = refl

  loop_prefixes :
      (ps : List Bytes) (q : Incoming) (args : RefsArgs)
      → loop (queue (lines_of (prefix_lines ps)) q) args
        ≡ loop q (record args { prefixes = args.prefixes ++ ps })
  loop_prefixes [] q args =
      ap (λ (t : List Bytes). loop q (record args { prefixes = t }))
        (sym (append-nil args.prefixes))
  loop_prefixes (p ∷ ps) q args =
      let args' = record args { prefixes = args.prefixes ++ (p ∷ []) } in
      loop_line (bytes "ref-prefix " ++ p) (queue (lines_of (prefix_lines ps)) q) args args'
        (unfold take_arg equal cut_prefix in refl)
      ∙ loop_prefixes ps q args'
      ∙ ap (λ (t : List Bytes). loop q (record args { prefixes = t }))
          (append_assoc args.prefixes (p ∷ []) ps)

  loop-flush :
      (q : Incoming) (args : RefsArgs) → loop (more (control flush) q) args ≡ served args q w
  unfolding ls_refs_args_loop
  loop-flush q args = refl

  queue_args :
      (args : RefsArgs) (q : Incoming)
      → queue (lines_of (arg_lines args) ++ (control flush ∷ [])) q
        ≡ queue (lines_of (flag_lines args.peel (bytes "peel"))) (
            queue (lines_of (flag_lines args.symrefs (bytes "symrefs"))) (
              queue
                (lines_of (flag_lines args.unborn (bytes "unborn")))
                (queue (lines_of (prefix_lines args.prefixes)) (more (control flush) q))))
  queue_args args q = simp (lines_of-append, append_assoc, queue-append)

  -- The three flags, set one after the other on no arguments, and the prefixes.
  collected : (p s u : Bool) (ps : List Bytes) → RefsArgs
  collected p s u ps =
      let a = if p then record no_args { peel = true } else no_args in
      let b = if s then record a { symrefs = true } else a in
      let c = if u then record b { unborn = true } else b in
      record c { prefixes = c.prefixes ++ ps }

  collected_lem :
      (args : RefsArgs) → collected args.peel args.symrefs args.unborn args.prefixes ≡ args
  unfolding collected
  collected_lem args = ground arith

  pub args_of_lines :
      (args : RefsArgs) (q : Incoming)
      → parse_ls_refs_args quote kind_mark
          (queue (lines_of (arg_lines args) ++ (control flush ∷ [])) q)
          w
        ≡ served args q w
  unfolding parse_ls_refs_args collected
  args_of_lines args q =
      let a = if args.peel then record no_args { peel = true } else no_args in
      let b = if args.symrefs then record a { symrefs = true } else a in
      let c = if args.unborn then record b { unborn = true } else b in
      ap (λ (t : Incoming). loop t no_args) (queue_args args q)
      ∙ loop_flag args.peel (bytes "peel") _ no_args (record no_args { peel = true })
          (unfold take_arg equal in refl)
      ∙ loop_flag args.symrefs (bytes "symrefs") _ a (record a { symrefs = true })
          (unfold take_arg equal in refl)
      ∙ loop_flag args.unborn (bytes "unborn") _ b (record b { unborn = true })
          (unfold take_arg equal in refl)
      ∙ loop_prefixes args.prefixes (more (control flush) q) c
      ∙ loop-flush q (record c { prefixes = c.prefixes ++ args.prefixes })
      ∙ ap (λ (t : RefsArgs). served t q w) (collected_lem args)
