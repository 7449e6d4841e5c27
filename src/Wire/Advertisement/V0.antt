-- ===== src/Wire/Advertisement/V0.antt =====
-- `ParseAdvertisement` on the lines of a v0 advertisement.
use go_ls_remote.Base.{◌≡◌, refl, ap, ◌∙◌, [], ◌++◌, List, Option, none, Bytes, ok, ◌>>=◌}
use go_ls_remote.Base.Text.{bytes, cut_prefix, trim_suffix-append}
use go_ls_remote.Pktline.{Packet, control, flush}
use go_ls_remote.Pktline.Incoming.{Incoming, more}
use go_ls_remote.Pktline.Writer.Sends.{line_packet}
use go_ls_remote.Wire.{RawCapabilities, RawRef}
use go_ls_remote.Wire.Advertisement.{
  Parsed, Advertisement, protocol_v0, parse_advertisement, dispatch_advertisement, by_version_line,
  parse_v0_advertisement, parse_first_ref_line, ref_lines_loop, first_refs, apply_symrefs,
  reversed_onto,
}

abbrev pub v0_advertisement : RawCapabilities → List RawRef → Advertisement
v0_advertisement caps refs = record {
  version = protocol_v0;
  caps = caps;
  refs = apply_symrefs (reversed_onto refs []) caps;
}

loop_flush :
    (q : Incoming) (acc : List RawRef) → ref_lines_loop (more (control flush) q) acc ≡ ok (acc, q)
unfolding ref_lines_loop
loop_flush q acc = refl

parse_v0-lines :
    (f : Packet) (q left : Incoming) (caps : RawCapabilities) (fr : Option RawRef)
    (acc : List RawRef)
    → parse_first_ref_line f.bytes ≡ ok (caps, fr)
    → ref_lines_loop q (first_refs fr) ≡ ok (acc, left)
    → parse_v0_advertisement f q protocol_v0 ≡ ok (v0_advertisement caps acc, left)
unfolding parse_v0_advertisement
parse_v0-lines f q left caps fr acc hf hq = rw hf (rw hq refl)

-- A first line that is parsed as `fr`, and lines that leave `acc`, the last first, behind it.
pub parse_advertisement-v0 :
    (f : Bytes) (q left : Incoming) (caps : RawCapabilities) (fr : Option RawRef)
    (acc : List RawRef)
    → cut_prefix f (bytes "version ") ≡ none
    → parse_first_ref_line (f ++ bytes "\n") ≡ ok (caps, fr)
    → ref_lines_loop q (first_refs fr) ≡ ref_lines_loop (more (control flush) left) acc
    → parse_advertisement (more (line_packet f) q) none ≡ ok (v0_advertisement caps acc, left)
unfolding parse_advertisement dispatch_advertisement
parse_advertisement-v0 f q left caps fr acc hv hf hq =
    let parsed = parse_v0-lines (line_packet f) q left caps fr acc hf (hq ∙ loop_flush left acc) in
    rw (trim_suffix-append b'\n' f) (
      ap (λ m. by_version_line m (line_packet f) q >>= λ (ad, rest). ok (ad, rest)) hv
      ∙ ap (λ (m : Parsed Advertisement). m >>= λ (ad, rest). ok (ad, rest)) parsed)
