-- ===== src/Lib.antt =====
-- A verification library of go-ls-remote, a Go client for the discovery half of Git's wire protocols
-- with an in-process server for `file://` remotes.
--
-- The program. A session opens with an advertisement: version 0 and 1 send the refs at once, version
-- 2 sends capabilities, and the client then sends commands (`ls-refs`, `object-info`) and reads one
-- response each. All of it travels in pkt-lines. The transports give the client a byte stream; for
-- local repositories the other end of the stream is internal/server, which answers from an object
-- store (internal/objstore) that reads loose and packed refs, reftables (internal/reftable) and packs
-- (internal/objfmt).
--
-- The modules.
--   Base          Go's slices, strings, errors and decimal text, over byte lists and the native
--                 numbers. A Go string is its bytes; `Base.Spaces` has the white space of Unicode as
--                 UTF-8 encodes it.
--   Pktline       pktline/packet.go, reader.go, writer.go, errors.go. `read_packet` is readPacket and
--                 `traced_read` ReadPacket; the writer's calls are functions from its state to the
--                 state and the error. The underlying reader is the bytes that it still has to give
--                 and how it ends; the underlying writer takes a number of calls and then fails, or
--                 takes all. `Incoming` holds the answers of repeated ReadPacket calls as one value,
--                 which the decoders recurse on: it is computed on fuel, one more than the bytes that
--                 are left, which is enough since a packet takes four bytes at least.
--   OffsetVarint  the offset encoding of integers, apart from the code that reads it.
--   Reftable      internal/reftable. `Varint` is varint.go, with the wrap-around of uint64 written out
--                 as `% 2 ^ 64`; `Key` and `RefRecord` are record_key.go and record_ref.go, `Header`
--                 format.go, `Block` block.go, `Walk` and `Reader` reader.go, `Seek` seek.go with
--                 FindRef of reader.go, and `Stack` stack.go.
--                 `Walk.walk_blocks` and `walk_records` are loops on fuel, one more than the bytes of
--                 the file and of the block: a block moves the position on, and a record takes a byte
--                 of its block; the loops of `Seek` have the same fuel. Positions are uint32, with `Base.Words.u32` where the source wraps.
--                 The files of a directory, their mapping and CRC-32 are parameters, and a Go map is
--                 `Base.Maps`.
--   Wire          internal/wire: capability lists (caps_parse.go, caps_echo.go, types.go), `ls-refs`
--                 (refs_v2.go), the advertisements (advertisement.go, refs_v0.go) and `object-info`
--                 (object_info.go). An iterator is modelled for a caller that takes every element.
--   Server        internal/server: command_loop.go, ls_refs.go, object_info.go, advertise.go and
--                 serve.go. `Server.Store` is what they ask of an object store, as a record of its
--                 answers. The loop over the requests of a session (`Serve`) is on fuel, one more than
--                 the packets of the stream: each request takes one at least. What ctx.Err() answers at
--                 each round is a parameter.
--   Objfmt        internal/objfmt. `Hash` is algo.go and hash.go: object ids and their hex text.
--                 `Idx` is idx.go, idx_v1.go and idx_v2.go; the binary search that both versions write
--                 out is `Base.Compare.search_rows`, on fuel, the upper bound of the search, since
--                 each round makes the range shorter. `Midx` is midx.go and midx_find.go: an int64
--                 is kept as the uint64 of the same bits, and a slice or an index out of range is the
--                 outcome `panicked`; `Midx.Rows` describes the rows of the file without the reads.
--                 `Fanout` holds what the searches of both indexes share.
--                 `PackHeader` is pack_header.go, and `Loose` loose.go with what zlib inflates as a
--                 parameter.
--   Objstore      internal/objstore. `Refname` is refname.go, the format of a ref's name, and
--                 `PackedRefs` packed_refs.go; the lines that its scanner yields are a parameter.
--                 `Peel` is loose_objects.go and peel.go: the cache is passed from call to call, and the
--                 rounds of `peel_chain` are those that maxPeelDepth allows.
--   Transport     transport/url.go and url_redact.go: the parsing and the redaction of URLs.
--   Tests         runs at concrete inputs.
--
-- How they interact. A writer's call sends packets (`Sends`, and `Replies` for a step of the server),
-- `Frame.frames` is the bytes of packets, and `Incoming.incoming` the packets that the other side
-- reads in these bytes. The modules named EndToEnd, Answer, V0 and V2 join the two sides.
--
-- Abstractions. The text of an error is kept where the wire carries it, and is a constructor
-- otherwise. `%q` and the mark of a packet kind in a refusal are parameters of the argument parsers.
-- The events of a tracer leave out the time. Sorting by name is insertion sort: the names of a
-- store's refs differ, so every sort gives the same list.
--
-- Not modelled: sockets, HTTP, SSH and process handling in transport, sessions and contexts
-- (session.go, dial.go), tracing output, deltas, loose refs and configuration
-- files, the scratch buffers that decoders reuse, and test harnesses.
pub mod Base
pub mod Pktline
pub mod OffsetVarint
pub mod Reftable
pub mod Wire
pub mod Server
pub mod Objstore
pub mod Transport
pub mod Objfmt
pub mod Tests
