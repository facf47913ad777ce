-- ===== src/Lib.antt =====
-- A verification library for XferRust, a download manager in Rust. It models parts of the program
-- as definitions translated from the sources and proves the theorems listed at the end.
--
-- crates/xfer-transport/src/utp_packet.rs is modelled in Transport/Packet.antt (PacketHeader,
-- parse_packet, encode_header, decode_sack_bits, append_sack_extension, seq_after, seq_leq);
-- parse_packet is split in parse_header and the loop parse_extensions, on fuel: a round of the
-- loop takes two bytes at least, so one unit for each byte is enough.
--
-- crates/xfer-transport/src/utp_connection.rs is modelled in Transport/Connection: State (the
-- fields, write, read, close, drain_outbox), Output (queue_data_packet, queue_control, the
-- retransmissions), Congestion (update_rtt, update_delay, update_window), Receive (on_data),
-- Acknowledge (on_ack), Handle (new_outbound, new_inbound, handle_packet) and Tick
-- (handle_timeout, process_tick). An operation takes the connection and gives the connection
-- after it. u16 and u32 arithmetic wraps as in a release build; a Duration is a number of
-- nanoseconds; the n-th reading of the system clock is an argument; the f64 operations of
-- update_window are a record of operations, about which nothing is assumed. The flush loop runs
-- on fuel, a unit for each pending byte. The other modules of Transport/Connection hold the
-- proofs: Frame, Progress and Life follow the state over runs, Reassembly and Reordering the
-- receiving side, Sending, Releasing and Acknowledging the sending side, Control and Handshake
-- the two ends together.
--
-- crates/xfer-bt/src/message.rs is modelled in Peer/Message.antt (Message, id, encode,
-- parse_message, read_message, request_blocks) and Peer/Handshake.antt (encode_handshake,
-- decode_handshake, read_handshake). The stream is the list of what its reads give, so that
-- fill_until recurs on it; request_blocks runs on fuel, a unit for each byte of the piece, of
-- which a block takes one at least where the block size is not zero.
--
-- crates/xfer-storage/src/piece.rs is modelled in Storage/PieceMap.antt (PieceMap; its `set` is
-- set_piece), Storage/Layout.antt (PieceLayout; its `new` is new_layout) and
-- Storage/Layout/Done.antt (files_done_bytes), which Storage/Layout/Counts and Credited compare
-- with a count of single bytes. Lengths and offsets are u64, whose sums wrap; only in
-- piece_segments the start of a piece is the exact product and a difference stops at 0, which is
-- the code for each piece that starts below the total length and whose start and length add up to
-- a u64, where the end of no file wraps. A path segment is a list of code points.
--
-- PieceStore of crates/xfer-storage/src/piece.rs is Storage/Store.antt: the operations of an open
-- file are a parameter (write_at for seek and write_all, read_at for seek and read_exact), an
-- operation gives the new store and whether it succeeded, and the loops over the cache are
-- recursions on it. Verification of a piece by its SHA-1 is an argument of accept_piece.
--
-- crates/xfer-dht/src/node_id.rs and routing_table.rs are modelled in Dht/Table.antt: ids are
-- lists of bytes, the time of a change is an argument, add and mark_bad act on the bucket that
-- bucket_index names (add_to, drop_from), and closest sorts all nodes by their distance.
--
-- crates/xfer-bencode/src/lib.rs is modelled in Bencode/Decimal.antt (to_string and parse of
-- integers), Bencode/Value.antt (Value, encode; a BTreeMap is a list of members in ascending
-- order of its keys) and Bencode/Parser.antt (parse_value, parse_int, parse_length,
-- parse_raw_bytes, parse_list as parse_items, parse_dict as parse_fields, decode, decode_prefix).
-- The parser is on fuel, two units for each byte of the input and one more: a value takes a byte
-- at least, and a round of a loop ends or reads a value.
--
-- crates/xfer-bt/src/playhead.rs is Scheduling/Playhead.antt, with Common/Sort.antt for the sort:
-- an unstable sort by a key that has the whole candidate has one result, that of the stable one.
-- crates/xfer-bt/src/scheduler.rs is Scheduling/Peers.antt: evaluate is adjust (the new target),
-- then decide (try_expand) and settle (try_replace). f64 is a parameter, a type with the
-- operations that the code uses, of which nothing is assumed; durations are numbers.
--
-- crates/xfer-discovery/src/pex.rs is Discovery/Pex.antt: encode and decode of a PexMessage are
-- encode_pex and decode_pex, on the model of the bencode crate; the set of the peers that were
-- sent is a list of which only the members count; the texts of errors are left out.
--
-- crates/xfer-discovery/src/udp_tracker.rs is Discovery/UdpTracker.antt: the packets it builds
-- and the replies it reads, with random numbers and String::from_utf8_lossy as arguments and the
-- texts of errors left out; its parse_compact_peers is the one of pex.rs, line for line.
--
-- crates/xfer-http/src/split.rs is Split. Split/Writer.antt has the segments and on_write,
-- Writer/Dispatch.antt how a worker gets work and how segments change hands, Writer/Messages.antt
-- adaptive scheduling (with ScheduleAction of crates/xfer-http/src/adaptive.rs) and the loop over
-- messages, and Split/Resume.antt the control file and the start. The data file is a parameter, a
-- type with a positioned write and a change of length that may fail; time is an argument of each
-- message. Writer/Steps.antt gives the steps of which the operations consist, for the proofs of
-- invariants. Loops run over the list of segments or the queue. The division by min_split_size in
-- bootstrap is a panic where that is 0, which the model leaves out.
--
-- crates/xfer-http/src/flv.rs is Flv: FlvStream with feed, map_ts and begin_segment. A call of
-- feed has fuel for each byte that it holds and one more; each round of its loop consumes a byte
-- or more.
--
-- Not modelled: sockets, files, the asynchronous runtime, the HTTP, SFTP, LAN and RPC layers and
-- the command line program, which are input and output around these parts, and cryptography,
-- which is done by packages outside the repository.
pub mod Common
pub mod Bencode
pub mod Dht
pub mod Discovery
pub mod Flv
pub mod Peer
pub mod Scheduling
pub mod Split
pub mod Storage
pub mod Transport
