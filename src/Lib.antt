-- ===== src/Lib.antt =====
-- newnode: a proxy whose clients fetch pages from injectors, origins and each other, and check what
-- peers send against hashes that an injector has signed.
--
-- Base64 models base64.c: the two encoders and the decoder, on lists of bytes, with size_t at 2^64 and
-- whether an allocation succeeds as a parameter. Base64/Length and Base64/RoundTrip, Base64/Inverse hold
-- its proofs.
-- Crypto states what the code relies on of libsodium's generic hash: it is a record that the models take
-- as a parameter. Crypto/FirstBytes is one for the tests.
-- Merkle models merkle_tree.c: the record is the struct, each merkle_tree_X is the function X, a failed
-- assertion, and a write outside of an array whose size has wrapped, is `none`. Memory behind `nodes` is a function from indices. Loops run on fuel: the number of
-- bytes for merkle_tree_add_hashed_data, since each round takes at least one, and leaf_idx + 1 for the
-- growth of the array, since each round at least doubles it. Merkle/Root reads the array as a binary
-- tree, Merkle/PowerTwo is the bit trick of power_two_ceil, Merkle/Stream and Merkle/Leaves are about
-- adding data, Merkle/SetLeaf about the growth of the array, Merkle/Finish about the end, Merkle/Signed
-- and Merkle/Header about both ends together.
-- Chunks models the chunks and ranges of client.c: num_chunks, chunk_length, proxy_needs_any,
-- proxy_is_complete and proxy_new_range_start, on the fields of a proxy_request that they read.
-- Chunks/Range and Chunks/Lengths hold its proofs.
-- Peers models the choice of a peer in client.c: via_contains, get_peer and select_peer, where the clock
-- and the random salt are parameters. Peers/Select holds its proofs.
-- Pending models the pool peer_connections and the queue pending_requests of client.c: queue_request,
-- on_utp_connect, connect_more_injectors, abort_connect and what they call. Pointers are numbers, a
-- callback or a freed connection is an event; the times last_request and last_lsd are left out.
-- Pending/Slots, Pending/Counts, Pending/Queue and Pending/Connect hold its proofs.
-- Address models the addresses of network.c: sockaddr_*, map4to6, map6to4, and what udp_sendto and
-- udp_read make of an address. Addresses and ports are the bytes of memory. Address/Mapping and
-- Address/Compare hold its proofs.
-- Signature models content_sign of injector.c and verify_signature of client.c, over libsodium's
-- signatures as a parameter. Signature/Verify holds its proof, from the injector's text to the client's
-- answer.
-- Socks models the SOCKS5 messages in client.c: socks_read_auth_cb and socks_read_req_cb as functions of
-- the bytes that have arrived, with evbuffer_pullup as `pullup`, and socks_reply. Socks/Stream holds
-- its proofs.
-- Obfoo models obfoo.c: the stream cipher from any byte on, the handshake of obfoo_input_filter as a state
-- machine whose cases fall through (`falls`), and both filters. libsodium, evbuffer_search and the layout
-- of a buffer in memory are parameters. Obfoo/Stream, Obfoo/Duplex and Obfoo/Sync hold its proofs.
-- Transfer models the two loops of client.c over the chunks of a page, peer_request_process_chunks
-- (Transfer/Peer) and direct_request_process_chunks (Transfer/Direct), on the fields of a proxy_request:
-- the cache file is a function from offsets, what goes to the browser and other calls are events, in
-- order. Each loop runs on fuel, a round for each chunk. Transfer/Gate models the checks of
-- peer_request_header_cb, and Transfer/Trust is about them; Transfer/Sizes holds arithmetic,
-- Transfer/Origin and Transfer/Recorded are about the loop on the origin. Transfer/Errors models the errors and the end of
-- a request. Transfer/Memory is about the file, Transfer/Held and Transfer/Checked about what is stored,
-- Transfer/Kept, Transfer/Rounds and Transfer/Ends about the rounds, Transfer/Overrun about the playhead.
-- Transfer/Setup models proxy_setup_range and direct_header_cb, on the fields that they read and write, and
-- Transfer/Setup/Agreed is about the answers for one page.
-- Splice models the callbacks of bev_splice.c on two joined connections; Splice/Relay has what libevent
-- does as a relation of steps.
-- Tunnel models connect_req of client.c, a CONNECT that is tried directly and through a peer at once: the
-- callbacks of the browser's connection and of those that are tried are in Tunnel, those of the direct
-- connection and of the peer in Tunnel/Answers, and Tunnel/Calls says when each is due. Tunnel/Keeps,
-- Tunnel/Connects, Tunnel/Refusals, Tunnel/Ends, Tunnel/Browser and Tunnel/Reached are about the state,
-- Tunnel/Failures and Tunnel/Answered about a browser that is refused, Tunnel/Delivers, Tunnel/Joined and
-- Tunnel/Flows about its bytes.
-- Http models the headers: overwrite_kv_header, copy_header, copy_all_headers, build_request_buffer and
-- merkle_tree_hash_request of http.c, and copy_response_headers of client.c, over libevent's calls on a
-- list of headers as a parameter. The loop of overwrite_kv_header runs on fuel, one round more than there
-- are headers, since each round removes one. Http/Copies and Http/Hashed hold its proofs.
-- Http/Pool models the pool of connections, make_connection, return_connection and evcon_close_cb.
-- Injector models the callbacks of injector.c on a page that it fetches and answers, and Injector/Connect
-- its CONNECT. The texts of the time are parameters.
-- Prelude holds shared names and lemmas on lists, tests and bits.
--
-- The parts meet in the data that they share: the leaves that Merkle computes are what Base64 carries in
-- the header X-Hashes, their root is what Signature signs, and Pending asks Peers for the peer to connect
-- to. Bytes are numbers; a size_t or uint64_t that can wrap is taken modulo 2 ^ 64 where it does.
--
-- Not modelled: the rest of the proxying in client.c, the start of requests in injector.c, the uTP and
-- libevent glue (utp_bufferevent.c), dht.c, lsd.c, timers; sha1.c and khash.h
-- (copies of other projects), logging, threads, Android, iOS and the program entry.
pub mod Address
pub mod Base64
pub mod Chunks
pub mod Crypto
pub mod Http
pub mod Injector
pub mod Merkle
pub mod Obfoo
pub mod Peers
pub mod Pending
pub mod Prelude
pub mod Signature
pub mod Socks
pub mod Splice
pub mod Transfer
pub mod Tunnel
