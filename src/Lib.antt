-- ===== src/Lib.antt =====
-- The library libp2p-cat-rs: a peer-to-peer stack in which state is threaded through functions
-- that consume it and return it. This development models the parts below; each file names the
-- source that it translates.
--
-- Parts and their files:
-- - Prelude: lists, bytes, ASCII text, machine words, byte-wise order, and the standard library's
--   BTreeMap as a sorted association list. A byte is a number below 256; slices give what `get` of
--   a range gives.
-- - Types (crates/libp2p-cat-types/src): errors without their texts, addresses, peer identifiers,
--   protocol names. Error also has Ensures, a property of whatever a fallible call returns.
-- - Kad (crates/libp2p-cat-kad/src): NodeId and Distance (node_id.rs, distance.rs), Bucket
--   (bucket.rs), RoutingTable (routing_table.rs), AddrCodec and Codec (codec.rs), Event
--   (event.rs), Lookup (lookup.rs), Node (node.rs). Lookup holds the shortlist and the pending
--   maps; Lookup/Drive has run_lookup, drive_rounds and drain_responses, over an interface
--   LookupNode whose calls return a result or an error; Node fills that interface with the node
--   over its host. RoutingTable/Sorting and RoutingTable/Closest are about closest_to,
--   Node/Answers about a request and its reply between two nodes, Node/Redial about a lookup that
--   meets a handshake in flight.
-- - Rendezvous (crates/libp2p-cat-rendezvous/src): Codec (codec.rs), with its own copy of the
--   address codec, Event (event.rs) and Node (node.rs).
-- - Noise (crates/libp2p-cat-noise/src): Primitives (primitives.rs), Aead and Symmetric
--   (symmetric.rs), Handshake (handshake.rs): the six states of the XX handshake, each message a
--   function from one state to the next; Transport (transport.rs): a session with its two keys,
--   its counter and its replay window of 64 bits. Handshake/Channel composes the three messages
--   into one exchange.
-- - Identity (crates/libp2p-cat-identity/src): Keypair (keypair.rs) and SignedStaticKey
--   (signed_static_key.rs), the signed binding of a static key to an identity.
-- - Udp (crates/libp2p-cat-udp/src/transport.rs): datagrams and their limits over the operating
--   system's socket.
-- - Host (crates/libp2p-cat-host/src): Capacity (capacity.rs), Cookie (cookie.rs), State (the
--   records of state.rs, event.rs and host.rs), Table (the two peer tables, their eviction and
--   sweeps), Dispatch (the operations of host.rs and the handlers of a received datagram). The two
--   pairs of table functions for handshakes and for connections are one generic definition over
--   the time of last activity. The children of Dispatch are proofs: Invariant, Handlers and Reach
--   for the tables, Unchanged for what a rejection leaves, Binding, Complete, Events and Peers for
--   handshakes and sessions, Oversized for sends that do not fit.
-- - Pubsub (crates/libp2p-cat-pubsub/src): Topic (topic.rs), State (state.rs), the tables of
--   decoders and relays, and Auth (auth.rs), the wire forms of commitments and tags. A decoder, a
--   recoder and a commitment are types of the reader's choice. Codec (codec.rs) is the frame of a
--   coded piece; Mux (mux.rs) holds the mux and what it sends, Mux/Paths what a decoder and a
--   relay make of a piece, Mux/Receive the dispatch of what the host delivers; Mux/Sent, Mux/Relay
--   and Mux/Decoder are proofs. The coding crate is the record Coding, with the authenticator's
--   verify and tag.
-- - Mux (crates/libp2p-cat-mux/src): Event (event.rs) and Node (node.rs), one host under the
--   states of Kademlia and pubsub, with the kind byte of lib.rs, and Lookup (node.rs), its own
--   copy of the lookup's rounds.
-- - Examples: the theorems applied at concrete inputs, and runs.
--
-- How the parts interact: the protocol mux hands a plaintext, by its kind, to a Kademlia, a
-- rendezvous or a pubsub node that it makes of its own host; the nodes send their frames through
-- the host's Dispatch.send and read what Dispatch.recv_one delivers; the host keeps a Noise
-- handshake or a Noise transport for each peer, puts an identity's signed static key into the
-- handshake's payloads, and sends through Udp; the lookup seeds itself from the routing table's
-- closest_to and speaks the codec's frames through the node.
--
-- Io is a Result: an operation consumes its node and returns the next one with its event, or an
-- error, and with an error the node is gone, as in the source, where self is moved. The socket is
-- a value that send and recv return, so what was sent and what is still to arrive is the state of
-- the parameter.
--
-- Bounds and fuel: the rounds and the receive budget of a lookup are the source's own counters, so
-- the recursion on them is the source's; a decoder recurses on the count byte of the frame. The
-- wait of observe_self for its answer has no bound in the source; drain_for_observe_response runs
-- on fuel and gives none where it still waits. Machine words: a nonce is below 2 ^ 64 and its
-- counter stops there; the host's tick wraps at 2 ^ 64; a left shift of the window is cut to 64
-- bits.
--
-- Parameters: the ChaCha20-Poly1305 cipher (it opens what it sealed, adds a tag of 16 bytes and,
-- where a theorem says so, seals whatever is below 2 ^ 32 bytes), X25519 (keys of 32 bytes, both
-- sides compute one secret), BLAKE3 and keyed BLAKE3 (of these only that cookies' hashes return
-- bytes), Ed25519 (widths, and a signature verifies under the key that made it), the operating
-- system's socket (no law), the coding crate, the UTF-8 check, the reason text of a failed relay,
-- the seeds of the caller. Host/Dispatch takes the cryptography as one record, Crypto.
--
-- Not modelled: RPC, accessors, the text of errors and of Display, and the examples and tests of
-- the repository. RPC is an adapter to another crate.
pub mod Prelude
pub mod Types
pub mod Kad
pub mod Rendezvous
pub mod Noise
pub mod Identity
pub mod Udp
pub mod Host
pub mod Pubsub
pub mod Mux
pub mod Examples
